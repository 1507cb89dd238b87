-- ===== src/HeadTail/Choice.antt =====
-- Which block a request is served from.
use emby_range_cache_proxy.Base.{
  ℕ, ◌+◌, ◌-◌, ◌≤◌, ◌<◌, min, ◌≡◌, refl, ◌⊎◌, inl, inr, not, ◌&&◌, Option, none, some, arith, ltb,
  leb, ◌==◌, if◌then◌else◌, Bool-cases,
}
use emby_range_cache_proxy.Base.Texts.{Text, codes}
use emby_range_cache_proxy.Model.{ByteRange, InBounds}
use emby_range_cache_proxy.HeadTail.{block_for_request}

-- The first bytes of the file, or its last ones, as many as configured where the file has them, and
-- the request lies in them, and in the second case ends after the head; or there is no block, and the
-- request begins before the tail and ends after the head.
abbrev pub IsBlockFor : ByteRange → ℕ → ℕ → ℕ → Option (Text × ByteRange) → Type 0
IsBlockFor r size head_size tail_size none =
    (min head_size size ≤ r.end) × (r.start < size - tail_size)
IsBlockFor r size head_size tail_size (some (name, block)) =
    (((name ≡ codes "head") × (block.start ≡ 0) × (block.end + 1 ≡ min head_size size))
      ⊎ ((name ≡ codes "tail")
          × (block.start ≡ size - tail_size)
          × (block.end + 1 ≡ size)
          × (min head_size size ≤ r.end)))
    × (block.start ≤ r.start)
    × (r.end ≤ block.end)

-- The block of a request for bytes that exist is the head if the head holds the request, or else the
-- tail if the tail does, or else none.
pub block_for_request-IsBlockFor :
    (r : ByteRange) (size head_size tail_size : ℕ)
    → InBounds size r
    → IsBlockFor r size head_size tail_size (block_for_request r size head_size tail_size)
unfolding block_for_request
block_for_request-IsBlockFor r size head_size tail_size b =
    let head_end = if ltb size head_size then size else head_size in
    let in_head = not (head_end == 0) && (leb 0 r.start && leb r.end (head_end - 1)) in
    let in_tail = not (size == 0) && (leb (size - tail_size) r.start && leb r.end (size - 1)) in
    let smaller : head_end ≡ min head_size size = ground arith in
    elim (Bool-cases in_head) [
      | inl h ↦ rw h (inl (refl, refl, ground arith), ground arith, ground arith)
      | inr h ↦ elim (Bool-cases in_tail) [
        | inl t ↦
            rw (h, t) (inr (refl, refl, ground arith, ground arith), ground arith, ground arith)
        | inr t ↦ rw (h, t) (ground arith, ground arith)
      ]
    ]
