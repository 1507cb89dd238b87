-- ===== src/Prefetch/Plan/Blocks.antt =====
-- The loop of PlanMiddleRanges: its ranges tile the window, and none crosses a block's border.
use native.Mathlib.Nat.{mod-lt, div-add-mod', div-mul-le_self, div-eq_of_lt-le}
use emby_range_cache_proxy.Base.{
  ℕ, zero, suc, ◌+◌, ◌-◌, ◌*◌, ◌/◌, ◌%◌, ◌≤◌, ◌<◌, min, max, ◌≡◌, refl, sym, ◌⊎◌, ◌↔◌, true, false,
  Option, none, some, List, [], arith, ltb, leb, ◌==◌, Bool-cases, inl, inr, All,
}
use emby_range_cache_proxy.Config.{PrefetchConfig, MiddleCacheConfig}
use emby_range_cache_proxy.Model.{ByteRange}
use emby_range_cache_proxy.Model.Intervals.{Tiles, covers, covers-Tiles}
use emby_range_cache_proxy.Prefetch.Plan.{
  align_up, align_down, segment_last, round_end, plan_blocks, plan_clipped, plan_middle_ranges,
  plan_middle_window, resume_window,
}

-- The block's last byte is not before the byte, and in the same block.
segment_last-bounds :
    (current segment : ℕ)
    → 0 < segment
    → (current ≤ segment_last current segment)
      × (segment_last current segment ≡ current + (segment - 1 - current % segment))
unfolding segment_last align_up
segment_last-bounds current segment h = ground (arith, mod-lt current {m = segment})

-- A byte from `current` up to there lies in the block of `current`.
div-segment_last :
    (current e segment : ℕ)
    → 0 < segment
    → current ≤ e
    → e ≤ segment_last current segment
    → e / segment ≡ current / segment
div-segment_last current e segment pos h k =
    div-eq_of_lt-le segment (omega (arith, div-mul-le_self current segment)) (
      omega (
        arith,
        segment_last-bounds current segment pos,
        mod-lt current pos,
        div-add-mod' current segment,
      ))

-- The range does not cross the border of a block of `segment` bytes.
abbrev pub IsInBlock : ℕ → ByteRange → Type 0
IsInBlock segment r = r.start / segment ≡ r.end / segment

module _ (middle_start middle_end last segment : ℕ) (pos : 0 < segment)
    (h : last ≤ middle_end) where
  round_end-bounds :
      (current : ℕ)
      → current ≤ last
      → (current ≤ round_end middle_end last segment current)
        × (round_end middle_end last segment current ≤ last)
        × (current / segment ≡ round_end middle_end last segment current / segment)
  unfolding round_end
  round_end-bounds current k =
      let b = segment_last-bounds current segment pos in
      (
        omega arith,
        omega arith,
        sym (div-segment_last current _ segment pos (omega arith) (omega arith)),
      )

  plan_blocks-Tiles :
      (f current : ℕ)
      → middle_start ≤ current
      → current ≤ last + 1
      → last + 1 - current ≤ f
      → Tiles current (last + 1) (plan_blocks f middle_start middle_end last segment current)
        × All (IsInBlock segment) (plan_blocks f middle_start middle_end last segment current)
  unfolding plan_blocks
  plan_blocks-Tiles zero current a b c = (omega arith, tt)
  plan_blocks-Tiles (suc f) current a b c = elim (Bool-cases (leb current last)) [
    | inl e ↦
        let ends = round_end-bounds current (ground arith) in
        let next = round_end middle_end last segment current + 1 in
        let (tiles, blocks) = plan_blocks-Tiles f next (omega arith) (omega arith) (ground arith) in
        rw e (ground (arith, tiles, blocks, ends))
    | inr e ↦ rw e (ground arith, tt)
  ]

-- The ranges tile an interval of the middle, and none crosses a block's border.
abbrev pub TilesMiddle : ℕ → ℕ → ℕ → ℕ → ℕ → List ByteRange → Type 0
TilesMiddle middle_start tail_start segment lo stop rs =
    Tiles lo stop rs
    × All (IsInBlock segment) rs
    × ((rs ≡ []) ⊎ ((middle_start ≤ lo) × (stop ≤ tail_start)))

plan_clipped-TilesMiddle :
    (middle_start tail_start segment : ℕ) (w : Option (ℕ × ℕ))
    → 0 < segment
    → middle_start < tail_start
    → (lo stop : ℕ) × TilesMiddle middle_start tail_start segment lo stop
        (plan_clipped middle_start (tail_start - 1) segment w)
unfolding plan_clipped
plan_clipped-TilesMiddle ms ts segment none pos h = (0, 0, (refl, tt, inl refl))
plan_clipped-TilesMiddle ms ts segment (some (start, session_end)) pos h =
    let first = max start ms in
    let last = min session_end (ts - 1) in
    elim (Bool-cases (ltb last first)) [
      | inl e ↦ rw e (0, 0, (refl, tt, inl refl))
      | inr e ↦
          let (tiles, blocks) =
            plan_blocks-Tiles ms (ts - 1) last segment pos (omega arith) (last + 1 - first) first
              (omega arith) (ground arith) (omega arith) in
          rw e (first, last + 1, (tiles, blocks, inr (omega arith, omega arith)))
    ]

-- For a file and a head that are not empty: whatever the window, the plan tiles one interval of the
-- bytes between head and tail, and each of its ranges lies in one block of the middle cache.
pub plan_middle_ranges-TilesMiddle :
    (media_size head_size tail_size anchor_offset : ℕ) (queued_until : Option ℕ)
    (prefetch : PrefetchConfig) (middle_cache : MiddleCacheConfig)
    → 0 < head_size
    → 0 < media_size
    → (lo stop : ℕ) × TilesMiddle
        (min head_size media_size)
        (media_size - tail_size)
        middle_cache.segment_bytes
        lo
        stop
        (plan_middle_ranges media_size head_size tail_size anchor_offset queued_until prefetch
          middle_cache)
unfolding plan_middle_ranges
plan_middle_ranges-TilesMiddle media head tail anchor queued p m h k =
    let segment = m.segment_bytes in
    let e : min (head - 1) (media - 1) + 1 ≡ min head media = omega arith in
    elim (Bool-cases (segment == 0)) [
      | inl z ↦ rw z (0, 0, (refl, tt, inl refl))
      | inr z ↦ rw z (elim (Bool-cases (leb (media - tail) (min (head - 1) (media - 1) + 1))) [
        | inl c ↦ rw c (0, 0, (refl, tt, inl refl))
        | inr c ↦
            rw (c, ← e)
              (plan_clipped-TilesMiddle _ (media - tail) segment _ (ground arith) (ground arith))
      ])
    ]

clipped_bytes :
    (middle_start tail_start segment start session_end b : ℕ)
    → 0 < segment
    → middle_start < tail_start
    → (covers (plan_clipped middle_start (tail_start - 1) segment (some (start, session_end))) b
        ≡ true)
      ↔ ((middle_start ≤ b) × (b < tail_start) × (start ≤ b) × (b ≤ session_end))
unfolding plan_clipped covers
clipped_bytes ms ts segment start session_end b pos h =
    let first = max start ms in
    let last = min session_end (ts - 1) in
    elim (Bool-cases (ltb last first)) [
      | inl e ↦ rw e (ground arith)
      | inr e ↦
          let (tiles, blocks) =
            plan_blocks-Tiles ms (ts - 1) last segment pos (omega arith) (last + 1 - first) first
              (omega arith) (ground arith) (omega arith) in
          let c = covers-Tiles first (last + 1) _ b tiles in
          rw e (
            λ x. let y = c.0 x in (omega arith, omega arith, omega arith, omega arith),
            λ x. c.1 (omega arith, omega arith),
          )
    ]

align_down-div : (n segment : ℕ) → align_down n segment ≡ n / segment * segment
unfolding align_down
align_down-div n segment = omega (arith, div-add-mod' n segment)

resume_mode :
    (middle_start middle_end segment head_end anchor_offset : ℕ) (prefetch : PrefetchConfig)
    → 0 < prefetch.resume_back_blocks + prefetch.resume_forward_blocks
    → head_end < anchor_offset
    → let block_start = align_down anchor_offset segment in
      plan_middle_window middle_start middle_end segment head_end anchor_offset none prefetch
      ≡ some (
        block_start - prefetch.resume_back_blocks * segment,
        block_start + (prefetch.resume_forward_blocks + 1) * segment - 1,
      )
unfolding plan_middle_window resume_window
resume_mode ms me segment head_end anchor p mode h = ground arith

resume_plan :
    (media_size head_size tail_size anchor_offset : ℕ) (prefetch : PrefetchConfig)
    (middle_cache : MiddleCacheConfig)
    → 0 < head_size
    → 0 < middle_cache.segment_bytes
    → 0 < prefetch.resume_back_blocks + prefetch.resume_forward_blocks
    → head_size ≤ anchor_offset
    → head_size < media_size - tail_size
    → let segment = middle_cache.segment_bytes in
      let block_start = align_down anchor_offset segment in
      plan_middle_ranges media_size head_size tail_size anchor_offset none prefetch middle_cache
      ≡ plan_clipped head_size (media_size - tail_size - 1) segment (
          some (
            block_start - prefetch.resume_back_blocks * segment,
            block_start + (prefetch.resume_forward_blocks + 1) * segment - 1,
          ))
unfolding plan_middle_ranges
resume_plan media head tail anchor p m h pos mode k room =
    let e : min (head - 1) (media - 1) ≡ head - 1 = omega arith in
    let e' : head - 1 + 1 ≡ head = omega arith in
    let z : (m.segment_bytes == 0) ≡ false = ground arith in
    let c : leb (media - tail) head ≡ false = ground arith in
    rw (
      e,
      e',
      z,
      c,
      resume_mode head (media - tail - 1) m.segment_bytes (head - 1) anchor p mode (omega arith),
    )

-- In the mode of resume blocks, with nothing queued yet and an anchor behind the head, the plan
-- names exactly the bytes between head and tail that lie in the anchor's block, in one of the
-- configured number of blocks behind it, or in one of those ahead.
pub plan_middle_ranges-resume :
    (media_size head_size tail_size anchor_offset b : ℕ) (prefetch : PrefetchConfig)
    (middle_cache : MiddleCacheConfig)
    → 0 < head_size
    → 0 < middle_cache.segment_bytes
    → 0 < prefetch.resume_back_blocks + prefetch.resume_forward_blocks
    → head_size ≤ anchor_offset
    → head_size < media_size - tail_size
    → let block = anchor_offset / middle_cache.segment_bytes in
      (covers
          (plan_middle_ranges media_size head_size tail_size anchor_offset none prefetch
            middle_cache)
          b
        ≡ true)
      ↔ ((head_size ≤ b)
          × (b < media_size - tail_size)
          × (block * middle_cache.segment_bytes
              ≤ b + prefetch.resume_back_blocks * middle_cache.segment_bytes)
          × (b < (block + prefetch.resume_forward_blocks + 1) * middle_cache.segment_bytes))
plan_middle_ranges-resume media head tail anchor b p m h pos mode k room =
    let segment = m.segment_bytes in
    let block_start = align_down anchor segment in
    let c =
      clipped_bytes head (media - tail) segment (block_start - p.resume_back_blocks * segment)
        (block_start + (p.resume_forward_blocks + 1) * segment - 1) b pos room in
    let d = align_down-div anchor segment in
    rw (resume_plan media head tail anchor p m h pos mode k room) (
      λ x. let y = c.0 x in (omega arith, omega arith, omega arith, omega arith),
      λ y. c.1 (omega arith, omega arith, omega arith, omega arith),
    )
