-- ===== src/HeadTail/Slices.antt =====
-- A head and tail cache whose entries under a key are parts of one file: what IterBlock answers from it,
-- and that it stays so.
use emby_range_cache_proxy.Base.{
  ℕ, ◌+◌, ◌-◌, ◌≤◌, ◌≡◌, refl, sym, ap, ap₂, subst, ◌∙◌, Bool, true, false, Option, none, some,
  List, Result, ok, err, arith, ◌==◌, length, take, drop, Bool-cases, Option-cases, inl, inr, ◌<◌,
}
use emby_range_cache_proxy.Base.Texts.{Text}
use emby_range_cache_proxy.Base.Slices.{between, between-between}
use emby_range_cache_proxy.Model.{ByteRange, range_length}
use emby_range_cache_proxy.Disk.{block_file, range_file, Disk, content_at, remove_file, touch_file}
use emby_range_cache_proxy.Disk.Contents.{Shrinks, remove_file-Shrinks, touch_file-Shrinks}
use emby_range_cache_proxy.Disk.Chunks.{concat}
use emby_range_cache_proxy.Disk.Sidecar.{read_range}
use emby_range_cache_proxy.HeadTail.{
  CacheError, valid_key, valid_block_name, read_entry, remove_entry, contains, stream_block,
  has_block_range, iter_block,
}
use emby_range_cache_proxy.HeadTail.Reads.{Part, stream_block-Answers}

-- The whole entries under this key hold bytes of the file.
abbrev pub IsCoherent : Text → Text → Disk → Type 0
IsCoherent content key d =
    (name : Text) (stored : ByteRange) (bytes : Text)
    → read_entry key name d ≡ some (stored, bytes)
    → bytes ≡ between stored.start (stored.end + 1) content

remove_entry-Shrinks : (key name : Text) (d : Disk) → Shrinks (remove_entry key name d) d
remove_entry-Shrinks key name d p c h =
    remove_file-Shrinks (block_file key name) d p c
      (remove_file-Shrinks (range_file key name) (remove_file (block_file key name) d) p c h)

-- The two files of an entry.
abbrev Parts : Text → Text → ByteRange → Text → Disk → Type 0
Parts key name stored bytes d =
    (line : Text) × (content_at (range_file key name) d ≡ some line)
    × (read_range line ≡ some stored)
    × (content_at (block_file key name) d ≡ some bytes)
    × ((length bytes == range_length stored) ≡ true)

read_entry-Parts :
    (key name : Text) (stored : ByteRange) (bytes : Text) (d : Disk)
    → read_entry key name d ≡ some (stored, bytes)
    → Parts key name stored bytes d
unfolding read_entry
read_entry-Parts key name stored bytes d h =
    elim (Option-cases (content_at (range_file key name) d)) [
      | inl e ↦ absurd (none_some (ground (arith, h, e)))
      | inr (line, e) ↦ elim (Option-cases (read_range line)) [
        | inl f ↦ absurd (none_some (ground (arith, h, e, f)))
        | inr (r, f) ↦ elim (Option-cases (content_at (block_file key name) d)) [
          | inl g ↦ absurd (none_some (ground (arith, h, e, f, g)))
          | inr (c, g) ↦ (
            line,
            e,
            ground (arith, h, e, f, g),
            ground (arith, h, e, f, g),
            ground (arith, h, e, f, g),
          )
        ]
      ]
    ]
  where
    none_some : false ≡ true → ⊥
    none_some k = cc

read_entry-Shrinks :
    (key name : Text) (stored : ByteRange) (bytes : Text) (d d' : Disk)
    → Shrinks d' d
    → read_entry key name d' ≡ some (stored, bytes)
    → read_entry key name d ≡ some (stored, bytes)
unfolding read_entry
read_entry-Shrinks key name stored bytes d d' s h =
    let (line, e, f, g, size) = read_entry-Parts key name stored bytes d' h in
    let e' = s (range_file key name) line e in
    let g' = s (block_file key name) bytes g in rw (e', read_entry, f, g', size) refl

pub IsCoherent-Shrinks :
    (content key : Text) (d d' : Disk)
    → Shrinks d' d
    → IsCoherent content key d
    → IsCoherent content key d'
IsCoherent-Shrinks content key d d' s c name stored bytes h =
    c name stored bytes (read_entry-Shrinks key name stored bytes d d' s h)

stream_block-Shrinks :
    (open_fails : Bool) (chunk_bytes : ℕ) (key name : Text) (r : ByteRange) (now : ℕ)
    (entry : ByteRange × Text) (d : Disk)
    → Shrinks (stream_block open_fails chunk_bytes key name r now entry d).0 d
unfolding stream_block
stream_block-Shrinks open_fails chunk_bytes key name r now (stored, bytes) d p c h =
    let touched = touch_file (block_file key name) now d in
    ground (
      arith,
      h,
      remove_entry-Shrinks key name d p c,
      touch_file-Shrinks (block_file key name) now d p c,
      remove_entry-Shrinks key name touched p c,
    )

pub iter_block-Shrinks :
    (open_fails : Bool) (chunk_bytes : ℕ) (key name : Text) (r : ByteRange) (now : ℕ) (d : Disk)
    → Shrinks (iter_block open_fails chunk_bytes key name r now d).0 d
unfolding iter_block
iter_block-Shrinks open_fails chunk_bytes key name r now d p c h =
    elim (Option-cases (read_entry key name d)) [
      | inl e ↦ ground (arith, h, e, remove_entry-Shrinks key name d p c)
      | inr (entry, e) ↦
          ground
            (arith, h, e, stream_block-Shrinks open_fails chunk_bytes key name r now entry d p c)
    ]

-- What is true of an answer with chunks: they are the bytes asked for.
abbrev pub IsSlice : Text → ByteRange → Result CacheError (Option (List Text)) → Type 0
IsSlice content r (err e) = Unit
IsSlice content r (ok none) = Unit
IsSlice content r (ok (some chunks)) = concat chunks ≡ between r.start (r.end + 1) content

pub part-IsSlice :
    (content bytes : Text) (stored r : ByteRange)
    → bytes ≡ between stored.start (stored.end + 1) content
    → stored.start ≤ r.start
    → r.start ≤ r.end
    → r.end ≤ stored.end
    → Part stored r bytes ≡ between r.start (r.end + 1) content
part-IsSlice content bytes stored r same from ordered upto =
    let i = r.start - stored.start in
    ap (λ k. take k (drop i bytes)) (omega arith)
    ∙ ap (between i (r.end + 1 - stored.start)) same
    ∙ between-between i (r.end + 1 - stored.start) stored.start (stored.end + 1) content
        (omega arith)
    ∙ ap₂ (λ a b. between a b content) (omega arith) (omega arith)

stream_block-IsSlice :
    (content : Text) (open_fails : Bool) (chunk_bytes : ℕ) (key name : Text) (r : ByteRange)
    (now : ℕ) (stored : ByteRange) (bytes : Text) (d : Disk)
    → 0 < chunk_bytes
    → r.start ≤ r.end
    → length bytes ≡ range_length stored
    → bytes ≡ between stored.start (stored.end + 1) content
    → IsSlice content r (stream_block open_fails chunk_bytes key name r now (stored, bytes) d).1
unfolding stream_block
stream_block-IsSlice content true chunk_bytes key name r now stored bytes d pos ordered size same =
    elim (Bool-cases (contains stored r)) [ inr e ↦ rw e tt | inl e ↦ rw e tt ]
stream_block-IsSlice content false chunk_bytes key name r now stored bytes d pos ordered size same =
    elim (Bool-cases (contains stored r)) [
      | inr e ↦ rw e tt
      | inl e ↦
          let from : stored.start ≤ r.start = ground (arith, e) in
          let upto : r.end ≤ stored.end = ground (arith, e) in
          let (chunks, answer, sent, _) =
            stream_block-Answers chunk_bytes now key name stored r bytes d pos from ordered upto
              size in
          subst (IsSlice content r) (sym answer)
            (sent ∙ part-IsSlice content bytes stored r same from ordered upto)
    ]

pub iter_block-IsSlice :
    (content : Text) (open_fails : Bool) (chunk_bytes : ℕ) (key name : Text) (r : ByteRange)
    (now : ℕ) (d : Disk)
    → IsCoherent content key d
    → r.start ≤ r.end
    → IsSlice content r (iter_block open_fails chunk_bytes key name r now d).1
unfolding iter_block
iter_block-IsSlice content open_fails chunk_bytes key name r now d c ordered =
    elim (Bool-cases (chunk_bytes == 0)) [
      | inl e ↦ rw e tt
      | inr e ↦ elim (Bool-cases (valid_key key)) [
        | inr f ↦ rw (e, f) tt
        | inl f ↦ elim (Bool-cases (valid_block_name name)) [
          | inr g ↦ rw (e, f, g) tt
          | inl g ↦ elim (Option-cases (read_entry key name d)) [
            | inl k ↦ rw (e, f, g, k) tt
            | inr ((stored, bytes), k) ↦
                let (line, _, _, _, size) = read_entry-Parts key name stored bytes d k in
                rw (e, f, g, k)
                  (stream_block-IsSlice content open_fails chunk_bytes key name r now stored bytes d
                    (ground arith) ordered (ground arith) (c name stored bytes k))
          ]
        ]
      ]
    ]

pub has_block_range-Shrinks :
    (key name : Text) (r : ByteRange) (d : Disk) → Shrinks (has_block_range key name r d).0 d
unfolding has_block_range
has_block_range-Shrinks key name r d p c h = elim (Option-cases (read_entry key name d)) [
  | inl e ↦ ground (arith, h, e, remove_entry-Shrinks key name d p c)
  | inr (entry, e) ↦ ground (arith, h, e)
]
