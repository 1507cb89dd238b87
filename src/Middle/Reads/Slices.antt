-- ===== src/Middle/Reads/Slices.antt =====
-- IterBlock of a middle cache whose blocks under a key are parts of one file.
use emby_range_cache_proxy.Base.{
  ℕ, ◌+◌, ◌-◌, ◌<◌, ◌≡◌, refl, ap, ap₂, subst, ◌∙◌, Bool, true, not, ◌||◌, Option, none, some, List,
  [], ◌∷◌, ◌++◌, Result, ok, err, arith, ltb, leb, ◌==◌, min, length, take, drop, All, All-weaken,
  Bool-cases, inl, inr,
}
use emby_range_cache_proxy.Base.Texts.{Text}
use emby_range_cache_proxy.Base.Slices.{between, between-append}
use emby_range_cache_proxy.Model.{ByteRange}
use emby_range_cache_proxy.Model.Intervals.{Tiles, Tiles-le}
use emby_range_cache_proxy.Disk.{Disk, content_at, remove_file}
use emby_range_cache_proxy.Disk.Contents.{Shrinks, remove_file-Shrinks}
use emby_range_cache_proxy.Disk.Chunks.{concat}
use emby_range_cache_proxy.HeadTail.{CacheError, valid_key}
use emby_range_cache_proxy.HeadTail.Slices.{part-IsSlice}
use emby_range_cache_proxy.State.{MiddleBlock}
use emby_range_cache_proxy.State.Blocks.{find_middle_blocks}
use emby_range_cache_proxy.Middle.{Cache, World, Span, record_paths, valid_record, remove_block}
use emby_range_cache_proxy.Middle.Reads.{
  has_valid_files, prepend, covering_spans, touch_spans, answer_spans, iter_block,
}
use emby_range_cache_proxy.Middle.Reads.Rows.{
  SpanRows, FoundRows, find_middle_blocks-IsListed, covering_spans-FoundRows,
}
use emby_range_cache_proxy.Middle.Reads.Tiles.{
  IsServable, ranges_of, Covered, covering_spans-Covered,
}
use emby_range_cache_proxy.Middle.Reads.Whole.{
  part_of, bytes_of, servable-content, stream_spans-Sent, touched-IsServable,
}

-- The file of each row under this key, if it is as long as the row says, holds bytes of the file.
abbrev pub IsCoherent : Text → Text → Disk → Type 0
IsCoherent content key d =
    (row : MiddleBlock) (bytes : Text)
    → row.cache_key ≡ key
    → valid_record row ≡ true
    → content_at (record_paths row).0 d ≡ some bytes
    → length bytes ≡ row.end - row.start + 1
    → bytes ≡ between row.start (row.end + 1) content

prepend-disk :
    (span : Span) (answer : World × Option (List Span)) → (prepend span answer).0 ≡ answer.0
prepend-disk span (w, none) = refl
prepend-disk span (w, some spans) = refl

pub remove_block-Shrinks :
    (row : MiddleBlock) (w : World) → Shrinks (remove_block row w).disk w.disk
unfolding remove_block
remove_block-Shrinks row w p c h =
    let (path, sidecar) = record_paths row in
    let d = remove_file path w.disk in
    elim (Bool-cases (valid_record row)) [
      | inr e ↦ ground (arith, h, e)
      | inl e ↦
          remove_file-Shrinks path w.disk p c
            (remove_file-Shrinks sidecar d p c (ground (arith, h, e)))
    ]

covering_spans-Shrinks :
    (rows : List MiddleBlock) (expected : ℕ) (requested : ByteRange) (now : ℕ) (w : World)
    → Shrinks (covering_spans rows expected requested now w).0.disk w.disk
unfolding covering_spans
covering_spans-Shrinks [] expected requested now w = λ p c k. k
covering_spans-Shrinks (row ∷ rows) expected requested now w =
    let span_end = min row.end requested.end in
    elim (Bool-cases (ltb row.end expected)) [
      | inl past ↦ rw past (covering_spans-Shrinks rows expected requested now w)
      | inr e1 ↦ elim (Bool-cases (ltb expected row.start)) [
        | inl gap ↦ rw (e1, gap) (λ p c k. k)
        | inr e2 ↦ elim (Bool-cases (valid_record row)) [
          | inr bad ↦ rw (e1, e2, bad) (λ p c k. k)
          | inl valid ↦ elim (Bool-cases (leb row.expires_at now || not (has_valid_files row w))) [
            | inl stale ↦ rw (e1, e2, valid, stale) (remove_block-Shrinks row w)
            | inr usable ↦ elim (Bool-cases (leb requested.end span_end)) [
              | inl last ↦ rw (e1, e2, valid, usable, last) (λ p c k. k)
              | inr more ↦
                  let less = covering_spans-Shrinks rows (span_end + 1) requested now w in
                  rw (e1, e2, valid, usable, more)
                    (λ p c k.
                      less p c
                        (subst (λ (v : World). content_at p v.disk ≡ some c) (prepend-disk _ _) k))
            ]
          ]
        ]
      ]
    ]

bytes_of-between :
    (content key : Text) (spans : List Span) (now lo stop : ℕ) (w : World)
    → IsCoherent content key w.disk
    → Tiles lo stop (ranges_of spans)
    → All (IsServable now w) spans
    → SpanRows (λ row. row.cache_key ≡ key) spans
    → bytes_of w.disk spans ≡ between lo stop content
bytes_of-between content key [] now lo stop w c tiles s k =
    ap (λ n. take n (drop lo content)) (nothing lo stop tiles)
  where
    nothing : (a b : ℕ) → a ≡ b → 0 ≡ b - a
    nothing a b h = omega arith
bytes_of-between content key (span ∷ spans) now lo stop w c (at, ordered, tiles) (s, ss) (k, ks) =
    let (bytes, there, size) = servable-content now w span s in
    let r = span.byte_range in
    let stored : ByteRange = record { start = span.row.start; end = span.row.end } in
    let same = c span.row bytes k s.valid there size in
    let part : part_of span (content_at (record_paths span.row).0 w.disk)
        ≡ between r.start (r.end + 1) content =
      ap (part_of span) there ∙ part-IsSlice content bytes stored r same s.from ordered s.upto in
    let rest = bytes_of-between content key spans now (r.end + 1) stop w c tiles ss ks in
    ap₂ ◌++◌ part rest
    ∙ between-append r.start (r.end + 1) stop content (omega arith)
        (Tiles-le (r.end + 1) stop (ranges_of spans) tiles)
    ∙ ap (λ n. between n stop content) at

-- The chunks of an answer are the bytes that were asked for; without chunks the disk has lost at most
-- some files.
abbrev pub Answers :
    Text → ByteRange → World → World × Result CacheError (Option (List Text)) → Type 0
Answers content r w (w', err e) = Shrinks w'.disk w.disk
Answers content r w (w', ok none) = Shrinks w'.disk w.disk
Answers content r w (w', ok (some chunks)) = concat chunks ≡ between r.start (r.end + 1) content

answer_spans-Answers :
    (content key : Text) (c : Cache) (opens : MiddleBlock → Bool) (chunk_bytes now : ℕ)
    (r : ByteRange) (w : World) (found : World × Option (List Span))
    → ((row : MiddleBlock) → opens row ≡ true)
    → 0 < chunk_bytes
    → IsCoherent content key w.disk
    → Covered r.start (r.end + 1) now w found
    → FoundRows (λ row. row.cache_key ≡ key) found
    → Shrinks found.0.disk w.disk
    → Answers content r w (answer_spans c opens chunk_bytes now found)
answer_spans-Answers content key c opens chunk_bytes now r w (w', none) h pos coherent covered k
      less =
    less
answer_spans-Answers content key c opens chunk_bytes now r w (w', some spans) h pos coherent
      (same, tiles, servable) of_key less =
    let touched : World = record w { store = touch_spans c spans now w.store } in
    let (_, bytes_eq, _, _) =
      stream_spans-Sent spans opens chunk_bytes now r.start (r.end + 1) touched h pos tiles
        (touched-IsServable now w spans touched.store servable) in
    rw same (
      bytes_eq
      ∙ bytes_of-between content key spans now r.start (r.end + 1) w coherent tiles servable of_key)

pub iter_block-Answers :
    (content key : Text) (c : Cache) (opens : MiddleBlock → Bool) (r : ByteRange)
    (chunk_bytes now : ℕ) (w : World)
    → ((row : MiddleBlock) → opens row ≡ true)
    → IsCoherent content key w.disk
    → Answers content r w (iter_block c opens key r chunk_bytes now w)
unfolding iter_block
iter_block-Answers content key c opens r chunk_bytes now w h coherent =
    let rows = find_middle_blocks w.store key r in
    elim (Bool-cases (chunk_bytes == 0)) [
      | inl e ↦ rw e (λ p b k. k)
      | inr e ↦ elim (Bool-cases (not (valid_key key) || ltb r.end r.start)) [
        | inl f ↦ rw (e, f) (λ p b k. k)
        | inr f ↦
            rw (e, f)
              (answer_spans-Answers content key c opens chunk_bytes now r w
                (covering_spans rows r.start r now w) h (ground arith) coherent
                (covering_spans-Covered rows r.start r now w (ground (arith, f)))
                (covering_spans-FoundRows _ rows r.start r now w (
                  All-weaken _ (λ row. row.cache_key ≡ key) rows (λ row listed. listed.1)
                    (find_middle_blocks-IsListed w.store key r)))
                (covering_spans-Shrinks rows r.start r now w))
      ]
    ]
