-- ===== src/Middle/Reads/Tiles.antt =====
-- The spans that answer a request cover it, each from a block that is valid, fresh and on the disk.
use emby_range_cache_proxy.Base.{
  ℕ, ◌+◌, ◌≤◌, ◌<◌, ◌≡◌, refl, true, not, ◌||◌, Option, none, some, List, [], ◌∷◌, arith, ltb, leb,
  min, All, Bool-cases, inl, inr,
}
use emby_range_cache_proxy.Model.{ByteRange}
use emby_range_cache_proxy.Model.Intervals.{Tiles}
use emby_range_cache_proxy.State.{MiddleBlock}
use emby_range_cache_proxy.Middle.{World, Span, valid_record}
use emby_range_cache_proxy.Middle.Reads.{has_valid_files, prepend, covering_spans}

-- The span lies in its block, whose row is valid and has not expired, and whose files are there.
pub record IsServable (now : ℕ) (w : World) (span : Span) : Type 0 where
  pub from : span.row.start ≤ span.byte_range.start
  pub upto : span.byte_range.end ≤ span.row.end
  pub valid : valid_record span.row ≡ true
  pub fresh : now < span.row.expires_at
  pub on_disk : has_valid_files span.row w ≡ true

abbrev pub ranges_of : List Span → List ByteRange
ranges_of [] = []
ranges_of (span ∷ spans) = span.byte_range ∷ ranges_of spans

-- What is true of an answer, if there is one.
abbrev pub Covered : ℕ → ℕ → ℕ → World → World × Option (List Span) → Type 0
Covered lo stop now w (w', none) = Unit
Covered lo stop now w (w', some spans) =
    (w' ≡ w) × Tiles lo stop (ranges_of spans) × All (IsServable now w) spans

prepend-Covered :
    (span : Span) (lo stop now : ℕ) (w : World) (answer : World × Option (List Span))
    → span.byte_range.start ≡ lo
    → lo ≤ span.byte_range.end
    → IsServable now w span
    → Covered (span.byte_range.end + 1) stop now w answer
    → Covered lo stop now w (prepend span answer)
prepend-Covered span lo stop now w (w', none) h k s c = tt
prepend-Covered span lo stop now w (w', some spans) h k s (same, tiles, servable) =
    (same, (h, omega arith, tiles), (s, servable))

-- If coveringSpans finds spans for a request that is not empty, they follow one another without a
-- gap from the first byte that is asked for to the last, each in a block whose row is valid and not
-- expired and whose files are on the disk with the row's size and range; and nothing was removed.
pub covering_spans-Covered :
    (rows : List MiddleBlock) (expected : ℕ) (requested : ByteRange) (now : ℕ) (w : World)
    → expected ≤ requested.end
    → Covered expected (requested.end + 1) now w (covering_spans rows expected requested now w)
unfolding covering_spans
covering_spans-Covered [] expected requested now w h = tt
covering_spans-Covered (row ∷ rows) expected requested now w h =
    let span_end = min row.end requested.end in
    let span : Span = record {
      row = row;
      byte_range = record { start = expected; end = span_end };
    } in
    elim (Bool-cases (ltb row.end expected)) [
      | inl past ↦ rw past (covering_spans-Covered rows expected requested now w h)
      | inr e1 ↦ elim (Bool-cases (ltb expected row.start)) [
        | inl gap ↦ rw (e1, gap) tt
        | inr e2 ↦ elim (Bool-cases (valid_record row)) [
          | inr bad ↦ rw (e1, e2, bad) tt
          | inl valid ↦ elim (Bool-cases (leb row.expires_at now || not (has_valid_files row w))) [
            | inl stale ↦ rw (e1, e2, valid, stale) tt
            | inr usable ↦
                let s : IsServable now w span = record {
                  from = ground arith;
                  upto = omega arith;
                  valid = valid;
                  fresh = ground arith;
                  on_disk = ground arith;
                } in
                elim (Bool-cases (leb requested.end span_end)) [
                  | inl last ↦
                      rw (e1, e2, valid, usable, last)
                        (refl, (refl, ground arith, ground arith), (s, tt))
                  | inr more ↦
                      rw (e1, e2, valid, usable, more)
                        (prepend-Covered span expected (requested.end + 1) now w
                          (covering_spans rows (span_end + 1) requested now w) refl (ground arith) s
                          (covering_spans-Covered rows (span_end + 1) requested now w
                            (ground arith)))
                ]
          ]
        ]
      ]
    ]
