-- ===== src/Middle/Reads/Rows.antt =====
-- Which rows IterBlock reads: those that FindMiddleBlocks selects.
use emby_range_cache_proxy.Base.{
  ℕ, ◌+◌, ◌≡◌, true, not, ◌||◌, Option, none, some, List, [], ◌∷◌, arith, ltb, leb, min, All,
  All-Mem, Bool-cases, inl, inr,
}
use mathlib.Core.List.{Memᴰ}
use emby_range_cache_proxy.Base.Texts.{Text, eq_of_same_text}
use emby_range_cache_proxy.Base.Tables.{
  select_where, select_where-passes, All-select_where, All-order_by,
}
use emby_range_cache_proxy.Model.{ByteRange}
use emby_range_cache_proxy.State.{MiddleBlock, Store}
use emby_range_cache_proxy.State.Blocks.{find_middle_blocks, overlaps, block_before}
use emby_range_cache_proxy.Middle.{World, Span, valid_record}
use emby_range_cache_proxy.Middle.Reads.{has_valid_files, prepend, covering_spans}

-- The row is in this table, under this key.
abbrev pub IsListed : Text → List MiddleBlock → MiddleBlock → Type 0
IsListed key rows row = Memᴰ row rows × (row.cache_key ≡ key)

pub find_middle_blocks-IsListed :
    (s : Store) (key : Text) (r : ByteRange)
    → All (IsListed key s.middle_blocks) (find_middle_blocks s key r)
unfolding find_middle_blocks
find_middle_blocks-IsListed s key r =
    let rows = s.middle_blocks in
    let selected = select_where (overlaps key r) rows in
    All-order_by (IsListed key rows) block_before selected (
      both selected (All-select_where _ (overlaps key r) rows (All-Mem rows))
        (select_where-passes (overlaps key r) rows))
  where
    both :
        (xs : List MiddleBlock)
        → All (λ x. Memᴰ x s.middle_blocks) xs
        → All (λ x. overlaps key r x ≡ true) xs
        → All (IsListed key s.middle_blocks) xs
    both [] m h = tt
    both (x ∷ xs) (m, ms) (h, hs) =
        ((m, eq_of_same_text x.cache_key key (ground (arith, h))), both xs ms hs)

module _ (P : MiddleBlock → Type 0) where
  -- What is true of the row of each span.
  abbrev pub SpanRows : List Span → Type 0
  SpanRows = All (λ span. P span.row)

  abbrev pub FoundRows : World × Option (List Span) → Type 0
  FoundRows (w, none) = Unit
  FoundRows (w, some spans) = SpanRows spans

  prepend-FoundRows :
      (span : Span) (answer : World × Option (List Span))
      → P span.row
      → FoundRows answer
      → FoundRows (prepend span answer)
  prepend-FoundRows span (w, none) h k = tt
  prepend-FoundRows span (w, some spans) h k = (h, k)

  pub covering_spans-FoundRows :
      (rows : List MiddleBlock) (expected : ℕ) (requested : ByteRange) (now : ℕ) (w : World)
      → All P rows
      → FoundRows (covering_spans rows expected requested now w)
  unfolding covering_spans
  covering_spans-FoundRows [] expected requested now w h = tt
  covering_spans-FoundRows (row ∷ rows) expected requested now w (h, hs) =
      let span_end = min row.end requested.end in
      elim (Bool-cases (ltb row.end expected)) [
        | inl past ↦ rw past (covering_spans-FoundRows rows expected requested now w hs)
        | inr e1 ↦ elim (Bool-cases (ltb expected row.start)) [
          | inl gap ↦ rw (e1, gap) tt
          | inr e2 ↦ elim (Bool-cases (valid_record row)) [
            | inr bad ↦ rw (e1, e2, bad) tt
            | inl valid ↦
                elim (Bool-cases (leb row.expires_at now || not (has_valid_files row w))) [
                  | inl stale ↦ rw (e1, e2, valid, stale) tt
                  | inr usable ↦ elim (Bool-cases (leb requested.end span_end)) [
                    | inl last ↦ rw (e1, e2, valid, usable, last) (h, tt)
                    | inr more ↦
                        rw (e1, e2, valid, usable, more)
                          (prepend-FoundRows _ (covering_spans rows (span_end + 1) requested now w)
                            h (covering_spans-FoundRows rows (span_end + 1) requested now w hs))
                  ]
                ]
          ]
        ]
      ]
