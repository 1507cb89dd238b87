-- ===== src/State/Sources/Latest.antt =====
-- LatestSourceMetadata and the runtime settings.
use emby_range_cache_proxy.Base.{
  ℕ, ◌≤◌, ◌≡◌, refl, sym, ap, ◌∙◌, Bool, true, false, Option, none, some, List, [], ◌∷◌, ◌++◌,
  arith, ltb, if◌then◌else◌, All, Bool-cases, inl, inr,
}
use emby_range_cache_proxy.Base.Tables.{
  select_where, update_where, exists_where, first_where, insert_by, order_by, select_where-passes,
  All-order_by,
}
use emby_range_cache_proxy.Base.Texts.{Text, same_text, same_text_iff}
use emby_range_cache_proxy.State.{SourceRow, Setting, Store}
use emby_range_cache_proxy.State.Sources.{
  is_media, newer_before, head_source, latest_source_metadata, runtime_setting, set_runtime_setting,
}

-- The first row, if there is one, is at least as new as every row.
abbrev LeadsWith : List SourceRow → List SourceRow → Type 0
LeadsWith rows [] = rows ≡ []
LeadsWith rows (r ∷ rest) = All (λ x. x.updated_at ≤ r.updated_at) rows

All-le_trans :
    (m n : ℕ) (rows : List SourceRow)
    → m ≤ n
    → All (λ x. x.updated_at ≤ m) rows
    → All (λ x. x.updated_at ≤ n) rows
All-le_trans m n [] h k = tt
All-le_trans m n (r ∷ rows) h k = (omega arith, All-le_trans m n rows h k.1)

insert_by-LeadsWith :
    (r : SourceRow) (rows sorted : List SourceRow)
    → LeadsWith rows sorted
    → LeadsWith (r ∷ rows) (insert_by newer_before r sorted)
unfolding insert_by newer_before
insert_by-LeadsWith r rows [] h = rw h (omega arith, tt)
insert_by-LeadsWith r rows (x ∷ sorted) h = elim (Bool-cases (ltb r.updated_at x.updated_at)) [
  | inl e ↦ rw e (ground arith, h)
  | inr e ↦ rw e (omega arith, All-le_trans x.updated_at r.updated_at rows (ground arith) h)
]

order_by-LeadsWith : (rows : List SourceRow) → LeadsWith rows (order_by newer_before rows)
unfolding order_by
order_by-LeadsWith [] = refl
order_by-LeadsWith (r ∷ rows) = insert_by-LeadsWith r rows _ (order_by-LeadsWith rows)

head_source-LeadsWith :
    (rows sorted : List SourceRow) (r : SourceRow)
    → LeadsWith rows sorted
    → head_source sorted ≡ some r
    → All (λ x. x.updated_at ≤ r.updated_at) rows
head_source-LeadsWith rows [] r h e = cc
head_source-LeadsWith rows (x ∷ sorted) r h e =
    All-le_trans x.updated_at r.updated_at rows (ground arith) h

head_source-All :
    (P : SourceRow → Type 0) (rows : List SourceRow) (r : SourceRow)
    → ((x y : SourceRow) → x ≡ y → P x → P y)
    → All P rows
    → head_source rows ≡ some r
    → P r
head_source-All P [] r move h e = cc
head_source-All P (x ∷ rows) r move h e = move x r (ground arith) h.0

-- The row that is taken is of the item and its media source, and no row of them is newer.
pub latest_source_metadata_newest :
    (s : Store) (item_id media_source_id : Text) (r : SourceRow)
    → latest_source_metadata s item_id media_source_id ≡ some r
    → (is_media item_id media_source_id r ≡ true)
      × All
          (λ x. x.updated_at ≤ r.updated_at)
          (select_where (is_media item_id media_source_id) s.source_metadata)
unfolding latest_source_metadata
latest_source_metadata_newest s item media r e =
    let p = is_media item media in
    let rows = select_where p s.source_metadata in
    (
      head_source-All (λ x. p x ≡ true) (order_by newer_before rows) r (λ x y q h. ap p (sym q) ∙ h)
          (All-order_by _ newer_before rows (select_where-passes p s.source_metadata)) e,
      head_source-LeadsWith rows (order_by newer_before rows) r (order_by-LeadsWith rows) e,
    )

module _ (key other value : Text) (updated_at : ℕ) where
  abbrev is_key : Text → Setting → Bool
  is_key k r = same_text r.key k

  abbrev value_of : Option Setting → Option Text
  value_of o = elim o [ none ↦ none | some r ↦ some r.value ]

  abbrev write : Setting → Setting
  write r = record r { value = value; updated_at = updated_at }

  value_of-update_other :
      (rows : List Setting)
      → same_text key other ≡ false
      → value_of (first_where (is_key other) (update_where (is_key key) write rows))
        ≡ value_of (first_where (is_key other) rows)
  value_of-update_other [] h = refl
  value_of-update_other (r ∷ rows) h = ground (
    arith,
    value_of-update_other rows h,
    same_text_iff r.key key,
    same_text_iff r.key other,
    same_text_iff key other,
  )

  value_of-update_self :
      (rows : List Setting)
      → exists_where (is_key key) rows ≡ true
      → value_of (first_where (is_key key) (update_where (is_key key) write rows)) ≡ some value
  value_of-update_self [] h = cc
  value_of-update_self (r ∷ rows) h = ground (arith, value_of-update_self rows)

  value_of-snoc :
      (rows : List Setting)
      → exists_where (is_key key) rows ≡ false
      → value_of (
          first_where
            (is_key other)
            (rows ++ record { key = key; value = value; updated_at = updated_at } ∷ []))
        ≡ (if same_text key other then some value else value_of (first_where (is_key other) rows))
  value_of-snoc [] h = ground arith
  value_of-snoc (r ∷ rows) h = ground (
    arith,
    value_of-snoc rows,
    same_text_iff r.key key,
    same_text_iff r.key other,
    same_text_iff key other,
  )

  -- A setting that was written is read back, and every other setting reads as before.
  pub runtime_setting-set_runtime_setting :
      (s : Store)
      → runtime_setting (set_runtime_setting s key value updated_at) other
        ≡ (if same_text key other then some value else runtime_setting s other)
  unfolding runtime_setting set_runtime_setting
  runtime_setting-set_runtime_setting s =
      elim (Bool-cases (exists_where (is_key key) s.runtime_settings)) [
        | inl old ↦ rw old (elim (Bool-cases (same_text key other)) [
          | inl e ↦
              let same = (same_text_iff key other).0 e in
              rw e (rw (← same) (value_of-update_self s.runtime_settings old))
          | inr e ↦ rw e (value_of-update_other s.runtime_settings e)
        ])
        | inr new ↦ rw new (value_of-snoc s.runtime_settings new)
      ]
