-- ===== src/HeadTail/Evict.antt =====
-- EvictIfNeeded: what it leaves alone.
use emby_range_cache_proxy.Base.{
  ℕ, ◌-◌, ◌≡◌, refl, sym, ap, ◌∙◌, true, false, List, [], ◌∷◌, All, arith, leb, ◌==◌, length,
  Bool-cases, inl, inr,
}
use emby_range_cache_proxy.Base.Tables.{
  select_where, order_by, sum_of, select_where-passes, All-order_by,
}
use emby_range_cache_proxy.Base.Texts.{Text, same_text, eq_of_same_text}
use emby_range_cache_proxy.Disk.{
  FilePath, block_file, range_file, temp_file, temp_range, undeletable, File, Disk, same_path,
  content_at, remove_file,
}
use emby_range_cache_proxy.Disk.Contents.{content_at-remove_file, Shrinks, remove_file-Shrinks}
use emby_range_cache_proxy.HeadTail.{
  is_one_part, is_bin, older, range_path, evict_files, evict_if_needed,
}

remove_file_other :
    (p q : FilePath) (d : Disk)
    → same_path p q ≡ false
    → content_at p (remove_file q d) ≡ content_at p d
remove_file_other p q d h = ground (arith, content_at-remove_file p q d, h)

one_part-differs :
    (n m : Text) → is_one_part n ≡ false → is_one_part m ≡ true → same_text n m ≡ false
one_part-differs n m h k = elim (Bool-cases (same_text n m)) [
  | inr e ↦ e
  | inl e ↦ absurd (differ (sym k ∙ ap is_one_part (sym (eq_of_same_text n m e)) ∙ h))
]
  where
    differ : true ≡ false → ⊥
    differ x = cc

no_bin : false ≡ true → ⊥
no_bin x = cc

module _ (k n : Text) (nested : is_one_part n ≡ false) where
  -- Neither file that goes with this entry is one of the two.
  abbrev IsElse : FilePath → Type 0
  IsElse q =
      (same_path (block_file k n) q ≡ false)
      × (same_path (block_file k n) (range_path q) ≡ false)
      × (same_path (range_file k n) q ≡ false)
      × (same_path (range_file k n) (range_path q) ≡ false)

  path-IsElse : (q : FilePath) (f : File) → f.path ≡ q → is_bin f ≡ true → IsElse q
  unfolding same_path
  path-IsElse (block_file k' n') f e h =
      let other : same_text n n' ≡ false = one_part-differs n n' nested (ground (arith, e, h)) in
      (ground (arith, other), refl, refl, ground (arith, other))
  path-IsElse (range_file k' n') f e h = absurd (no_bin (ground (arith, e, h)))
  path-IsElse (temp_file i) f e h = (refl, refl, refl, refl)
  path-IsElse (temp_range i) f e h = (refl, refl, refl, refl)
  path-IsElse (undeletable q) f e h = (refl, refl, refl, refl)

  -- Both files stand as they did.
  abbrev pub IsKept : Disk → Disk → Type 0
  IsKept d' d =
      (content_at (block_file k n) d' ≡ content_at (block_file k n) d)
      × (content_at (range_file k n) d' ≡ content_at (range_file k n) d)

  evict_files-IsKept :
      (infos : List File) (total max_bytes : ℕ) (d : Disk)
      → All (λ f. is_bin f ≡ true) infos
      → IsKept (evict_files infos total max_bytes d) d
  unfolding evict_files
  evict_files-IsKept [] total max_bytes d h = (refl, refl)
  evict_files-IsKept (f ∷ infos) total max_bytes d (h, hs) =
      elim (Bool-cases (leb total max_bytes)) [
        | inl e ↦ rw e (refl, refl)
        | inr e ↦
            let (block, block_range, range, range_range) = path-IsElse f.path f refl h in
            let d₁ = remove_file f.path d in
            let d₂ = remove_file (range_path f.path) d₁ in
            let later = evict_files-IsKept infos (total - length f.content) max_bytes d₂ hs in
            rw e (
              later.0
                  ∙ remove_file_other (block_file k n) (range_path f.path) d₁ block_range
                  ∙ remove_file_other (block_file k n) f.path d block,
              later.1
                  ∙ remove_file_other (range_file k n) (range_path f.path) d₁ range_range
                  ∙ remove_file_other (range_file k n) f.path d range,
            )
      ]

  pub evict_if_needed-IsKept : (max_bytes : ℕ) (d : Disk) → IsKept (evict_if_needed max_bytes d) d
  unfolding evict_if_needed
  evict_if_needed-IsKept max_bytes d =
      let bins = select_where is_bin d in
      let infos = order_by older bins in
      elim (Bool-cases (max_bytes == 0)) [
        | inl e ↦ rw e (refl, refl)
        | inr e ↦ rw e (
            evict_files-IsKept infos (sum_of (λ f. length f.content) infos) max_bytes d
              (All-order_by _ older bins (select_where-passes is_bin d)))
      ]

evict_files-Shrinks :
    (infos : List File) (total max_bytes : ℕ) (d : Disk)
    → Shrinks (evict_files infos total max_bytes d) d
unfolding evict_files
evict_files-Shrinks [] total max_bytes d = λ p c h. h
evict_files-Shrinks (f ∷ infos) total max_bytes d = elim (Bool-cases (leb total max_bytes)) [
  | inl e ↦ rw e (λ p c h. h)
  | inr e ↦
      let d₁ = remove_file f.path d in
      let d₂ = remove_file (range_path f.path) d₁ in
      let later = evict_files-Shrinks infos (total - length f.content) max_bytes d₂ in
      rw e (λ p c h.
        remove_file-Shrinks f.path d p c
          (remove_file-Shrinks (range_path f.path) d₁ p c (later p c h)))
]

pub evict_if_needed-Shrinks : (max_bytes : ℕ) (d : Disk) → Shrinks (evict_if_needed max_bytes d) d
unfolding evict_if_needed
evict_if_needed-Shrinks max_bytes d = elim (Bool-cases (max_bytes == 0)) [
  | inl e ↦ rw e (λ p c h. h)
  | inr e ↦ rw e (evict_files-Shrinks (order_by older (select_where is_bin d)) _ max_bytes d)
]
