-- ===== src/Disk/Files.antt =====
-- What is found on a disk after each operation.
use emby_range_cache_proxy.Base.{
  ℕ, ◌≡◌, refl, ap, ◌∙◌, ◌↔◌, true, false, none, some, [], ◌∷◌, arith, if◌then◌else◌, Bool-cases,
  inl, inr,
}
use emby_range_cache_proxy.Base.Texts.{Text, same_text_iff, same_text_refl}
use emby_range_cache_proxy.Disk.{
  FilePath, block_file, range_file, temp_file, temp_range, undeletable, same_path, File, Disk,
  file_at, erase_file, write_file, rename_file, touch_file,
}

pub same_path_refl : (p : FilePath) → same_path p p ≡ true
unfolding same_path
same_path_refl (block_file k n) = ground (arith, same_text_refl k, same_text_refl n)
same_path_refl (range_file k n) = ground (arith, same_text_refl k, same_text_refl n)
same_path_refl (temp_file i) = ground arith
same_path_refl (temp_range i) = ground arith
same_path_refl (undeletable p) = same_path_refl p

pub eq_of_same_path : (p q : FilePath) → same_path p q ≡ true → p ≡ q
unfolding same_path
eq_of_same_path (block_file k n) (block_file k' n') h =
    ground (arith, same_text_iff k k', same_text_iff n n')
eq_of_same_path (range_file k n) (range_file k' n') h =
    ground (arith, same_text_iff k k', same_text_iff n n')
eq_of_same_path (temp_file i) (temp_file j) h = ground arith
eq_of_same_path (temp_range i) (temp_range j) h = ground arith
eq_of_same_path (undeletable p) (undeletable q) h = ap undeletable (eq_of_same_path p q h)
eq_of_same_path _ _ h = cc

pub same_path_iff : (p q : FilePath) → (same_path p q ≡ true) ↔ (p ≡ q)
same_path_iff p q = (eq_of_same_path p q, λ e. rw (← e) (same_path_refl p))

pub file_at-erase_file :
    (p q : FilePath) (d : Disk)
    → file_at p (erase_file q d) ≡ (if same_path p q then none else file_at p d)
unfolding file_at erase_file
file_at-erase_file p q [] = ground arith
file_at-erase_file p q (f ∷ d) = ground (
  arith,
  file_at-erase_file p q d,
  same_path_iff p q,
  same_path_iff p f.path,
  same_path_iff q f.path,
)

pub file_at-write_file :
    (p q : FilePath) (content : Text) (now : ℕ) (d : Disk)
    → file_at p (write_file q content now d) ≡ (
        if same_path p q
        then some (record { path = q; content = content; mtime = now })
        else file_at p d)
unfolding write_file file_at
file_at-write_file p q content now d = ground (arith, file_at-erase_file p q d)

file_at-cons :
    (p : FilePath) (f : File) (d : Disk)
    → file_at p (f ∷ d) ≡ (if same_path p f.path then some f else file_at p d)
unfolding file_at
file_at-cons p f d = refl

pub file_at-rename_file :
    (p a b : FilePath) (d : Disk) (f : File)
    → file_at a d ≡ some f
    → same_path a b ≡ false
    → file_at p (rename_file a b d) ≡ (
        if same_path p b
        then some (record f { path = b })
        else if same_path p a
        then none
        else file_at p d)
unfolding rename_file
file_at-rename_file p a b d f h k =
    rw (h, rename_file)
      (file_at-cons p (record f { path = b }) (erase_file b (erase_file a d))
        ∙ ground (arith, file_at-erase_file p b (erase_file a d), file_at-erase_file p a d))

pub file_at-touch_file :
    (p q : FilePath) (now : ℕ) (d : Disk) (f : File)
    → file_at p d ≡ some f
    → file_at p (touch_file q now d)
      ≡ some (if same_path q f.path then record f { mtime = now } else f)
unfolding touch_file file_at
file_at-touch_file p q now [] f h = cc
file_at-touch_file p q now (g ∷ d) f h = elim (Bool-cases (same_path q g.path)) [
  | inl e ↦ rw e (ground (arith, file_at-touch_file p q now d f))
  | inr e ↦ rw e (ground (arith, file_at-touch_file p q now d f))
]
