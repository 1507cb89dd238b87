-- ===== src/Disk/Contents.antt =====
-- The bytes that are found on a disk after each operation.
use emby_range_cache_proxy.Base.{
  ℕ, ◌≡◌, refl, sym, ◌∙◌, false, none, some, [], ◌∷◌, ◌++◌, arith, if◌then◌else◌, Bool-cases, inl,
  inr,
}
use emby_range_cache_proxy.Base.Texts.{Text}
use emby_range_cache_proxy.Disk.{
  FilePath, same_path, File, Disk, file_at, is_undeletable, erase_file, remove_file, write_file,
  rename_file, touch_file, content_at, append_file,
}
use emby_range_cache_proxy.Disk.Files.{same_path_iff}

pub content_at-erase_file :
    (p q : FilePath) (d : Disk)
    → content_at p (erase_file q d) ≡ (if same_path p q then none else content_at p d)
unfolding content_at erase_file
content_at-erase_file p q [] = ground arith
content_at-erase_file p q (f ∷ d) = ground (
  arith,
  content_at-erase_file p q d,
  same_path_iff p q,
  same_path_iff p f.path,
  same_path_iff q f.path,
)

pub content_at-write_file :
    (p q : FilePath) (content : Text) (now : ℕ) (d : Disk)
    → content_at p (write_file q content now d)
      ≡ (if same_path p q then some content else content_at p d)
unfolding write_file content_at
content_at-write_file p q content now d = ground (arith, content_at-erase_file p q d)

content_at-file_at :
    (p : FilePath) (d : Disk) (c : Text)
    → content_at p d ≡ some c
    → (f : File) × (file_at p d ≡ some f) × (f.content ≡ c)
unfolding content_at file_at
content_at-file_at p [] c h = cc
content_at-file_at p (f ∷ d) c h = elim (Bool-cases (same_path p f.path)) [
  | inl e ↦ rw e (f, refl, ground (arith, h, e))
  | inr e ↦ rw e (content_at-file_at p d c (ground (arith, h, e)))
]

-- The bytes move with the file's name.
pub content_at-rename_file :
    (p a b : FilePath) (d : Disk) (c : Text)
    → content_at a d ≡ some c
    → content_at p (rename_file a b d)
      ≡ (if same_path p b then some c else if same_path p a then none else content_at p d)
unfolding rename_file content_at
content_at-rename_file p a b d c h =
    let (f, e, k) = content_at-file_at a d c h in
    rw (e, rename_file)
      (ground (arith, content_at-erase_file p b (erase_file a d), content_at-erase_file p a d, k))

pub content_at-touch_file :
    (p q : FilePath) (now : ℕ) (d : Disk) → content_at p (touch_file q now d) ≡ content_at p d
unfolding content_at touch_file
content_at-touch_file p q now [] = refl
content_at-touch_file p q now (f ∷ d) = elim (Bool-cases (same_path q f.path)) [
  | inl e ↦ rw e (ground (arith, content_at-touch_file p q now d))
  | inr e ↦ rw e (ground (arith, content_at-touch_file p q now d))
]

pub content_at-append_file :
    (p : FilePath) (bytes : Text) (now : ℕ) (d : Disk) (c : Text)
    → content_at p d ≡ some c
    → content_at p (append_file p bytes now d) ≡ some (c ++ bytes)
unfolding content_at append_file
content_at-append_file p bytes now [] c h = cc
content_at-append_file p bytes now (f ∷ d) c h = elim (Bool-cases (same_path p f.path)) [
  | inl e ↦ rw e (ground (arith, h, e))
  | inr e ↦ rw e (ground (arith, content_at-append_file p bytes now d c, h, e))
]

pub content_at-append_file_other :
    (p q : FilePath) (bytes : Text) (now : ℕ) (d : Disk)
    → same_path p q ≡ false
    → content_at p (append_file q bytes now d) ≡ content_at p d
unfolding content_at append_file
content_at-append_file_other p q bytes now [] h = refl
content_at-append_file_other p q bytes now (f ∷ d) h = elim (Bool-cases (same_path q f.path)) [
  | inl e ↦
      rw e (ground (arith, content_at-append_file_other p q bytes now d h, same_path_iff q f.path))
  | inr e ↦ rw e (ground (arith, content_at-append_file_other p q bytes now d h))
]

pub content_at-remove_file :
    (p q : FilePath) (d : Disk)
    → content_at p (remove_file q d) ≡ (
        if is_undeletable q d
        then content_at p d
        else if same_path p q
        then none
        else content_at p d)
unfolding remove_file
content_at-remove_file p q d = ground (arith, content_at-erase_file p q d)

-- Nothing was added to the disk and nothing changed on it.
abbrev pub Shrinks : Disk → Disk → Type 0
Shrinks d' d = (p : FilePath) (c : Text) → content_at p d' ≡ some c → content_at p d ≡ some c

pub remove_file-Shrinks : (q : FilePath) (d : Disk) → Shrinks (remove_file q d) d
remove_file-Shrinks q d p c h = ground (arith, content_at-remove_file p q d, h)

pub touch_file-Shrinks : (q : FilePath) (now : ℕ) (d : Disk) → Shrinks (touch_file q now d) d
touch_file-Shrinks q now d p c h = sym (content_at-touch_file p q now d) ∙ h
