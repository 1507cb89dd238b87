-- ===== src/Disk.antt =====
-- The files of the cache directory, as the program uses os and io: a list of paths with their bytes
-- and times. A path is kept as the parts that filepath.Join puts together.
pub mod Chunks
pub mod Contents
pub mod Files
pub mod Sidecar
use emby_range_cache_proxy.Base.{
  ℕ, Bool, true, false, ◌&&◌, Option, none, some, List, [], ◌∷◌, ◌++◌, ◌==◌, if◌then◌else◌,
}
use emby_range_cache_proxy.Base.Tables.{delete_where, first_where}
use emby_range_cache_proxy.Base.Texts.{Text, same_text}

-- `block_file key name` is root/key/name.bin and `range_file key name` is root/key/name.range; the
-- name of a temporary file is a number that CreateTemp picks. `undeletable p` is no file: it is the mark
-- that os.Remove fails on `p`, which the program neither sets nor removes.
pub data FilePath : Type 0 where
  block_file : Text → Text → FilePath
  range_file : Text → Text → FilePath
  temp_file : ℕ → FilePath
  temp_range : ℕ → FilePath
  undeletable : FilePath → FilePath

unfoldable pub same_path : FilePath → FilePath → Bool
same_path (block_file k n) (block_file k' n') = same_text k k' && same_text n n'
same_path (range_file k n) (range_file k' n') = same_text k k' && same_text n n'
same_path (temp_file i) (temp_file j) = i == j
same_path (temp_range i) (temp_range j) = i == j
same_path (undeletable p) (undeletable q) = same_path p q
same_path _ _ = false

pub record File : Type 0 where
  pub path : FilePath
  pub content : Text
  pub mtime : ℕ

abbrev pub Disk : Type 0
Disk = List File

-- os.Stat and os.ReadFile
unfoldable pub file_at : FilePath → Disk → Option File
file_at p d = first_where (λ (f : File). same_path p f.path) d

-- The bytes of a file: os.ReadFile, os.Open, and os.Stat where only the size is used.
unfoldable pub content_at : FilePath → Disk → Option Text
content_at p [] = none
content_at p (f ∷ d) = if same_path p f.path then some f.content else content_at p d

-- The path is free again, as where a file is replaced.
unfoldable pub erase_file : FilePath → Disk → Disk
erase_file p d = delete_where (λ (f : File). same_path p f.path) d

abbrev pub is_undeletable : FilePath → Disk → Bool
is_undeletable p d = elim (content_at (undeletable p) d) [ none ↦ false | some mark ↦ true ]

-- os.Remove, whose error the program ignores: where it fails the file stays.
unfoldable pub remove_file : FilePath → Disk → Disk
remove_file p d = if is_undeletable p d then d else erase_file p d

-- os.WriteFile: what was there is replaced.
unfoldable pub write_file : FilePath → Text → ℕ → Disk → Disk
write_file p content now d = record { path = p; content = content; mtime = now } ∷ erase_file p d

-- os.Rename: the target is replaced, and the times stay.
unfoldable pub rename_file : FilePath → FilePath → Disk → Disk
rename_file p q d = elim (file_at p d) [
  | none ↦ d
  | some f ↦ record f { path = q } ∷ erase_file q (erase_file p d)
]

-- os.Chtimes
unfoldable pub touch_file : FilePath → ℕ → Disk → Disk
touch_file p now [] = []
touch_file p now (f ∷ d) =
    (if same_path p f.path then record f { mtime = now } else f) ∷ touch_file p now d

-- os.File.Write on a file that is open for writing at its end
unfoldable pub append_file : FilePath → Text → ℕ → Disk → Disk
append_file p bytes now [] = []
append_file p bytes now (f ∷ d) =
    (if same_path p f.path then record f { content = f.content ++ bytes; mtime = now } else f)
    ∷ append_file p bytes now d
