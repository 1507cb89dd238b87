-- ===== src/Middle.antt =====
-- go/internal/middle/middle.go: the blocks between head and tail, with a row in the table
-- middle_blocks and two files each. The calls of the database succeed; the calls of the operating
-- system fail as a record of faults says. The goroutine that streams spans runs to its end.
pub mod Reads
pub mod Evict
pub mod Beside
mod Examples
use emby_range_cache_proxy.Base.{
  ℕ, zero, suc, ◌+◌, ◌-◌, Bool, true, false, not, ◌&&◌, ◌||◌, Option, none, some, List, [], ◌∷◌,
  ◌++◌, Result, ok, err, ltb, leb, ◌==◌, if◌then◌else◌, length, take, drop,
}
use emby_range_cache_proxy.Base.Texts.{Text, codes, same_text, format_int}
use emby_range_cache_proxy.Model.{ByteRange, range_length}
use emby_range_cache_proxy.Config.{MiddleCacheConfig}
use emby_range_cache_proxy.Disk.{
  FilePath, block_file, range_file, temp_file, temp_range, Disk, content_at, remove_file,
  write_file, rename_file,
}
use emby_range_cache_proxy.Disk.Chunks.{read_chunks}
use emby_range_cache_proxy.Disk.Sidecar.{print_range, read_sidecar}
use emby_range_cache_proxy.HeadTail.{
  CacheError, length_mismatch, invalid_key, invalid_range, invalid_chunk_bytes, io_failure, Faults,
  valid_key, has_length,
}
use emby_range_cache_proxy.State.{MiddleBlock, Store}
use emby_range_cache_proxy.State.Blocks.{
  upsert_middle_block, find_middle_blocks, touch_middle_block, expired_middle_blocks,
  least_recent_middle_blocks, delete_middle_block_record, middle_cache_bytes,
}
use emby_range_cache_proxy.State.Publish.{publish_middle_block_and_complete_prefetch_task}

pub record Cache : Type 0 where
  pub max_bytes : ℕ
  pub ttl_seconds : ℕ
  pub min_free_bytes : ℕ

-- The database and the directory.
pub record World : Type 0 where
  pub store : Store
  pub disk : Disk

pub record Span : Type 0 where
  pub row : MiddleBlock
  pub byte_range : ByteRange

pub data MiddleError : Type 0 where
  cache_error : CacheError → MiddleError
  disk_full : MiddleError

-- relativePath, without its `.bin`
unfoldable pub relative_stem : Text → ByteRange → Text
relative_stem key r = key ++ codes "/mid/" ++ format_int r.start ++ b'-' ∷ format_int r.end

unfoldable pub relative_path : Text → ByteRange → Text
relative_path key r = relative_stem key r ++ codes ".bin"

-- strings.TrimSuffix(path, ".bin")
unfoldable pub trim_bin : Text → Text
trim_bin [] = []
trim_bin (c ∷ s) =
    let rest = trim_bin s in if same_text (c ∷ s) (codes ".bin") then [] else c ∷ rest

-- paths and recordPaths: root/stem.bin and root/stem.range. A row's path ends in `.bin`, as
-- validRecord has checked wherever a path is made of a row.
unfoldable pub paths : Text → ByteRange → FilePath × FilePath
paths key r = (block_file [] (relative_stem key r), range_file [] (relative_stem key r))

unfoldable pub record_paths : MiddleBlock → FilePath × FilePath
record_paths row = (block_file [] (trim_bin row.path), range_file [] (trim_bin row.path))

unfoldable pub valid_record : MiddleBlock → Bool
valid_record row =
    (valid_key row.cache_key && leb row.start row.end)
    && (row.size == row.end - row.start + 1
        && same_text row.path
            (relative_path row.cache_key (record { start = row.start; end = row.end })))

abbrev pub has_size : ℕ → Option Text → Bool
has_size n none = false
has_size n (some content) = length content == n

abbrev pub has_range : MiddleBlock → Option ByteRange → Bool
has_range row none = false
has_range row (some r) = r.start == row.start && r.end == row.end

abbrev pub sidecar_range : Option Text → Option ByteRange
sidecar_range none = none
sidecar_range (some content) = read_sidecar content

unfoldable pub valid_files : MiddleBlock → FilePath → FilePath → Disk → Bool
valid_files row path sidecar d =
    has_size row.size (content_at path d) && has_range row (sidecar_range (content_at sidecar d))

-- The row of a block that is written now.
unfoldable pub new_record : Cache → Text → ByteRange → ℕ → ℕ → MiddleBlock
new_record c key r now size = record {
  cache_key = key;
  start = r.start;
  end = r.end;
  path = relative_path key r;
  size = size;
  created_at = now;
  last_access_at = now;
  expires_at = now + c.ttl_seconds;
}

unfoldable pub validate : Text → ByteRange → Option MiddleError
validate key r =
    if not (valid_key key)
    then some (cache_error invalid_key)
    else if ltb r.end r.start
    then some (cache_error invalid_range)
    else none

-- `free` is what diskfree.FreeBytes says, none where it does not know.
unfoldable pub ensure_free : Cache → Option ℕ → ℕ → Option MiddleError
ensure_free c free write_bytes = if c.min_free_bytes == 0 then none else elim free [
  | none ↦ none
  | some n ↦ if ltb n (c.min_free_bytes + write_bytes) then some disk_full else none
]

unfoldable pub remove_block : MiddleBlock → World → World
remove_block row w =
    let d =
      if valid_record row
      then remove_file (record_paths row).1 (remove_file (record_paths row).0 w.disk)
      else w.disk in
    record { store = delete_middle_block_record w.store row.cache_key row.start row.end; disk = d }

-- CreateTemp, the write of `bytes`, and the sidecar's temporary file, or the disk after a failure.
unfoldable pub stage_files :
    Faults → ℕ → ℕ → ByteRange → Text → Bool → Disk → Disk × Option MiddleError
stage_files f tmp now r bytes long_enough d =
    let written : Text = elim f.short_write [ none ↦ bytes | some n ↦ take n bytes ] in
    let failed : Bool = elim f.short_write [ none ↦ f.close_fails | some n ↦ true ] in
    let d1 = write_file (temp_file tmp) written now d in
    if f.create_fails
    then (d, some (cache_error io_failure))
    else if failed
    then (remove_file (temp_file tmp) d1, some (cache_error io_failure))
    else if not long_enough
    then (remove_file (temp_file tmp) d1, some (cache_error length_mismatch))
    else if f.meta_create_fails
    then (remove_file (temp_file tmp) d1, some (cache_error io_failure))
    else elim f.meta_short_write [
      | none ↦ (write_file (temp_range tmp) (print_range r) now d1, none)
      | some n ↦ (
        remove_file (temp_file tmp) (write_file (temp_range tmp) (take n (print_range r)) now d1),
        some (cache_error io_failure),
      )
    ]

-- The renames, which clean up but for the temporary files; the closure `publish` of a prefetch.
unfoldable pub publish_renames : Faults → ℕ → FilePath → FilePath → Disk → Disk × Option MiddleError
publish_renames f tmp path sidecar d =
    let renamed = rename_file (temp_file tmp) path d in
    if f.rename_fails
    then (d, some (cache_error io_failure))
    else if f.meta_rename_fails
    then (remove_file path renamed, some (cache_error io_failure))
    else (rename_file (temp_range tmp) sidecar renamed, none)

abbrev pub remove_temps : ℕ → Disk → Disk
remove_temps tmp d = remove_file (temp_range tmp) (remove_file (temp_file tmp) d)

-- What StoreBlock does once its arguments are checked.
unfoldable pub write_block :
    Cache → Faults → ℕ → Text → ByteRange → Text → ℕ → World → World × Option MiddleError
write_block c f tmp key r bytes now w =
    let (path, sidecar) = paths key r in
    let (d1, staged) = stage_files f tmp now r bytes true w.disk in
    let (d2, published) = publish_renames f tmp path sidecar d1 in
    let row = new_record c key r now (range_length r) in
    elim staged [
      | some e ↦ (record w { disk = d1 }, some e)
      | none ↦ elim published [
        | some e ↦ (record w { disk = remove_temps tmp d2 }, some e)
        | none ↦ (record { store = upsert_middle_block w.store row; disk = d2 }, none)
      ]
    ]

abbrev pub or_else : Option MiddleError → Option MiddleError → Option MiddleError
or_else none e = e
or_else (some e) _ = some e

unfoldable pub store_block :
    Cache → Faults → Option ℕ → ℕ → Text → ByteRange → Text → ℕ → World → World × Option MiddleError
store_block c f free tmp key r bytes now w =
    if not (has_length r (length bytes))
    then (w, some (cache_error length_mismatch))
    else elim (or_else (validate key r) (ensure_free c free (range_length r))) [
      | some e ↦ (w, some e)
      | none ↦ write_block c f tmp key r bytes now w
    ]

-- StorePrefetchBlockFromReader. `bytes` is what the reader gives, of which one byte more than the
-- range has is read at most; `short_write` is where the copy fails.
unfoldable pub store_prefetch_block_from_reader :
    Cache
    → Faults
    → Option ℕ
    → ℕ
    → ℕ
    → ℕ
    → Text
    → ByteRange
    → Text
    → ℕ
    → World
    → World × Result MiddleError Bool
store_prefetch_block_from_reader c f free tmp task_id expected_attempts key r bytes now w =
    let (path, sidecar) = paths key r in
    let copied = take (range_length r + 1) bytes in
    let (d1, staged) = stage_files f tmp now r copied (length copied == range_length r) w.disk in
    let (store, d2, answer) =
      publish_middle_block_and_complete_prefetch_task w.store task_id expected_attempts
        (new_record c key r now (range_length r)) now (publish_renames f tmp path sidecar) d1 in
    elim (or_else (validate key r) (ensure_free c free (range_length r))) [
      | some e ↦ (w, err e)
      | none ↦ elim staged [
        | some e ↦ (record w { disk = d1 }, err e)
        | none ↦ elim answer [
          | ok true ↦ (record { store = store; disk = d2 }, ok true)
          | ok false ↦ (record { store = store; disk = remove_temps tmp d2 }, ok false)
          | err e ↦ (record { store = store; disk = remove_temps tmp d2 }, err e)
        ]
      ]
    ]
