-- ===== src/HeadTail.antt =====
-- go/internal/headtail/cache.go. Calls of the operating system may fail: a record of faults says
-- which ones do. The mutex-free methods run one at a time here, and the goroutine that streams a
-- block runs to its end.
pub mod Choice
mod Examples
pub mod Evict
pub mod Stored
pub mod Reads
pub mod Cleanup
pub mod Slices
use emby_range_cache_proxy.Base.{
  ℕ, ◌+◌, ◌-◌, Bool, true, false, not, ◌&&◌, ◌||◌, Option, none, some, List, [], ◌∷◌, Result, ok,
  err, ltb, leb, ◌==◌, if◌then◌else◌, length, take, drop,
}
use emby_range_cache_proxy.Base.Tables.{select_where, order_by, sum_of}
use emby_range_cache_proxy.Base.Texts.{Text, codes, same_text}
use emby_range_cache_proxy.Model.{ByteRange, range_length}
use emby_range_cache_proxy.Disk.{
  FilePath, block_file, range_file, temp_file, temp_range, undeletable, File, Disk, content_at,
  remove_file, write_file, rename_file, touch_file, append_file,
}
use emby_range_cache_proxy.Disk.Chunks.{read_chunks}
use emby_range_cache_proxy.Disk.Sidecar.{print_range, read_range}

pub data CacheError : Type 0 where
  length_mismatch invalid_key invalid_block_name invalid_range invalid_chunk_bytes : CacheError
  writer_closed io_failure : CacheError

-- `short_write` is the number of bytes that a failing Write still wrote, and `meta_short_write` that of
-- a WriteFile that fails after it made the file.
pub record Faults : Type 0 where
  pub create_fails : Bool
  pub short_write : Option ℕ
  pub close_fails : Bool
  pub meta_create_fails : Bool
  pub meta_short_write : Option ℕ
  pub rename_fails : Bool
  pub meta_rename_fails : Bool
  pub touch_fails : Bool

abbrev pub no_faults : Faults
no_faults = record {
  create_fails = false;
  short_write = none;
  close_fails = false;
  meta_create_fails = false;
  meta_short_write = none;
  rename_fails = false;
  meta_rename_fails = false;
  touch_fails = false;
}

unfoldable pub is_hex : ℕ → Bool
is_hex c = (leb b'0' c && leb c b'9') || (leb b'a' c && leb c b'f')

unfoldable pub all_hex : Text → Bool
all_hex [] = true
all_hex (c ∷ s) = is_hex c && all_hex s

unfoldable pub valid_key : Text → Bool
valid_key key = (length key == 64) && all_hex key

unfoldable pub valid_block_name : Text → Bool
valid_block_name name = same_text name (codes "head") || same_text name (codes "tail")

pub record BlockWriter : Type 0 where
  pub key : Text
  pub block_name : Text
  pub byte_range : ByteRange
  pub tmp : ℕ
  pub bytes_written : ℕ
  pub closed : Bool

-- `byteRange.Length()` is `n`, also where the range ends before its start
unfoldable pub has_length : ByteRange → ℕ → Bool
has_length r n = n + r.start == r.end + 1

-- `tmp` is the name that CreateTemp picks.
unfoldable pub stage_block :
    Faults → ℕ → ℕ → Text → Text → ByteRange → Disk → Disk × Result CacheError BlockWriter
stage_block f tmp now key name r d =
    if not (valid_key key)
    then (d, err invalid_key)
    else if not (valid_block_name name)
    then (d, err invalid_block_name)
    else if ltb r.end r.start
    then (d, err invalid_range)
    else if f.create_fails
    then (d, err io_failure)
    else (
      write_file (temp_file tmp) [] now d,
      ok (record {
        key = key;
        block_name = name;
        byte_range = r;
        tmp = tmp;
        bytes_written = 0;
        closed = false;
      }),
    )

-- Write: what was written is counted, also where it fails.
unfoldable pub write_data :
    Faults → ℕ → Text → BlockWriter → Disk → Disk × BlockWriter × Option CacheError
write_data f now bytes w d = if w.closed then (d, w, some writer_closed) else elim f.short_write [
  | none ↦ (
    append_file (temp_file w.tmp) bytes now d,
    record w { bytes_written = w.bytes_written + length bytes },
    none,
  )
  | some n ↦ (
    append_file (temp_file w.tmp) (take n bytes) now d,
    record w { bytes_written = w.bytes_written + length (take n bytes) },
    some io_failure,
  )
]

abbrev pub finish_touch : Faults → ℕ → FilePath → Disk → Disk × Option CacheError
finish_touch f now path d =
    if f.touch_fails then (d, some io_failure) else (touch_file path now d, none)

-- The renames of Commit: the block first, then its range; a failed second rename removes the block.
unfoldable pub publish_files : Faults → ℕ → BlockWriter → Disk → Disk × Option CacheError
publish_files f now w d =
    let path = block_file w.key w.block_name in
    let meta = range_file w.key w.block_name in
    let renamed = rename_file (temp_file w.tmp) path d in
    if f.rename_fails
    then (remove_file (temp_range w.tmp) (remove_file (temp_file w.tmp) d), some io_failure)
    else if f.meta_rename_fails
    then (remove_file (temp_range w.tmp) (remove_file path renamed), some io_failure)
    else finish_touch f now path (rename_file (temp_range w.tmp) meta renamed)

unfoldable pub commit : Faults → ℕ → BlockWriter → Disk → Disk × BlockWriter × Option CacheError
commit f now w d =
    let closed = record w { closed = true } in
    let line = print_range w.byte_range in
    let published = publish_files f now w (write_file (temp_range w.tmp) line now d) in
    if w.closed
    then (d, w, some writer_closed)
    else if f.close_fails
    then (remove_file (temp_file w.tmp) d, closed, some io_failure)
    else if not (has_length w.byte_range w.bytes_written)
    then (remove_file (temp_file w.tmp) d, closed, some length_mismatch)
    else if f.meta_create_fails
    then (remove_file (temp_file w.tmp) d, closed, some io_failure)
    else elim f.meta_short_write [
      | none ↦ (published.0, closed, published.1)
      | some n ↦ (
        remove_file (temp_file w.tmp) (write_file (temp_range w.tmp) (take n line) now d),
        closed,
        some io_failure,
      )
    ]

unfoldable pub abort : BlockWriter → Disk → Disk × BlockWriter
abort w d = (remove_file (temp_file w.tmp) d, record w { closed = true })

abbrev pub write_and_commit : Faults → ℕ → Text → BlockWriter → Disk → Disk × Option CacheError
write_and_commit f now bytes w d =
    let (d', w', e) = write_data f now bytes w d in
    let (d'', _, e') = commit f now w' d' in
    elim e [ none ↦ (d'', e') | some cause ↦ ((abort w' d').0, some cause) ]

unfoldable pub store_block :
    Faults → ℕ → ℕ → Text → Text → ByteRange → Text → Disk → Disk × Option CacheError
store_block f tmp now key name r bytes d =
    let (d', staged) = stage_block f tmp now key name r d in
    if not (has_length r (length bytes))
    then (d, some length_mismatch)
    else elim staged [ err e ↦ (d', some e) | ok w ↦ write_and_commit f now bytes w d' ]

abbrev pub remove_entry : Text → Text → Disk → Disk
remove_entry key name d = remove_file (range_file key name) (remove_file (block_file key name) d)

-- The range and the bytes of an entry whose files agree; what IterBlock and HasBlockRange look up.
unfoldable pub read_entry : Text → Text → Disk → Option (ByteRange × Text)
read_entry key name d = elim (content_at (range_file key name) d) [
  | none ↦ none
  | some line ↦ elim (read_range line) [
    | none ↦ none
    | some stored ↦ elim (content_at (block_file key name) d) [
      | none ↦ none
      | some content ↦
          if length content == range_length stored then some (stored, content) else none
    ]
  ]
]

abbrev pub contains : ByteRange → ByteRange → Bool
contains container requested =
    leb container.start requested.start && leb requested.end container.end

-- The file is open and the channel is handed out; `open_fails` is os.Open or Seek.
unfoldable pub stream_block :
    Bool
    → ℕ
    → Text
    → Text
    → ByteRange
    → ℕ
    → ByteRange × Text
    → Disk
    → Disk × Result CacheError (Option (List Text))
stream_block open_fails chunk_bytes key name requested now (stored, content) d =
    let n = range_length requested in
    let (chunks, whole) =
      read_chunks n n chunk_bytes (drop (requested.start - stored.start) content) in
    let touched = touch_file (block_file key name) now d in
    if not (contains stored requested)
    then (d, ok none)
    else if open_fails
    then (remove_entry key name d, ok none)
    else (if whole then touched else remove_entry key name touched, ok (some chunks))

unfoldable pub iter_block :
    Bool → ℕ → Text → Text → ByteRange → ℕ → Disk → Disk × Result CacheError (Option (List Text))
iter_block open_fails chunk_bytes key name requested now d =
    if chunk_bytes == 0
    then (d, err invalid_chunk_bytes)
    else if not (valid_key key)
    then (d, err invalid_key)
    else if not (valid_block_name name)
    then (d, err invalid_block_name)
    else elim (read_entry key name d) [
      | none ↦ (remove_entry key name d, ok none)
      | some entry ↦ stream_block open_fails chunk_bytes key name requested now entry d
    ]

unfoldable pub has_block_range : Text → Text → ByteRange → Disk → Disk × Result CacheError Bool
has_block_range key name requested d =
    if not (valid_key key)
    then (d, err invalid_key)
    else if not (valid_block_name name)
    then (d, err invalid_block_name)
    else elim (read_entry key name d) [
      | none ↦ (remove_entry key name d, ok false)
      | some entry ↦ (d, ok (contains entry.0 requested))
    ]

-- BlockForRequest. A head of no bytes ends before byte 0 and holds nothing, as no request ends there.
unfoldable pub block_for_request : ByteRange → ℕ → ℕ → ℕ → Option (Text × ByteRange)
block_for_request r size head_size tail_size =
    let head_end = if ltb size head_size then size else head_size in
    let head : ByteRange = record { start = 0; end = head_end - 1 } in
    let tail : ByteRange = record { start = size - tail_size; end = size - 1 } in
    if not (head_end == 0) && contains head r
    then some (codes "head", head)
    else if not (size == 0) && contains tail r
    then some (codes "tail", tail)
    else none

-- `*` matches no separator.
unfoldable pub is_one_part : Text → Bool
is_one_part [] = true
is_one_part (c ∷ s) = not (c == b'/') && is_one_part s

-- filepath.Glob of root/*/*.bin. The blocks of the middle cache lie in root/*/mid.
abbrev pub is_bin : File → Bool
is_bin f = elim f.path [
  | block_file k n ↦ ltb 0 (length k) && (is_one_part k && is_one_part n)
  | range_file k n ↦ false
  | temp_file i ↦ false
  | temp_range i ↦ false
  | undeletable p ↦ false
]

abbrev pub older : File → File → Bool
older f g = ltb f.mtime g.mtime

abbrev pub range_path : FilePath → FilePath
range_path (block_file k n) = range_file k n
range_path (range_file k n) = range_file k n
range_path (temp_file i) = temp_file i
range_path (temp_range i) = temp_range i
range_path (undeletable p) = undeletable p

unfoldable pub evict_files : List File → ℕ → ℕ → Disk → Disk
evict_files [] total max_bytes d = d
evict_files (f ∷ infos) total max_bytes d =
    let rest =
      evict_files infos (total - length f.content) max_bytes
        (remove_file (range_path f.path) (remove_file f.path d)) in
    if leb total max_bytes then d else rest

-- EvictIfNeeded. Files of one age stay in the order of the listing, where sort.Slice gives some order.
unfoldable pub evict_if_needed : ℕ → Disk → Disk
evict_if_needed max_bytes d =
    let infos = order_by older (select_where is_bin d) in
    let total = sum_of (λ f. length f.content) infos in
    if max_bytes == 0 then d else evict_files infos total max_bytes d
