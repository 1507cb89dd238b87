-- ===== src/HeadTail/Stored.antt =====
-- What StoreBlock puts on the disk, and what IterBlock reads back from it.
use emby_range_cache_proxy.Base.{
  ℕ, ◌+◌, ◌≤◌, ◌≡◌, refl, ◌∙◌, true, false, none, some, [], arith, length,
}
use emby_range_cache_proxy.Base.Texts.{Text}
use emby_range_cache_proxy.Model.{ByteRange, range_length}
use emby_range_cache_proxy.Disk.{
  block_file, range_file, temp_file, temp_range, same_path, Disk, content_at, write_file,
  rename_file, touch_file, append_file,
}
use emby_range_cache_proxy.Disk.Files.{same_path_refl}
use emby_range_cache_proxy.Disk.Contents.{
  content_at-write_file, content_at-rename_file, content_at-touch_file, content_at-append_file,
}
use emby_range_cache_proxy.Disk.Sidecar.{print_range}
use emby_range_cache_proxy.HeadTail.{
  Faults, no_faults, valid_key, valid_block_name, BlockWriter, has_length, stage_block, write_data,
  publish_files, commit, write_and_commit, store_block,
}

-- The entry's block has these bytes, and the file beside it names this range.
abbrev pub Holds : Text → Text → ByteRange → Text → Disk → Type 0
Holds key name r bytes d =
    (content_at (block_file key name) d ≡ some bytes)
    × (content_at (range_file key name) d ≡ some (print_range r))

renamed-Holds :
    (key name bytes : Text) (r : ByteRange) (tmp now : ℕ) (d : Disk)
    → content_at (temp_file tmp) d ≡ some bytes
    → content_at (temp_range tmp) d ≡ some (print_range r)
    → Holds key name r bytes (
        touch_file (block_file key name) now (
          rename_file
            (temp_range tmp)
            (range_file key name)
            (rename_file (temp_file tmp) (block_file key name) d)))
unfolding same_path
renamed-Holds key name bytes r tmp now d h k =
    let path = block_file key name in
    let meta = range_file key name in
    let a = temp_file tmp in
    let b = temp_range tmp in
    let d1 = rename_file a path d in
    let d2 = rename_file b meta d1 in
    let path_refl = same_path_refl path in
    let meta_refl = same_path_refl meta in
    let b1 : content_at b d1 ≡ some (print_range r) =
      content_at-rename_file b a path d bytes h ∙ k in
    let p1 = content_at-rename_file path a path d bytes h in
    let p2 = content_at-rename_file path b meta d1 (print_range r) b1 in
    let m2 = content_at-rename_file meta b meta d1 (print_range r) b1 in
    (
      content_at-touch_file path path now d2 ∙ p2 ∙ p1 ∙ (rw path_refl refl),
      content_at-touch_file meta path now d2 ∙ m2 ∙ (rw meta_refl refl),
    )

publish_files-Holds :
    (f : Faults) (now : ℕ) (w : BlockWriter) (d : Disk) (bytes : Text)
    → content_at (temp_file w.tmp) d ≡ some bytes
    → content_at (temp_range w.tmp) d ≡ some (print_range w.byte_range)
    → (publish_files f now w d).1 ≡ none
    → Holds w.key w.block_name w.byte_range bytes (publish_files f now w d).0
unfolding publish_files
publish_files-Holds f now w d bytes h k e =
    ground (arith, renamed-Holds w.key w.block_name bytes w.byte_range w.tmp now d h k)

pub commit-Holds :
    (f : Faults) (now : ℕ) (w : BlockWriter) (d : Disk) (bytes : Text)
    → content_at (temp_file w.tmp) d ≡ some bytes
    → (commit f now w d).2 ≡ none
    → Holds w.key w.block_name w.byte_range bytes (commit f now w d).0
unfolding commit same_path
commit-Holds f now w d bytes h e =
    let line = print_range w.byte_range in
    let d1 = write_file (temp_range w.tmp) line now d in
    let a1 : content_at (temp_file w.tmp) d1 ≡ some bytes =
      content_at-write_file (temp_file w.tmp) (temp_range w.tmp) line now d ∙ h in
    let b1 : content_at (temp_range w.tmp) d1 ≡ some line =
      content_at-write_file (temp_range w.tmp) (temp_range w.tmp) line now d
      ∙ (rw (same_path_refl (temp_range w.tmp)) refl) in
    ground (arith, publish_files-Holds f now w d1 bytes a1 b1)

commit-has_length :
    (f : Faults) (now : ℕ) (w : BlockWriter) (d : Disk)
    → (commit f now w d).2 ≡ none
    → has_length w.byte_range w.bytes_written ≡ true
unfolding commit
commit-has_length f now w d e = ground arith

write_and_commit-Holds :
    (f : Faults) (now : ℕ) (w : BlockWriter) (d : Disk) (bytes : Text)
    → content_at (temp_file w.tmp) d ≡ some []
    → (write_and_commit f now bytes w d).1 ≡ none
    → Holds w.key w.block_name w.byte_range bytes (write_and_commit f now bytes w d).0
unfolding write_data
write_and_commit-Holds f now w d bytes h e = ground (
  arith,
  content_at-append_file (temp_file w.tmp) bytes now d [] h,
  commit-Holds f now (record w { bytes_written = w.bytes_written + length bytes })
      (append_file (temp_file w.tmp) bytes now d) bytes,
)

-- A StoreBlock that succeeds, whatever the calls of the operating system did, leaves the bytes it was
-- given as the entry's block and their range beside it.
pub store_block-Holds :
    (f : Faults) (tmp now : ℕ) (key name : Text) (r : ByteRange) (bytes : Text) (d : Disk)
    → (store_block f tmp now key name r bytes d).1 ≡ none
    → Holds key name r bytes (store_block f tmp now key name r bytes d).0
unfolding store_block stage_block
store_block-Holds f tmp now key name r bytes d e =
    let w : BlockWriter = record {
      key = key;
      block_name = name;
      byte_range = r;
      tmp = tmp;
      bytes_written = 0;
      closed = false;
    } in
    let d1 = write_file (temp_file tmp) [] now d in
    let a1 : content_at (temp_file tmp) d1 ≡ some [] =
      content_at-write_file (temp_file tmp) (temp_file tmp) [] now d
      ∙ (rw (same_path_refl (temp_file tmp)) refl) in
    ground (arith, write_and_commit-Holds f now w d1 bytes a1)

-- It succeeds only for a key of 64 hexadecimal digits, a block name that is known, a range that does
-- not end before its start, and as many bytes as the range has.
pub store_block-valid :
    (f : Faults) (tmp now : ℕ) (key name : Text) (r : ByteRange) (bytes : Text) (d : Disk)
    → (store_block f tmp now key name r bytes d).1 ≡ none
    → (valid_key key ≡ true)
      × (valid_block_name name ≡ true)
      × (r.start ≤ r.end)
      × (length bytes ≡ range_length r)
unfolding store_block stage_block has_length
store_block-valid f tmp now key name r bytes d e = ground arith

-- StoreBlock succeeds for a valid key and block name, a range that does not end before its start,
-- and as many bytes as the range has, where no call of the operating system fails.
pub store_block-no_faults :
    (tmp now : ℕ) (key name : Text) (r : ByteRange) (bytes : Text) (d : Disk)
    → valid_key key ≡ true
    → valid_block_name name ≡ true
    → r.start ≤ r.end
    → length bytes ≡ range_length r
    → (store_block no_faults tmp now key name r bytes d).1 ≡ none
unfolding store_block stage_block write_data commit publish_files has_length
store_block-no_faults tmp now key name r bytes d h k l m = ground arith
