-- ===== src/HeadTail/Examples.antt =====
-- Tests of the head and tail cache, and its theorems for one stored block.
use emby_range_cache_proxy.Base.{
  ℕ, ◌-◌, ◌≡◌, refl, true, false, none, some, [], ◌∷◌, arith, take, drop,
}
use emby_range_cache_proxy.Base.Texts.{Text, codes, same_text, format_int}
use emby_range_cache_proxy.Model.{ByteRange, range_length}
use emby_range_cache_proxy.Disk.{
  block_file, range_file, temp_file, same_path, file_at, content_at, erase_file, remove_file,
  write_file, rename_file, touch_file, append_file,
}
use emby_range_cache_proxy.Disk.Sidecar.{print_range}
use emby_range_cache_proxy.HeadTail.{
  io_failure, Faults, no_faults, is_hex, all_hex, valid_key, valid_block_name, stage_block,
  write_data, publish_files, commit, abort, has_length, store_block, iter_block, block_for_request,
}
use emby_range_cache_proxy.HeadTail.Choice.{IsBlockFor, block_for_request-IsBlockFor}
use emby_range_cache_proxy.HeadTail.Stored.{Holds, store_block-Holds, store_block-no_faults}
use emby_range_cache_proxy.HeadTail.Reads.{Answers, iter_block-store_block}
use emby_range_cache_proxy.HeadTail.Cleanup.{store_block-other, store_block-no_temp}

program : Unit {0}
unfolding is_hex all_hex file_at valid_key valid_block_name stage_block write_data publish_files
    commit abort has_length store_block same_text same_path content_at erase_file remove_file
    write_file rename_file touch_file append_file format_int print_range
program = tt

abbrev range : ℕ → ℕ → ByteRange
range start end = record { start = start; end = end }

abbrev key : Text
key = codes "0123456789abcdef0123456789abcdef0123456789abcdef0123456789abcdef"

abbrev head : Text
head = codes "head"

abbrev bytes : Text
bytes = 1 ∷ 2 ∷ 3 ∷ 4 ∷ 5 ∷ []

-- The rename of the block fails.
abbrev failing : Faults
failing = record no_faults { rename_fails = true }

stored_files : store_block no_faults 7 100 key head (range 10 14) bytes [] ≡ (
  record { path = range_file key head; content = codes "10-14\n"; mtime = 100 }
      ∷ record { path = block_file key head; content = bytes; mtime = 100 }
      ∷ [],
  none,
)
unfolding program
stored_files = refl

failed_store : store_block failing 7 100 key head (range 10 14) bytes [] ≡ ([], some io_failure)
unfolding program
failed_store = refl

store_block-Holds_example :
    Holds key head
      (range 10 14)
      bytes
      (store_block no_faults 7 100 key head (range 10 14) bytes []).0
unfolding program
store_block-Holds_example = store_block-Holds no_faults 7 100 key head (range 10 14) bytes [] refl

store_block-no_faults_example :
    (store_block no_faults 7 100 key head (range 10 14) bytes []).1 ≡ none
unfolding program
store_block-no_faults_example =
    store_block-no_faults 7 100 key head (range 10 14) bytes [] refl refl (omega arith) refl

iter_block-store_block_example :
    Answers 2
      (take (range_length (range 11 13)) (drop (11 - 10) bytes))
      (iter_block false 2 key head
        (range 11 13)
        200
        (store_block no_faults 7 100 key head (range 10 14) bytes []).0).1
unfolding program
iter_block-store_block_example =
    iter_block-store_block no_faults 7 100 200 key head (range 10 14) (range 11 13) bytes [] 2
      (omega arith) refl (omega arith) (omega arith) (omega arith) (omega arith)

store_block-other_example :
    content_at
      (block_file key (codes "tail"))
      (store_block failing 7 100 key head (range 10 14) bytes []).0
    ≡ content_at (block_file key (codes "tail")) []
unfolding program
store_block-other_example =
    store_block-other failing 7 100 key head (range 10 14) bytes [] (block_file key (codes "tail"))
      (refl, refl, refl, refl)

store_block-no_temp_example :
    content_at (temp_file 7) (store_block failing 7 100 key head (range 10 14) bytes []).0 ≡ none
unfolding program
store_block-no_temp_example =
    store_block-no_temp failing 7 100 key head (range 10 14) bytes [] refl refl

block_for_request-IsBlockFor_example :
    IsBlockFor (range 95 99) 100 10 10 (block_for_request (range 95 99) 100 10 10)
block_for_request-IsBlockFor_example =
    block_for_request-IsBlockFor (range 95 99) 100 10 10
      (record { ordered = omega arith; within = omega arith })
