-- ===== src/Middle/Examples.antt =====
-- Tests of the middle cache, and its theorems for two stored blocks.
use emby_range_cache_proxy.Base.{
  ℕ, ◌+◌, ◌≤◌, ◌<◌, ◌≡◌, refl, Bool, true, none, some, [], ◌∷◌, arith, All, ok, length,
}
use emby_range_cache_proxy.Base.Tables.{order_by}
use emby_range_cache_proxy.Base.Texts.{
  Text, codes, same_text, format_int, text_ltb, trim_space, contains_byte, parse_unsigned,
}
use emby_range_cache_proxy.Model.{ByteRange}
use emby_range_cache_proxy.Disk.{
  same_path, file_at, content_at, erase_file, remove_file, write_file, rename_file,
}
use emby_range_cache_proxy.Disk.Chunks.{read_chunks}
use emby_range_cache_proxy.Disk.Sidecar.{print_range, read_sidecar}
use emby_range_cache_proxy.Disk.Contents.{Shrinks}
use emby_range_cache_proxy.HeadTail.{
  no_faults, is_hex, all_hex, valid_key, has_length, evict_if_needed,
}
use emby_range_cache_proxy.State.{MiddleBlock}
use emby_range_cache_proxy.State.Blocks.{
  upsert_middle_block, find_middle_blocks, block_before, middle_cache_bytes,
  least_recent_middle_blocks, used_before, delete_middle_block_record, touch_middle_block,
}
use emby_range_cache_proxy.Middle.{
  Cache, World, relative_stem, relative_path, trim_bin, paths, record_paths, valid_record,
  valid_files, new_record, validate, ensure_free, remove_block, stage_files, publish_renames,
  write_block, store_block,
}
use emby_range_cache_proxy.Middle.Reads.{covering_spans, stream_span, stream_spans, iter_block}
use emby_range_cache_proxy.Middle.Beside.{evict_if_needed-beside}
use emby_range_cache_proxy.Middle.Reads.Tiles.{Covered, covering_spans-Covered}
use emby_range_cache_proxy.Middle.Reads.Whole.{Delivered, iter_block-Delivered}
use emby_range_cache_proxy.Middle.Evict.{
  evict_expired, evict_rounds, evict_lru_if_needed, evict_lru_if_needed-fits, evict_expired-IsFresh,
}

program : Unit {0}
unfolding is_hex all_hex valid_key has_length order_by same_text format_int text_ltb same_path
    file_at content_at erase_file remove_file write_file rename_file print_range read_sidecar
    upsert_middle_block find_middle_blocks block_before middle_cache_bytes
    least_recent_middle_blocks used_before delete_middle_block_record touch_middle_block
    relative_stem relative_path trim_bin paths record_paths valid_record valid_files new_record
    validate ensure_free remove_block stage_files publish_renames write_block store_block
    covering_spans stream_span stream_spans iter_block evict_rounds evict_lru_if_needed trim_space
    contains_byte parse_unsigned read_chunks
program = tt

abbrev range : ℕ → ℕ → ByteRange
range start end = record { start = start; end = end }

abbrev key : Text
key = codes "0123456789abcdef0123456789abcdef0123456789abcdef0123456789abcdef"

abbrev cache : Cache
cache = record { max_bytes = 4; ttl_seconds = 60; min_free_bytes = 0 }

abbrev empty : World
empty = record {
  store = record {
    playback_sessions = [];
    prefetch_tasks = [];
    next_task_id = 1;
    middle_blocks = [];
    source_metadata = [];
    runtime_settings = [];
  };
  disk = [];
}

-- Two blocks that overlap at byte 14.
abbrev two : World
two =
    (store_block cache no_faults none 8 key (range 14 16) (5 ∷ 6 ∷ 7 ∷ []) 110
      (store_block cache no_faults none 7 key (range 12 14) (3 ∷ 4 ∷ 5 ∷ []) 100 empty).0).0

abbrev all_open : MiddleBlock → Bool
all_open row = true

all_open-true : (row : MiddleBlock) → all_open row ≡ true
all_open-true row = refl

streamed :
    (iter_block cache all_open key (range 13 15) 2 120 two).1
    ≡ ok (some ((4 ∷ 5 ∷ []) ∷ (6 ∷ []) ∷ []))
unfolding program
streamed = refl

missing : (iter_block cache all_open key (range 11 15) 2 120 two).1 ≡ ok none
unfolding program
missing = refl

-- The older block goes.
evicted :
    (let r = evict_lru_if_needed cache two in
      (middle_cache_bytes r.0.store ≡ 3) × (r.1 ≡ 1) × (length r.0.disk ≡ 2))
unfolding program
evicted = (refl, refl, refl)

iter_block-Delivered_example : Delivered key 2 120 13 16 two ((4 ∷ 5 ∷ []) ∷ (6 ∷ []) ∷ [])
unfolding program
iter_block-Delivered_example =
    iter_block-Delivered cache all_open key (range 13 15) 2 120 two ((4 ∷ 5 ∷ []) ∷ (6 ∷ []) ∷ [])
      all_open-true streamed

covering_spans-Covered_example :
    Covered 13
      (15 + 1)
      120
      two
      (covering_spans (find_middle_blocks two.store key (range 13 15)) 13 (range 13 15) 120 two)
covering_spans-Covered_example =
    covering_spans-Covered (find_middle_blocks two.store key (range 13 15)) 13 (range 13 15) 120 two
      (omega arith)

evict_lru_if_needed-fits_example : middle_cache_bytes (evict_lru_if_needed cache two).0.store ≤ 4
evict_lru_if_needed-fits_example = evict_lru_if_needed-fits cache two

evict_expired-IsFresh_example :
    All (λ b. 165 < b.expires_at) (evict_expired 165 two).0.store.middle_blocks
evict_expired-IsFresh_example = evict_expired-IsFresh 165 two

evict_if_needed-beside_example :
    let d' = evict_if_needed 1 two.disk in
    (content_at (paths key (range 12 14)).0 d' ≡ content_at (paths key (range 12 14)).0 two.disk)
    × (content_at (paths key (range 12 14)).1 d' ≡ content_at (paths key (range 12 14)).1 two.disk)
    × Shrinks d' two.disk
evict_if_needed-beside_example = evict_if_needed-beside key (range 12 14) 1 two.disk
