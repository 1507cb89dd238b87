-- ===== src/Prefetch/Worker/Examples.antt =====
-- A test of a prefetch that succeeds, and the theorem about how prefetches end.
use emby_range_cache_proxy.Base.{◌≡◌, refl, true, none, some, [], ◌∷◌, length}
use emby_range_cache_proxy.Base.Tables.{order_by}
use emby_range_cache_proxy.Base.Texts.{Text, codes, same_text, format_int}
use emby_range_cache_proxy.Config.{PrefetchConfig}
use emby_range_cache_proxy.Disk.{
  same_path, file_at, content_at, erase_file, remove_file, write_file, rename_file,
}
use emby_range_cache_proxy.Disk.Sidecar.{print_range}
use emby_range_cache_proxy.HeadTail.{no_faults, is_hex, all_hex, valid_key}
use emby_range_cache_proxy.State.{PrefetchTask, running, SourceRow}
use emby_range_cache_proxy.State.Tasks.{mark_done}
use emby_range_cache_proxy.State.Blocks.{
  upsert_middle_block, middle_cache_bytes, least_recent_middle_blocks, used_before,
  expired_middle_blocks, expires_before,
}
use emby_range_cache_proxy.State.Publish.{publish_middle_block_and_complete_prefetch_task}
use emby_range_cache_proxy.State.Sources.{get_source_metadata}
use emby_range_cache_proxy.Middle.{
  Cache, World, relative_stem, relative_path, paths, new_record, validate, ensure_free, stage_files,
  publish_renames, store_prefetch_block_from_reader,
}
use emby_range_cache_proxy.Middle.Evict.{
  remove_blocks, evict_expired, evict_rounds, evict_lru_if_needed,
}
use emby_range_cache_proxy.Prefetch.Worker.{
  Origin, Surroundings, completed, finish_task, fetch_task, run_task,
}
use emby_range_cache_proxy.Prefetch.Worker.Ends.{IsReleased, run_task-IsReleased}

program : Unit {0}
unfolding order_by same_text format_int same_path file_at content_at erase_file remove_file
    write_file rename_file print_range is_hex all_hex valid_key upsert_middle_block
    middle_cache_bytes least_recent_middle_blocks used_before expired_middle_blocks expires_before
    publish_middle_block_and_complete_prefetch_task get_source_metadata relative_stem relative_path
    paths new_record validate ensure_free stage_files publish_renames
    store_prefetch_block_from_reader remove_blocks evict_expired evict_rounds evict_lru_if_needed
    finish_task fetch_task run_task
program = tt

abbrev key : Text
key = codes "0123456789abcdef0123456789abcdef0123456789abcdef0123456789abcdef"

abbrev task : PrefetchTask
task = record {
  id = 1;
  item_id = codes "i";
  media_source_id = codes "m";
  cache_key = key;
  start = 12;
  end = 14;
  priority = 0;
  status = running;
  attempts = 2;
  created_at = 1;
  updated_at = 3;
  last_error_class = none;
  next_attempt_at = none;
}

abbrev source : SourceRow
source = record {
  item_id = codes "i";
  media_source_id = codes "m";
  cache_key = key;
  origin_url = codes "u";
  origin_signature = codes "o";
  media_size = 100;
  content_type = [];
  etag = [];
  last_modified = [];
  updated_at = 2;
}

abbrev world : World
world = record {
  store = record {
    playback_sessions = [];
    prefetch_tasks = task ∷ [];
    next_task_id = 2;
    middle_blocks = [];
    source_metadata = source ∷ [];
    runtime_settings = [];
  };
  disk = [];
}

-- An origin whose file is three bytes long from 12 on, and one that does not answer.
abbrev origin : Origin
origin = record {
  head = λ url.
      some (record { url = url; size = 100; content_type = []; etag = []; last_modified = [] });
  open_range = λ url r size. some (3 ∷ 4 ∷ 5 ∷ []);
  key = λ source meta. key;
}

abbrev silent : Origin
silent = record origin { head = λ url. none }

abbrev cache : Cache
cache = record { max_bytes = 10; ttl_seconds = 60; min_free_bytes = 0 }

abbrev prefetch : PrefetchConfig
prefetch = record {
  enabled = true;
  window_bytes = 10;
  resume_overlap_bytes = 0;
  max_session_bytes = 10;
  resume_back_blocks = 0;
  resume_forward_blocks = 0;
  concurrency = 1;
  per_origin_concurrency = 1;
  max_queue_depth = 8;
  error_backoff_seconds = 30;
}

abbrev surroundings : Surroundings
surroundings = record { faults = no_faults; free = none; tmp = 7 }

fetched :
    (let r = run_task origin surroundings prefetch cache task 9 world in
      (r.1 ≡ completed)
      × (r.0.store.prefetch_tasks ≡ mark_done 9 task ∷ [])
      × (length r.0.disk ≡ 2))
unfolding program
fetched = (refl, refl, refl)

run_task-IsReleased_example :
    IsReleased task (run_task silent surroundings prefetch cache task 9 world).0
run_task-IsReleased_example = run_task-IsReleased silent surroundings prefetch cache task 9 world
