-- ===== src/Prefetch/Enqueue/Examples.antt =====
-- The theorem about EnqueueForSession, for a viewer at byte 149 of a file of 1000 bytes.
use emby_range_cache_proxy.Base.{◌≡◌, refl, true, none, [], ◌∷◌}
use emby_range_cache_proxy.Base.Tables.{order_by}
use emby_range_cache_proxy.Base.Texts.{codes, same_text}
use emby_range_cache_proxy.Config.{CacheConfig, PrefetchConfig, MiddleCacheConfig}
use emby_range_cache_proxy.Ranges.{configured_head_tail}
use emby_range_cache_proxy.State.{PlaybackSession, idle, MiddleBlock, Store}
use emby_range_cache_proxy.State.Tasks.{
  queue_depth, enqueue_prefetch_task, prefetch_task_exists, is_open,
}
use emby_range_cache_proxy.State.Blocks.{reusable_prefetch_ranges, range_before}
use emby_range_cache_proxy.State.Sessions.{update_session_queued_until}
use emby_range_cache_proxy.Prefetch.Gaps.{subtract_ranges}
use emby_range_cache_proxy.Prefetch.Plan.{
  plan_middle_window, round_end, plan_blocks, plan_clipped, plan_middle_ranges,
}
use emby_range_cache_proxy.Prefetch.Enqueue.{
  enqueue_one, enqueue_gaps, enqueue_ranges, finish, enqueue_plan, enqueue_for_session,
}
use emby_range_cache_proxy.Prefetch.Enqueue.Depth.{Counts, enqueue_for_session-Counts}

abbrev session : PlaybackSession
session = record {
  session_hash = codes "s";
  device_hash = codes "d";
  item_id = codes "i";
  media_source_id = codes "m";
  cache_key = codes "k";
  origin_signature = codes "o";
  media_size = 1000;
  last_range_start = 100;
  last_range_end = 149;
  max_observed_offset = 149;
  first_seen_at = 1;
  last_seen_at = 2;
  last_emby_observed_at = none;
  status = idle;
  queued_until = none;
}

-- Ten bytes of the second block are stored.
abbrev block : MiddleBlock
block = record {
  cache_key = codes "k";
  start = 170;
  end = 179;
  path = codes "p";
  size = 10;
  created_at = 1;
  last_access_at = 1;
  expires_at = 90;
}

abbrev store : Store
store = record {
  playback_sessions = session ∷ [];
  prefetch_tasks = [];
  next_task_id = 1;
  middle_blocks = block ∷ [];
  source_metadata = [];
  runtime_settings = [];
}

abbrev cache : CacheConfig
cache = record {
  max_bytes = 1000;
  head_bytes = 100;
  tail_bytes = 100;
  adaptive_tail_max_bytes = 0;
  chunk_bytes = 10;
  default_open_range_bytes = 0;
  open_head_response_bytes = none;
  open_head_response_bytes_by_extension = [];
  open_initial_response_bytes_by_extension = [];
  build_wait_seconds = 0;
}

abbrev prefetch : PrefetchConfig
prefetch = record {
  enabled = true;
  window_bytes = 100;
  resume_overlap_bytes = 0;
  max_session_bytes = 100;
  resume_back_blocks = 0;
  resume_forward_blocks = 1;
  concurrency = 1;
  per_origin_concurrency = 1;
  max_queue_depth = 2;
  error_backoff_seconds = 30;
}

abbrev middle_cache : MiddleCacheConfig
middle_cache = record {
  enabled = true;
  max_bytes = 1000;
  ttl_seconds = 60;
  segment_bytes = 50;
  min_free_bytes = 0;
}

-- The queue is full after the first block and the first gap of the second.
two_enqueued : (enqueue_for_session store session cache prefetch middle_cache 9 0).1 ≡ 2
unfolding order_by same_text configured_head_tail queue_depth enqueue_prefetch_task
    prefetch_task_exists is_open reusable_prefetch_ranges range_before update_session_queued_until
    subtract_ranges plan_middle_window round_end plan_blocks plan_clipped plan_middle_ranges
    enqueue_one enqueue_gaps enqueue_ranges finish enqueue_plan enqueue_for_session
two_enqueued = refl

enqueue_for_session-Counts_example :
    (let r = enqueue_for_session store session cache prefetch middle_cache 9 0 in
      Counts (queue_depth store) 2 r.1 r.0)
enqueue_for_session-Counts_example =
    enqueue_for_session-Counts store session cache prefetch middle_cache 9 0
