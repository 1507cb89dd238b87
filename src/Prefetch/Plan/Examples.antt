-- ===== src/Prefetch/Plan/Examples.antt =====
-- Tests of the planner, and its theorems at a file of 1,000 bytes with head and tail of 100.
use emby_range_cache_proxy.Base.{
  ℕ, ◌+◌, ◌*◌, ◌≤◌, ◌<◌, ◌≡◌, refl, ◌↔◌, true, none, some, [], ◌∷◌, arith,
}
use emby_range_cache_proxy.Config.{PrefetchConfig, MiddleCacheConfig}
use emby_range_cache_proxy.Model.{ByteRange}
use emby_range_cache_proxy.Model.Intervals.{covers}
use emby_range_cache_proxy.Prefetch.Plan.{
  align_down, align_up, min_positive, plan_middle_window, plan_blocks, round_end, plan_clipped,
  plan_middle_ranges,
}
use emby_range_cache_proxy.Prefetch.Plan.Blocks.{
  TilesMiddle, plan_middle_ranges-TilesMiddle, plan_middle_ranges-resume,
}

program : Unit {0}
unfolding align_down align_up min_positive plan_middle_window plan_blocks round_end plan_clipped
    plan_middle_ranges
program = tt

abbrev range : ℕ → ℕ → ByteRange
range start end = record { start = start; end = end }

abbrev windowed : PrefetchConfig
windowed = record {
  enabled = true;
  window_bytes = 400;
  resume_overlap_bytes = 50;
  max_session_bytes = 400;
  resume_back_blocks = 0;
  resume_forward_blocks = 0;
  concurrency = 1;
  per_origin_concurrency = 1;
  max_queue_depth = 10;
  error_backoff_seconds = 60;
}

abbrev resuming : PrefetchConfig
resuming = record windowed { resume_back_blocks = 1; resume_forward_blocks = 1 }

abbrev blocks_of_64 : MiddleCacheConfig
blocks_of_64 = record {
  enabled = true;
  max_bytes = 10000;
  ttl_seconds = 60;
  segment_bytes = 64;
  min_free_bytes = 0;
}

sized :
    plan_middle_ranges 1000 100 100 500 none windowed blocks_of_64
    ≡ range 448 511 ∷ range 512 547 ∷ []
unfolding program
sized = refl

around_the_anchor :
    plan_middle_ranges 1000 100 100 150 none resuming blocks_of_64
    ≡ range 100 127 ∷ range 128 191 ∷ range 192 255 ∷ []
unfolding program
around_the_anchor = refl

queued_on :
    plan_middle_ranges 1000 100 100 150 (some 200) resuming blocks_of_64 ≡ range 201 255 ∷ []
unfolding program
queued_on = refl

min_of_sizes : min_positive (5 ∷ 3 ∷ 4 ∷ []) ≡ 3
unfolding program
min_of_sizes = refl

plan_middle_ranges-TilesMiddle_example :
    (lo stop : ℕ) × TilesMiddle 100 900 64 lo stop
      (plan_middle_ranges 1000 100 100 500 none windowed blocks_of_64)
plan_middle_ranges-TilesMiddle_example =
    plan_middle_ranges-TilesMiddle 1000 100 100 500 none windowed blocks_of_64 (omega arith)
      (omega arith)

plan_middle_ranges-resume_example :
    (covers (plan_middle_ranges 1000 100 100 150 none resuming blocks_of_64) 200 ≡ true)
    ↔ ((100 ≤ 200) × (200 < 900) × (2 * 64 ≤ 200 + 1 * 64) × (200 < (2 + 1 + 1) * 64))
plan_middle_ranges-resume_example =
    plan_middle_ranges-resume 1000 100 100 150 200 resuming blocks_of_64 (omega arith) (omega arith)
      (omega arith) (omega arith) (omega arith)
