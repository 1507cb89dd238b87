-- ===== src/State/Examples.antt =====
-- Tests of the tables of sessions, sources, settings and blocks, and their theorems in a small store.
use emby_range_cache_proxy.Base.{
  ℕ, ◌+◌, ◌≡◌, refl, ◌⊎◌, true, false, Option, none, some, List, [], ◌∷◌, ok, err,
}
use emby_range_cache_proxy.Base.Texts.{codes, same_text}
use emby_range_cache_proxy.State.{
  PlaybackSessionUpdate, MiddleBlock, PrefetchTask, running, SourceRow, Store,
}
use emby_range_cache_proxy.State.Blocks.Rows.{block_at}
use emby_range_cache_proxy.State.Publish.{publish_middle_block_and_complete_prefetch_task}
use emby_range_cache_proxy.State.Publish.Held.{HasHeld, Ended}
use emby_range_cache_proxy.State.Publish.Once.{publish_cases, publish_twice}
use emby_range_cache_proxy.State.Sessions.{get_session, record_playback, new_session}
use emby_range_cache_proxy.State.Sessions.History.{
  Call, play, mark_idle, queue_until, run, IsContinued, run-IsContinued,
}

abbrev playback : ℕ → ℕ → PlaybackSessionUpdate
playback end at = record {
  session_hash = codes "s";
  device_hash = codes "d";
  item_id = codes "i";
  media_source_id = codes "m";
  cache_key = codes "k";
  origin_signature = codes "o";
  media_size = 1000;
  byte_range = record { start = 0; end = end };
  observed_at = at;
}

abbrev source : ℕ → ℕ → SourceRow
source size at = record {
  item_id = codes "i";
  media_source_id = codes "m";
  cache_key = codes "k";
  origin_url = codes "u";
  origin_signature = codes "o";
  media_size = size;
  content_type = codes "t";
  etag = codes "e";
  last_modified = codes "l";
  updated_at = at;
}

abbrev held : PrefetchTask
held = record {
  id = 1;
  item_id = codes "i";
  media_source_id = codes "m";
  cache_key = codes "k";
  start = 0;
  end = 9;
  priority = 0;
  status = running;
  attempts = 2;
  created_at = 1;
  updated_at = 3;
  last_error_class = none;
  next_attempt_at = none;
}

abbrev block : ℕ → MiddleBlock
block at = record {
  cache_key = codes "k";
  start = 0;
  end = 9;
  path = codes "p";
  size = 10;
  created_at = at;
  last_access_at = at;
  expires_at = at + 60;
}

abbrev empty : Store
empty = record {
  playback_sessions = [];
  prefetch_tasks = [];
  next_task_id = 1;
  middle_blocks = [];
  source_metadata = [];
  runtime_settings = [];
}

abbrev store : Store
store = record empty {
  playback_sessions = new_session (playback 99 5) ∷ [];
  prefetch_tasks = held ∷ [];
  source_metadata = source 1 3 ∷ source 2 4 ∷ [];
}

-- A closure that publishes by counting, and one that fails.
abbrev counts : ℕ → ℕ × Option ℕ
counts n = (n + 1, none)

abbrev fails : ℕ → ℕ × Option ℕ
fails n = (n, some 7)

published_once :
    (publish_middle_block_and_complete_prefetch_task store 1 2 (block 8) 8 counts 0).2 ≡ ok true
unfolding publish_middle_block_and_complete_prefetch_task same_text
published_once = refl

publish_cases_example :
    let call = publish_middle_block_and_complete_prefetch_task store 1 2 (block 8) 8 fails 0 in
    ((HasHeld 1 2 store.prefetch_tasks → ⊥) × (call ≡ (store, 0, ok false)))
    ⊎ (((e : ℕ) × HasHeld 1 2 store.prefetch_tasks
          × ((fails 0).1 ≡ some e)
          × (call ≡ (store, (fails 0).0, err e)))
        ⊎ ((after : Store) × HasHeld 1 2 store.prefetch_tasks
            × ((fails 0).1 ≡ none)
            × (call ≡ (after, (fails 0).0, ok true))
            × (block_at (block 8).cache_key (block 8).start (block 8).end after.middle_blocks
                ≡ some (block 8))
            × Ended 1 2 8 store.prefetch_tasks after.prefetch_tasks
            × (HasHeld 1 2 after.prefetch_tasks → ⊥)
            × (record store {
              middle_blocks = after.middle_blocks;
              prefetch_tasks = after.prefetch_tasks;
            }
                ≡ after)))
publish_cases_example = publish_cases store 1 2 (block 8) 8 fails 0

publish_twice_example :
    (let r = publish_middle_block_and_complete_prefetch_task store 1 2 (block 8) 8 counts 0 in
      publish_middle_block_and_complete_prefetch_task r.0 1 2 (block 9) 9 counts 1
      ≡ (r.0, 1, ok false))
unfolding publish_middle_block_and_complete_prefetch_task same_text
publish_twice_example = publish_twice store 1 2 (block 8) (block 9) 8 9 counts counts 0 1 true refl

abbrev calls : List Call
calls = play (playback 49 9) ∷ mark_idle 100 60 ∷ queue_until (codes "s") 500 ∷ []

-- The last request ended at 49; the furthest byte that was seen stays 99.
seen_furthest :
    get_session (record_playback store (playback 49 9)) (codes "s")
    ≡ some (record (new_session (playback 99 5)) { last_range_end = 49; last_seen_at = 9 })
unfolding get_session record_playback same_text
seen_furthest = refl

run-IsContinued_example : IsContinued (codes "s") (new_session (playback 99 5)) (run store calls)
unfolding get_session same_text
run-IsContinued_example = run-IsContinued store calls (codes "s") (new_session (playback 99 5)) refl
