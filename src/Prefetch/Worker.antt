-- ===== src/Prefetch/Worker.antt =====
-- Worker.runTask of go/internal/prefetch/prefetch.go. The origin, the cache key and the names of
-- temporary files are given from outside; the limits on bandwidth and on calls to one origin only
-- delay a task.
pub mod Ends
mod Examples
use emby_range_cache_proxy.Base.{
  ℕ, Bool, true, false, not, Option, none, some, List, [], Result, ok, err, ltb, if◌then◌else◌,
}
use emby_range_cache_proxy.Base.Texts.{Text, codes, same_text}
use emby_range_cache_proxy.Model.{ByteRange, range_length, MediaSource, SourceMetadata}
use emby_range_cache_proxy.Config.{PrefetchConfig}
use emby_range_cache_proxy.HeadTail.{Faults}
use emby_range_cache_proxy.State.{PrefetchTask, SourceRow, Store}
use emby_range_cache_proxy.State.Tasks.{fail_prefetch_task, skip_prefetch_task}
use emby_range_cache_proxy.State.Sources.{get_source_metadata}
use emby_range_cache_proxy.Middle.{Cache, World, MiddleError, store_prefetch_block_from_reader}
use emby_range_cache_proxy.Middle.Evict.{evict_expired, evict_lru_if_needed}

-- origin.Client and cache.Key: Head of a URL, the bytes that OpenRange gives, and the key of a source.
pub record Origin : Type 0 where
  pub head : Text → Option SourceMetadata
  pub open_range : Text → ByteRange → ℕ → Option Text
  pub key : MediaSource → SourceMetadata → Text

-- What the operating system does while the task runs.
pub record Surroundings : Type 0 where
  pub faults : Faults
  pub free : Option ℕ
  pub tmp : ℕ

pub data Outcome : Type 0 where
  completed failed skipped : Outcome

abbrev pub task_range : PrefetchTask → ByteRange
task_range task = record { start = task.start; end = task.end }

abbrev pub fail : PrefetchTask → Text → ℕ → ℕ → World → World × Outcome
fail task error_class now retry w = (
  record w { store = fail_prefetch_task w.store task.id error_class now retry task.attempts },
  failed,
)

abbrev pub skip : PrefetchTask → Text → ℕ → ℕ → World → World × Outcome
skip task error_class now retry w = (
  record w { store = skip_prefetch_task w.store task.id error_class now retry task.attempts },
  skipped,
)

-- Behind StorePrefetchBlockFromReader.
unfoldable pub finish_task :
    PrefetchConfig → Cache → PrefetchTask → ℕ → World × Result MiddleError Bool → World × Outcome
finish_task p c task now (w, err e) = fail task (codes "StoreError") now p.error_backoff_seconds w
finish_task p c task now (w, ok false) = (w, skipped)
finish_task p c task now (w, ok true) =
    ((evict_lru_if_needed c (evict_expired now w).0).0, completed)

abbrev pub source_of : PrefetchTask → Text → MediaSource
source_of task origin_url = record {
  item_id = task.item_id;
  media_source_id = task.media_source_id;
  path = origin_url;
  protocol = codes "Http";
  size = none;
  size_trusted = false;
  container = [];
  bitrate = none;
}

-- From the origin's answer on.
unfoldable pub fetch_task :
    Origin
    → Surroundings
    → PrefetchConfig
    → Cache
    → PrefetchTask
    → ℕ
    → Text
    → World
    → World × Outcome
fetch_task origin sur p c task now origin_url w = elim (origin.head origin_url) [
  | none ↦ fail task (codes "OriginError") now p.error_backoff_seconds w
  | some meta ↦
      if not (same_text (origin.key (source_of task origin_url) meta) task.cache_key)
      then fail task (codes "PrefetchSourceMismatch") now 0 w
      else elim (origin.open_range meta.url (task_range task) meta.size) [
        | none ↦ fail task (codes "OriginError") now p.error_backoff_seconds w
        | some body ↦ finish_task p c task now (
            store_prefetch_block_from_reader c sur.faults sur.free sur.tmp task.id task.attempts
              task.cache_key (task_range task) body now w)
      ]
]

unfoldable pub run_task :
    Origin → Surroundings → PrefetchConfig → Cache → PrefetchTask → ℕ → World → World × Outcome
run_task origin sur p c task now w =
    if ltb c.max_bytes (range_length (task_range task))
    then skip task (codes "RangeTooLarge") now 0 w
    else elim (get_source_metadata w.store task.item_id task.media_source_id task.cache_key) [
      | none ↦ skip task (codes "SourceUnavailable") now p.error_backoff_seconds w
      | some source ↦ fetch_task origin sur p c task now source.origin_url w
    ]
