-- ===== src/State/Tasks/Fencing.antt =====
-- The calls that end a task name the attempt they speak for: what a worker of an earlier attempt can do.
use emby_range_cache_proxy.Base.{ℕ, ◌≤◌, ◌≡◌, ap, false, some, List}
use emby_range_cache_proxy.Base.Tables.{update_where_none}
use emby_range_cache_proxy.Base.Texts.{Text}
use emby_range_cache_proxy.State.{PrefetchTask, Store}
use emby_range_cache_proxy.State.Tasks.{
  task_by_id, is_held, update_held, complete_prefetch_task, fail_prefetch_task, skip_prefetch_task,
  requeue_prefetch_task,
}
use emby_range_cache_proxy.State.Tasks.Rows.{DistinctIds}
use emby_range_cache_proxy.State.Tasks.Exclusion.{not_held}

-- The row of another attempt is left alone, and with it the whole store.
pub update_held_none :
    (s : Store) (i attempts : ℕ) (f : PrefetchTask → PrefetchTask) (u : PrefetchTask)
    → DistinctIds s.prefetch_tasks
    → task_by_id i s.prefetch_tasks ≡ some u
    → is_held i attempts u ≡ false
    → update_held i attempts f s ≡ s
update_held_none s i attempts f u d e h =
    ap (λ ts. record s { prefetch_tasks = ts })
      (update_where_none (is_held i attempts) f s.prefetch_tasks
        (not_held i attempts s.prefetch_tasks u d e h))

-- What a worker does with a task of this id, in this attempt, changes nothing.
abbrev pub IsFenced : Store → ℕ → ℕ → Text → ℕ → ℕ → Type 0
IsFenced s at retry_after_seconds error_class i attempts =
    (complete_prefetch_task s i at attempts ≡ s)
    × (fail_prefetch_task s i error_class at retry_after_seconds attempts ≡ s)
    × (skip_prefetch_task s i error_class at retry_after_seconds attempts ≡ s)
    × (requeue_prefetch_task s i at error_class attempts ≡ s)

-- The row of this id is there, in this attempt or a later one.
abbrev Reached : ℕ → ℕ → List PrefetchTask → Type 0
Reached i n tasks = (t : PrefetchTask) × (task_by_id i tasks ≡ some t) × (n ≤ t.attempts)
