-- ===== src/State/Tasks/Examples.antt =====
-- Tests of the task table, and its theorems in a store with three tasks.
use emby_range_cache_proxy.Base.{
  ℕ, ◌+◌, ◌*◌, ◌≡◌, refl, ◌≢◌, inr, true, false, none, some, List, [], ◌∷◌, arith, All,
}
use mathlib.Core.List.{Memᴰ}
use emby_range_cache_proxy.Base.Tables.{order_by, Pairs}
use emby_range_cache_proxy.Base.Texts.{codes, same_text}
use emby_range_cache_proxy.State.{PrefetchTask, TaskStatus, queued, running, done, failed, Store}
use emby_range_cache_proxy.State.Tasks.{
  is_claimable, is_open, is_before, queue_depth, enqueue_prefetch_task, prefetch_task_exists,
  claim_one, claim_each, claim_candidates, claim_prefetch_tasks, claimable_prefetch_task_count,
  task_by_id, start_running, mark_done, mark_ended, complete_prefetch_task, fail_prefetch_task,
  skip_prefetch_task, requeue_prefetch_task,
}
use emby_range_cache_proxy.State.Tasks.Rows.{DistinctIds}
use emby_range_cache_proxy.State.Tasks.Exclusion.{claim_prefetch_tasks-apart}
use emby_range_cache_proxy.State.Tasks.Order.{
  GoesFirst, IsDue, IsStarted, IsServed, claim_prefetch_tasks-in_order,
}
use emby_range_cache_proxy.State.Tasks.Ends.{held_task_is_ended}
use emby_range_cache_proxy.State.Tasks.Table.{
  IsValid, Call, enqueue, claim, complete, run, run-IsValid, run-DistinctIds,
}

program : Unit {0}
unfolding is_claimable is_open is_before queue_depth enqueue_prefetch_task prefetch_task_exists
    claim_one claim_each claim_candidates claim_prefetch_tasks claimable_prefetch_task_count
    order_by same_text complete_prefetch_task fail_prefetch_task skip_prefetch_task
    requeue_prefetch_task
program = tt

abbrev task : ℕ → TaskStatus → ℕ → PrefetchTask
task id status priority = record {
  id = id;
  item_id = codes "item";
  media_source_id = codes "media";
  cache_key = codes "k";
  start = id * 100;
  end = id * 100 + 99;
  priority = priority;
  status = status;
  attempts = 0;
  created_at = 5;
  updated_at = 5;
  last_error_class = none;
  next_attempt_at = none;
}

abbrev store : List PrefetchTask → ℕ → Store
store tasks next = record {
  playback_sessions = [];
  prefetch_tasks = tasks;
  next_task_id = next;
  middle_blocks = [];
  source_metadata = [];
  runtime_settings = [];
}

abbrev empty : Store
empty = store [] 1

abbrev three : Store
three = store (task 1 queued 0 ∷ task 2 running 0 ∷ task 3 queued 7 ∷ []) 4

-- The higher priority goes first; the running task is not stale yet.
claimed_first : (claim_prefetch_tasks three 1 10 60).1 ≡ start_running 10 (task 3 queued 7) ∷ []
unfolding program
claimed_first = refl

-- At 65 the running task is stale.
stale_too : claimable_prefetch_task_count three 65 60 ≡ 3
unfolding program
stale_too = refl

enqueued_once :
    (enqueue_prefetch_task three (codes "item") (codes "media") (codes "k") 100 199 0 9 8).1 ≡ none
unfolding program
enqueued_once = refl

retried :
    (task_by_id 2 (fail_prefetch_task three 2 (codes "OriginError") 20 60 0).prefetch_tasks
      ≡ some (mark_ended failed (codes "OriginError") 20 60 (task 2 running 0)))
    × (prefetch_task_exists three (codes "k") 200 299 ≡ true)
unfolding program
retried = (refl, refl)

three-DistinctIds : DistinctIds three.prefetch_tasks
three-DistinctIds = omega arith

claim_prefetch_tasks-in_order_example :
    (let r = claim_prefetch_tasks three 2 10 60 in
      All (IsStarted 10 60 three.prefetch_tasks r.0.prefetch_tasks) r.1
      × Pairs GoesFirst r.1
      × ((t : PrefetchTask) → Memᴰ t three.prefetch_tasks → IsDue 10 60 t → IsServed 2 r.1 t))
claim_prefetch_tasks-in_order_example =
    claim_prefetch_tasks-in_order three 2 10 60 three-DistinctIds

claim_prefetch_tasks-apart_example :
    (let first = claim_prefetch_tasks three 1 10 60 in
      let second = claim_prefetch_tasks first.0 5 12 60 in
      All (λ u. All (λ t. t.id ≢ u.id) first.1) second.1)
claim_prefetch_tasks-apart_example =
    claim_prefetch_tasks-apart three 1 5 10 12 60 three-DistinctIds (inr (omega arith))

held_task_is_ended_example :
    (u : PrefetchTask) × (task_by_id 2 (complete_prefetch_task three 2 20 0).prefetch_tasks
      ≡ some u)
    × (u.status ≡ done)
    × (u.attempts ≡ 0)
    × (u.last_error_class ≡ none)
    × ((at stale : ℕ) → is_claimable at stale u ≡ false)
held_task_is_ended_example =
    (held_task_is_ended three 2 1 20 60 (codes "OriginError") (task 2 running 0) refl refl
      (omega arith)).0

abbrev history : List Call
history =
    enqueue (codes "i") (codes "m") (codes "k") 0 99 0 5 8
    ∷ enqueue (codes "i") (codes "m") (codes "k") 0 99 0 6 8
    ∷ claim 1 7 60
    ∷ complete 1 9 1
    ∷ []

history_done :
    task_by_id 1 (run empty history).prefetch_tasks
    ≡ some (
        mark_done 9 (record (task 1 done 0) {
          item_id = codes "i";
          media_source_id = codes "m";
          start = 0;
          end = 99;
          attempts = 1;
        }))
unfolding program run
history_done = refl

empty-IsValid : IsValid empty
empty-IsValid = record { fresh = tt; apart = tt }

run-IsValid_example : IsValid (run empty history)
run-IsValid_example = run-IsValid empty history empty-IsValid

run-DistinctIds_example : DistinctIds (run empty history).prefetch_tasks
run-DistinctIds_example = run-DistinctIds empty history empty-IsValid
