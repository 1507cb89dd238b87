-- ===== src/State/Tasks/Ends.antt =====
-- What CompletePrefetchTask, FailPrefetchTask and SkipPrefetchTask make of the task they name.
use emby_range_cache_proxy.Base.{
  ℕ, ◌+◌, ◌≤◌, ◌<◌, ◌≡◌, refl, ◌≢◌, ◌↔◌, true, false, ◌&&◌, none, some, arith, ◌==◌,
}
use emby_range_cache_proxy.Base.Texts.{Text}
use emby_range_cache_proxy.State.{
  PrefetchTask, TaskStatus, queued, running, done, failed, skipped, Store,
}
use emby_range_cache_proxy.State.Tasks.{
  task_by_id, is_claimable, is_running, is_ended, mark_done, mark_ended, complete_prefetch_task,
  fail_prefetch_task, skip_prefetch_task,
}
use emby_range_cache_proxy.State.Tasks.Rows.{task_by_id-update, task_by_id-update_self}

-- The row of a task that has ended with an error: it keeps its attempts, and from the delay on, if there
-- is one, and never without one, it can be claimed again.
abbrev pub HasEnded : TaskStatus → Text → ℕ → ℕ → PrefetchTask → PrefetchTask → Type 0
HasEnded status error_class now retry_after_seconds t u =
    (u.status ≡ status)
    × (u.attempts ≡ t.attempts)
    × (u.last_error_class ≡ some error_class)
    × (retry_after_seconds ≡ 0 → (at stale : ℕ) → is_claimable at stale u ≡ false)
    × (0 < retry_after_seconds
        → (at stale : ℕ) → (is_claimable at stale u ≡ true) ↔ (now + retry_after_seconds ≤ at))

mark_ended-HasEnded :
    (status : TaskStatus) (error_class : Text) (now retry : ℕ) (t : PrefetchTask)
    → is_ended (mark_ended status error_class now retry t) ≡ true
    → HasEnded status error_class now retry t (mark_ended status error_class now retry t)
unfolding is_claimable
mark_ended-HasEnded failed error_class now retry t h = (
  refl,
  refl,
  refl,
  λ z at stale. ground (arith, z),
  λ p at stale. (λ k. ground (arith, p, k), λ k. ground (arith, p, k)),
)
mark_ended-HasEnded skipped error_class now retry t h = (
  refl,
  refl,
  refl,
  λ z at stale. ground (arith, z),
  λ p at stale. (λ k. ground (arith, p, k), λ k. ground (arith, p, k)),
)
mark_ended-HasEnded queued error_class now retry t h = cc
mark_ended-HasEnded running error_class now retry t h = cc
mark_ended-HasEnded done error_class now retry t h = cc

-- A call that names a running task and its attempt ends it. After a success it is done, in the same
-- attempt, and is never claimed; after a failure or a skip it has that status and the error, and can be
-- claimed again from the delay on, or, without a delay, never. No row with another id changes.
pub held_task_is_ended :
    (s : Store) (i j now retry_after_seconds : ℕ) (error_class : Text) (t : PrefetchTask)
    → task_by_id i s.prefetch_tasks ≡ some t
    → t.status ≡ running
    → j ≢ i
    → let completed = (complete_prefetch_task s i now t.attempts).prefetch_tasks in
      let failing =
        (fail_prefetch_task s i error_class now retry_after_seconds t.attempts).prefetch_tasks in
      let skipping =
        (skip_prefetch_task s i error_class now retry_after_seconds t.attempts).prefetch_tasks in
      ((u : PrefetchTask) × (task_by_id i completed ≡ some u)
        × (u.status ≡ done)
        × (u.attempts ≡ t.attempts)
        × (u.last_error_class ≡ none)
        × ((at stale : ℕ) → is_claimable at stale u ≡ false))
      × ((u : PrefetchTask) × (task_by_id i failing ≡ some u)
          × HasEnded failed error_class now retry_after_seconds t u)
      × ((u : PrefetchTask) × (task_by_id i skipping ≡ some u)
          × HasEnded skipped error_class now retry_after_seconds t u)
      × (task_by_id j completed ≡ task_by_id j s.prefetch_tasks)
      × (task_by_id j failing ≡ task_by_id j s.prefetch_tasks)
      × (task_by_id j skipping ≡ task_by_id j s.prefetch_tasks)
unfolding complete_prefetch_task fail_prefetch_task skip_prefetch_task is_claimable
held_task_is_ended s i j now retry error_class t e r h =
    let q = λ (u : PrefetchTask). is_running u && u.attempts == t.attempts in
    let held : q t ≡ true = ground arith in
    let tasks = s.prefetch_tasks in
    let self = λ (f : PrefetchTask → PrefetchTask) (k : (u : PrefetchTask) → (f u).id ≡ u.id).
      task_by_id-update_self i q f tasks k e held in
    let other = λ (f : PrefetchTask → PrefetchTask) (k : (u : PrefetchTask) → (f u).id ≡ u.id).
      task_by_id-update j i q f tasks k h in
    let done_by = mark_done now in
    let failed_by = mark_ended failed error_class now retry in
    let skipped_by = mark_ended skipped error_class now retry in
    (
      (done_by t, self done_by (λ u. refl), refl, refl, refl, λ at stale. ground arith),
      (
        failed_by t,
        self failed_by (λ u. refl),
        mark_ended-HasEnded failed error_class now retry t refl,
      ),
      (
        skipped_by t,
        self skipped_by (λ u. refl),
        mark_ended-HasEnded skipped error_class now retry t refl,
      ),
      other done_by (λ u. refl),
      other failed_by (λ u. refl),
      other skipped_by (λ u. refl),
    )
