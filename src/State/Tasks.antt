-- ===== src/State/Tasks.antt =====
-- The table prefetch_tasks: EnqueuePrefetchTask, ClaimPrefetchTasks and what ends a task. The
-- database's calls succeed; what two processes do between one another's calls is a sequence of calls.
pub mod Rows
mod Claim
pub mod Exclusion
pub mod Fencing
pub mod Ends
pub mod Order
pub mod Table
pub mod Queue
mod Examples
use emby_range_cache_proxy.Base.{
  ℕ, zero, suc, ◌+◌, Bool, true, false, ◌&&◌, ◌||◌, Option, none, some, List, [], ◌∷◌, ◌++◌, ltb,
  leb, ◌==◌, if◌then◌else◌, take,
}
use emby_range_cache_proxy.Base.Tables.{
  select_where, update_where, count_where, exists_where, first_where, order_by,
}
use emby_range_cache_proxy.Base.Texts.{Text, same_text}
use emby_range_cache_proxy.Model.{ByteRange}
use emby_range_cache_proxy.State.{
  PrefetchTask, TaskStatus, queued, running, done, failed, skipped, Store,
}

abbrev pub is_queued : PrefetchTask → Bool
is_queued t = elim t.status [ queued ↦ true | _ ↦ false ]

abbrev pub is_running : PrefetchTask → Bool
is_running t = elim t.status [ running ↦ true | _ ↦ false ]

-- `status IN ('failed', 'skipped')`
abbrev pub is_ended : PrefetchTask → Bool
is_ended t = elim t.status [ failed ↦ true | skipped ↦ true | _ ↦ false ]

-- `next_attempt_at IS NOT NULL`
abbrev pub has_retry : PrefetchTask → Bool
has_retry t = elim t.next_attempt_at [ none ↦ false | some at ↦ true ]

-- `next_attempt_at IS NOT NULL AND next_attempt_at <= ?`
abbrev pub is_retry_due : ℕ → PrefetchTask → Bool
is_retry_due now t = elim t.next_attempt_at [ none ↦ false | some at ↦ leb at now ]

-- `updated_at <= now - stale` is written as a sum.
unfoldable pub is_claimable : ℕ → ℕ → PrefetchTask → Bool
is_claimable now running_stale_seconds t =
    is_queued t
    || (is_ended t && is_retry_due now t)
    || (ltb 0 running_stale_seconds
        && is_running t
        && leb (t.updated_at + running_stale_seconds) now)

-- A task that will still be run: it is queued or running, or it has a retry ahead.
unfoldable pub is_open : PrefetchTask → Bool
is_open t = is_queued t || is_running t || (is_ended t && has_retry t)

abbrev pub has_range : Text → ℕ → ℕ → PrefetchTask → Bool
has_range cache_key start end t =
    same_text t.cache_key cache_key && (t.start == start && t.end == end)

-- `ORDER BY priority DESC, created_at ASC, id ASC`
unfoldable pub is_before : PrefetchTask → PrefetchTask → Bool
is_before t u =
    ltb u.priority t.priority
    || (t.priority == u.priority
        && (ltb t.created_at u.created_at || (t.created_at == u.created_at && ltb t.id u.id)))

unfoldable pub queue_depth : Store → ℕ
queue_depth s = count_where is_queued s.prefetch_tasks

-- COUNT, INSERT OR IGNORE under UNIQUE(cache_key, start, end), and the inserted row.
unfoldable pub enqueue_prefetch_task :
    Store → Text → Text → Text → ℕ → ℕ → ℕ → ℕ → ℕ → Store × Option PrefetchTask
unfolding queue_depth
enqueue_prefetch_task s item_id media_source_id cache_key start end priority now max_queue_depth =
    let task : PrefetchTask = record {
      id = s.next_task_id;
      item_id = item_id;
      media_source_id = media_source_id;
      cache_key = cache_key;
      start = start;
      end = end;
      priority = priority;
      status = queued;
      attempts = 0;
      created_at = now;
      updated_at = now;
      last_error_class = none;
      next_attempt_at = none;
    } in
    if leb max_queue_depth (queue_depth s)
    then (s, none)
    else if exists_where (has_range cache_key start end) s.prefetch_tasks
    then (s, none)
    else (
      record s {
        prefetch_tasks = s.prefetch_tasks ++ task ∷ [];
        next_task_id = s.next_task_id + 1;
      },
      some task,
    )

unfoldable pub prefetch_task_exists : Store → Text → ℕ → ℕ → Bool
unfolding is_open
prefetch_task_exists s cache_key start end =
    exists_where (λ t. has_range cache_key start end t && is_open t) s.prefetch_tasks

abbrev pub task_by_id : ℕ → List PrefetchTask → Option PrefetchTask
task_by_id id tasks = first_where (λ t. t.id == id) tasks

abbrev pub start_running : ℕ → PrefetchTask → PrefetchTask
start_running now t = record t {
  status = running;
  attempts = t.attempts + 1;
  updated_at = now;
  next_attempt_at = none;
}

-- The UPDATE of one candidate, which tests again, and the row as it then stands.
unfoldable pub claim_one :
    ℕ → ℕ → PrefetchTask → List PrefetchTask → List PrefetchTask × List PrefetchTask
claim_one now stale candidate tasks =
    let still = λ (t : PrefetchTask). t.id == candidate.id && is_claimable now stale t in
    let claimed = update_where still (start_running now) tasks in
    if exists_where still tasks
    then (claimed, elim (task_by_id candidate.id claimed) [ none ↦ [] | some t ↦ t ∷ [] ])
    else (tasks, [])

unfoldable pub claim_each :
    ℕ → ℕ → List PrefetchTask → List PrefetchTask → List PrefetchTask × List PrefetchTask
unfolding claim_one
claim_each now stale [] tasks = (tasks, [])
claim_each now stale (candidate ∷ candidates) tasks =
    let (first, claimed) = claim_one now stale candidate tasks in
    let (last, rest) = claim_each now stale candidates first in (last, claimed ++ rest)

unfoldable pub claim_candidates : ℕ → ℕ → ℕ → List PrefetchTask → List PrefetchTask
unfolding is_claimable is_before
claim_candidates limit now stale tasks =
    take limit (order_by is_before (select_where (is_claimable now stale) tasks))

unfoldable pub claim_prefetch_tasks : Store → ℕ → ℕ → ℕ → Store × List PrefetchTask
claim_prefetch_tasks s limit now running_stale_seconds =
    let (tasks, claimed) =
      claim_each now running_stale_seconds
        (claim_candidates limit now running_stale_seconds s.prefetch_tasks) s.prefetch_tasks in
    if limit == 0 then (s, []) else (record s { prefetch_tasks = tasks }, claimed)

unfoldable pub claimable_prefetch_task_count : Store → ℕ → ℕ → ℕ
unfolding is_claimable
claimable_prefetch_task_count s now stale = count_where (is_claimable now stale) s.prefetch_tasks

-- `WHERE id = ? AND status = 'running' AND attempts = ?`
abbrev pub is_held : ℕ → ℕ → PrefetchTask → Bool
is_held task_id expected_attempts t =
    t.id == task_id && (is_running t && t.attempts == expected_attempts)

abbrev pub update_held : ℕ → ℕ → (PrefetchTask → PrefetchTask) → Store → Store
update_held task_id expected_attempts f s = record s {
  prefetch_tasks = update_where (is_held task_id expected_attempts) f s.prefetch_tasks;
}

abbrev pub mark_done : ℕ → PrefetchTask → PrefetchTask
mark_done now t = record t {
  status = done;
  updated_at = now;
  last_error_class = none;
  next_attempt_at = none;
}

unfoldable pub complete_prefetch_task : Store → ℕ → ℕ → ℕ → Store
complete_prefetch_task s task_id now expected_attempts =
    update_held task_id expected_attempts (mark_done now) s

-- A retry is set only if the delay is positive.
abbrev pub retry_at : ℕ → ℕ → Option ℕ
retry_at now retry_after_seconds =
    if ltb 0 retry_after_seconds then some (now + retry_after_seconds) else none

abbrev pub mark_ended : TaskStatus → Text → ℕ → ℕ → PrefetchTask → PrefetchTask
mark_ended status error_class now retry_after_seconds t = record t {
  status = status;
  updated_at = now;
  last_error_class = some error_class;
  next_attempt_at = retry_at now retry_after_seconds;
}

unfoldable pub fail_prefetch_task : Store → ℕ → Text → ℕ → ℕ → ℕ → Store
fail_prefetch_task s task_id error_class now retry_after_seconds expected_attempts =
    update_held task_id expected_attempts (mark_ended failed error_class now retry_after_seconds) s

unfoldable pub skip_prefetch_task : Store → ℕ → Text → ℕ → ℕ → ℕ → Store
skip_prefetch_task s task_id error_class now retry_after_seconds expected_attempts =
    update_held task_id expected_attempts (mark_ended skipped error_class now retry_after_seconds) s

-- nullableString
abbrev pub nullable_text : Text → Option Text
nullable_text [] = none
nullable_text (c ∷ s) = some (c ∷ s)

unfoldable pub requeue_prefetch_task : Store → ℕ → ℕ → Text → ℕ → Store
requeue_prefetch_task s task_id now error_class expected_attempts =
    update_held task_id expected_attempts
      (λ t. record t {
        status = queued;
        updated_at = now;
        last_error_class = nullable_text error_class;
        next_attempt_at = none;
      })
      s
