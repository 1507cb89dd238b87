-- ===== src/Prefetch/Enqueue.antt =====
-- EnqueueForSession of go/internal/prefetch/prefetch.go. The calls of the database succeed.
pub mod Depth
mod Examples
use emby_range_cache_proxy.Base.{
  ℕ, ◌+◌, min, Bool, true, false, ◌&&◌, Option, none, some, List, [], ◌∷◌, ltb, leb, if◌then◌else◌,
}
use emby_range_cache_proxy.Base.Texts.{Text}
use emby_range_cache_proxy.Model.{ByteRange}
use emby_range_cache_proxy.Config.{CacheConfig, PrefetchConfig, MiddleCacheConfig}
use emby_range_cache_proxy.Ranges.{configured_head_tail}
use emby_range_cache_proxy.State.{PlaybackSession, PrefetchTask, Store}
use emby_range_cache_proxy.State.Tasks.{enqueue_prefetch_task, prefetch_task_exists}
use emby_range_cache_proxy.State.Blocks.{reusable_prefetch_ranges}
use emby_range_cache_proxy.State.Sessions.{update_session_queued_until}
use emby_range_cache_proxy.Prefetch.Plan.{plan_middle_ranges}
use emby_range_cache_proxy.Prefetch.Gaps.{subtract_ranges}

-- `inserted` and `highestEnd`; `stopped` is the return from inside the loops, where the queue is full.
pub record Progress : Type 0 where
  pub store : Store
  pub inserted : ℕ
  pub highest_end : Option ℕ
  pub stopped : Bool

-- What the calls for one session have in common.
pub record Job : Type 0 where
  pub session : PlaybackSession
  pub priority : ℕ
  pub now : ℕ
  pub max_queue_depth : ℕ

abbrev pub enqueue_gap : Job → ByteRange → Store → Store × Option PrefetchTask
enqueue_gap job gap s =
    enqueue_prefetch_task s job.session.item_id job.session.media_source_id job.session.cache_key
      gap.start gap.end job.priority job.now job.max_queue_depth

-- A task that is refused may be there already; if it is not, the loops end.
abbrev pub note_answer : Job → ByteRange → Progress → Store × Option PrefetchTask → Progress
note_answer job gap p (s, some t) = record p {
  store = s;
  inserted = p.inserted + 1;
  highest_end = some gap.end;
}
note_answer job gap p (s, none) =
    if prefetch_task_exists s job.session.cache_key gap.start gap.end
    then record p { store = s; highest_end = some gap.end }
    else record p { store = s; stopped = true }

unfoldable pub enqueue_one : Job → ByteRange → Progress → Progress
enqueue_one job gap p = note_answer job gap p (enqueue_gap job gap p.store)

unfoldable pub enqueue_gaps : Job → List ByteRange → Progress → Progress
enqueue_gaps job [] p = p
enqueue_gaps job (gap ∷ gaps) p =
    if p.stopped then p else enqueue_gaps job gaps (enqueue_one job gap p)

abbrev pub clip_to : ℕ → ByteRange → ByteRange
clip_to target_end r = record r { end = min r.end target_end }

abbrev pub enqueue_missing : Job → ByteRange → List ByteRange → Progress → Progress
enqueue_missing job r [] p = record p { highest_end = some r.end }
enqueue_missing job r (gap ∷ gaps) p = enqueue_gaps job (gap ∷ gaps) p

unfoldable pub enqueue_ranges : Job → ℕ → List ByteRange → Progress → Progress
enqueue_ranges job target_end [] p = p
enqueue_ranges job target_end (r ∷ rs) p =
    let clipped = clip_to target_end r in
    let missing =
      subtract_ranges clipped (reusable_prefetch_ranges p.store job.session.cache_key clipped) in
    if p.stopped
    then p
    else enqueue_ranges job target_end rs (enqueue_missing job clipped missing p)

abbrev pub last_end : ByteRange → List ByteRange → ℕ
last_end r [] = r.end
last_end r (x ∷ rs) = last_end x rs

-- Where the queue was left off, if that lies in the plan.
abbrev pub resume_from : Option ℕ → ℕ → ℕ → Option ℕ
resume_from none first_start target_end = none
resume_from (some queued) first_start target_end =
    if leb first_start queued && ltb queued target_end then some queued else none

abbrev pub replan : List ByteRange → List ByteRange → Option ℕ → List ByteRange
replan plan fresh none = plan
replan plan fresh (some queued) = fresh

unfoldable pub finish : Job → Progress → Store × ℕ
finish job p = elim p.highest_end [
  | none ↦ (p.store, p.inserted)
  | some end ↦ (update_session_queued_until p.store job.session.session_hash end, p.inserted)
]

-- The plan is made without regard to what is queued; if the queue was left off inside it, it is made
-- again from there, and cut at the same end.
unfoldable pub enqueue_plan : Job → (Option ℕ → List ByteRange) → List ByteRange → Store → Store × ℕ
enqueue_plan job plan [] s = (s, 0)
enqueue_plan job plan (r ∷ rs) s =
    let target_end = last_end r rs in
    let queued = resume_from job.session.queued_until r.start target_end in
    finish job (
      enqueue_ranges job target_end (replan (r ∷ rs) (plan queued) queued)
        (record { store = s; inserted = 0; highest_end = none; stopped = false }))

unfoldable pub enqueue_for_session :
    Store → PlaybackSession → CacheConfig → PrefetchConfig → MiddleCacheConfig → ℕ → ℕ → Store × ℕ
enqueue_for_session s session cache prefetch middle_cache now priority =
    let (head_size, tail_size) =
      configured_head_tail session.media_size cache.head_bytes cache.tail_bytes in
    let plan = λ (queued : Option ℕ).
      plan_middle_ranges session.media_size head_size tail_size session.last_range_end queued
        prefetch middle_cache in
    let job : Job = record {
      session = session;
      priority = priority;
      now = now;
      max_queue_depth = prefetch.max_queue_depth;
    } in
    enqueue_plan job plan (plan none) s
