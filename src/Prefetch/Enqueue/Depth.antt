-- ===== src/Prefetch/Enqueue/Depth.antt =====
-- How many tasks EnqueueForSession adds.
use emby_range_cache_proxy.Base.{
  ℕ, ◌+◌, ◌≤◌, max, ◌≡◌, refl, sym, subst, inl, inr, Option, none, some, List, [], ◌∷◌, arith,
  Bool-cases, Option-cases,
}
use emby_range_cache_proxy.Base.Texts.{Text}
use emby_range_cache_proxy.Model.{ByteRange}
use emby_range_cache_proxy.State.Blocks.{reusable_prefetch_ranges}
use emby_range_cache_proxy.Prefetch.Gaps.{subtract_ranges}
use emby_range_cache_proxy.Config.{CacheConfig, PrefetchConfig, MiddleCacheConfig}
use emby_range_cache_proxy.State.{PlaybackSession, PrefetchTask, Store}
use emby_range_cache_proxy.State.Tasks.{queue_depth, prefetch_task_exists}
use emby_range_cache_proxy.State.Tasks.Queue.{enqueue_prefetch_task-cases}
use emby_range_cache_proxy.State.Sessions.{update_session_queued_until}
use emby_range_cache_proxy.Prefetch.Enqueue.{
  Progress, Job, enqueue_gap, note_answer, enqueue_one, enqueue_gaps, enqueue_missing,
  enqueue_ranges, clip_to, last_end, finish, enqueue_plan, enqueue_for_session,
}

-- The queue is longer than `depth` by what was inserted, and no longer than the limit allows.
pub record Counts (depth limit inserted : ℕ) (s : Store) : Type 0 where
  pub grown : queue_depth s ≡ depth + inserted
  pub bounded : queue_depth s ≤ max depth limit

abbrev CountsOf : ℕ → Job → Progress → Type 0
CountsOf depth job p = Counts depth job.max_queue_depth p.inserted p.store

refused-Counts :
    (depth : ℕ) (job : Job) (gap : ByteRange) (p : Progress)
    → CountsOf depth job p
    → CountsOf depth job (note_answer job gap p (p.store, none))
refused-Counts depth job gap p c =
    elim (Bool-cases (prefetch_task_exists p.store job.session.cache_key gap.start gap.end)) [
      | inl there ↦ rw there c
      | inr absent ↦ rw absent c
    ]

added-Counts :
    (depth : ℕ) (job : Job) (gap : ByteRange) (p : Progress) (s : Store) (o : Option PrefetchTask)
    (t : PrefetchTask)
    → CountsOf depth job p
    → o ≡ some t
    → queue_depth s ≡ queue_depth p.store + 1
    → queue_depth s ≤ job.max_queue_depth
    → CountsOf depth job (note_answer job gap p (s, o))
added-Counts depth job gap p s none t c e deeper bounded = cc
added-Counts depth job gap p s (some u) t c e deeper bounded =
    let grown = c.grown in record { grown = omega arith; bounded = omega arith }

enqueue_one-Counts :
    (depth : ℕ) (job : Job) (gap : ByteRange) (p : Progress)
    → CountsOf depth job p
    → CountsOf depth job (enqueue_one job gap p)
unfolding enqueue_one
enqueue_one-Counts depth job gap p c =
    let r = enqueue_gap job gap p.store in
    elim (enqueue_prefetch_task-cases p.store job.session.item_id job.session.media_source_id
      job.session.cache_key gap.start gap.end job.priority job.now job.max_queue_depth) [
        | inl (e, why) ↦
            subst (λ answer. CountsOf depth job (note_answer job gap p answer)) (sym e)
              (refused-Counts depth job gap p c)
        | inr (t, e, adds, bounded) ↦ added-Counts depth job gap p r.0 r.1 t c e adds.deeper bounded
      ]

enqueue_gaps-Counts :
    (depth : ℕ) (job : Job) (gaps : List ByteRange) (p : Progress)
    → CountsOf depth job p
    → CountsOf depth job (enqueue_gaps job gaps p)
unfolding enqueue_gaps
enqueue_gaps-Counts depth job [] p c = c
enqueue_gaps-Counts depth job (gap ∷ gaps) p c = elim (Bool-cases p.stopped) [
  | inl e ↦ simp (e, enqueue_gaps) c
  | inr e ↦
      simp (e, enqueue_gaps)
        (enqueue_gaps-Counts depth job gaps (enqueue_one job gap p)
          (enqueue_one-Counts depth job gap p c))
]

enqueue_missing-Counts :
    (depth : ℕ) (job : Job) (r : ByteRange) (gaps : List ByteRange) (p : Progress)
    → CountsOf depth job p
    → CountsOf depth job (enqueue_missing job r gaps p)
enqueue_missing-Counts depth job r [] p c = c
enqueue_missing-Counts depth job r (gap ∷ gaps) p c = enqueue_gaps-Counts depth job (gap ∷ gaps) p c

enqueue_ranges-Counts :
    (depth : ℕ) (job : Job) (target_end : ℕ) (rs : List ByteRange) (p : Progress)
    → CountsOf depth job p
    → CountsOf depth job (enqueue_ranges job target_end rs p)
unfolding enqueue_ranges
enqueue_ranges-Counts depth job target_end [] p c = c
enqueue_ranges-Counts depth job target_end (r ∷ rs) p c =
    let clipped = clip_to target_end r in
    let missing =
      subtract_ranges clipped (reusable_prefetch_ranges p.store job.session.cache_key clipped) in
    elim (Bool-cases p.stopped) [
      | inl e ↦ simp (e, enqueue_ranges) c
      | inr e ↦
          simp (e, enqueue_ranges)
            (enqueue_ranges-Counts depth job target_end rs (enqueue_missing job clipped missing p)
              (enqueue_missing-Counts depth job clipped missing p c))
    ]

queue_depth-update_session :
    (s : Store) (hash : Text) (n : ℕ)
    → queue_depth (update_session_queued_until s hash n) ≡ queue_depth s
unfolding update_session_queued_until queue_depth
queue_depth-update_session s hash n = refl

finish-Counts :
    (depth : ℕ) (job : Job) (p : Progress)
    → CountsOf depth job p
    → let r = finish job p in Counts depth job.max_queue_depth r.1 r.0
unfolding finish
finish-Counts depth job p c =
    let grown = c.grown in
    let bounded = c.bounded in
    elim (Option-cases p.highest_end) [
      | inl e ↦ rw (e, finish) c
      | inr (end, e) ↦
          let same = queue_depth-update_session p.store job.session.session_hash end in
          rw (e, finish) (record { grown = omega (arith, same); bounded = omega (arith, same) })
    ]

enqueue_plan-Counts :
    (job : Job) (plan : Option ℕ → List ByteRange) (rs : List ByteRange) (s : Store)
    → let r = enqueue_plan job plan rs s in Counts (queue_depth s) job.max_queue_depth r.1 r.0
unfolding enqueue_plan
enqueue_plan-Counts job plan [] s = record { grown = omega arith; bounded = omega arith }
enqueue_plan-Counts job plan (r ∷ rs) s = finish-Counts (queue_depth s) job _ (
    enqueue_ranges-Counts (queue_depth s) job (last_end r rs) _ _
      (record { grown = omega arith; bounded = omega arith }))

-- EnqueueForSession makes the queue longer by exactly the number of tasks that it reports, and never
-- longer than the configured limit, unless it was longer before.
pub enqueue_for_session-Counts :
    (s : Store) (session : PlaybackSession) (cache : CacheConfig) (prefetch : PrefetchConfig)
    (middle_cache : MiddleCacheConfig) (now priority : ℕ)
    → let r = enqueue_for_session s session cache prefetch middle_cache now priority in
      Counts (queue_depth s) prefetch.max_queue_depth r.1 r.0
unfolding enqueue_for_session
enqueue_for_session-Counts s session cache prefetch middle_cache now priority =
    enqueue_plan-Counts _ _ _ s
