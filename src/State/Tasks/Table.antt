-- ===== src/State/Tasks/Table.antt =====
-- The keys of prefetch_tasks, the bound on the queue, and every history of calls.
use emby_range_cache_proxy.Base.{
  ℕ, ◌+◌, ◌<◌, ◌≡◌, refl, inl, inr, Bool, false, ◌&&◌, List, [], ◌∷◌, ◌++◌, arith, leb, ◌==◌,
  if◌then◌else◌, All, All-append, Bool-cases,
}
use emby_range_cache_proxy.Base.Tables.{update_where, exists_where, Pairs}
use emby_range_cache_proxy.Base.Texts.{Text}
use emby_range_cache_proxy.State.{PrefetchTask, Store}
use emby_range_cache_proxy.State.Tasks.{
  has_range, queue_depth, enqueue_prefetch_task, claim_each, claim_one, claim_candidates,
  claim_prefetch_tasks, is_claimable, start_running, is_held, complete_prefetch_task,
  fail_prefetch_task, skip_prefetch_task, requeue_prefetch_task,
}
use emby_range_cache_proxy.State.Tasks.Rows.{HasOtherId, DistinctIds}
use emby_range_cache_proxy.State.Tasks.Exclusion.{claim_prefetch_tasks-loop}

-- The later row has another id, and another key or range.
abbrev pub IsApart : PrefetchTask → PrefetchTask → Type 0
IsApart t u = (t.id < u.id) × (has_range u.cache_key u.start u.end t ≡ false)

-- AUTOINCREMENT gives fresh ids in order, and UNIQUE(cache_key, start, end) holds.
pub record IsValid (s : Store) : Type 0 where
  pub fresh : All (λ t. t.id < s.next_task_id) s.prefetch_tasks
  pub apart : Pairs IsApart s.prefetch_tasks

exists_where_none :
    (p : PrefetchTask → Bool) (tasks : List PrefetchTask)
    → exists_where p tasks ≡ false
    → All (λ t. p t ≡ false) tasks
exists_where_none p [] h = tt
exists_where_none p (t ∷ tasks) h = (ground arith, exists_where_none p tasks (ground arith))

fresh-weaken :
    (n : ℕ) (tasks : List PrefetchTask) → All (λ t. t.id < n) tasks → All (λ t. t.id < n + 1) tasks
fresh-weaken n [] h = tt
fresh-weaken n (t ∷ tasks) h = (omega arith, fresh-weaken n tasks h.1)

Pairs-snoc :
    (tasks : List PrefetchTask) (u : PrefetchTask)
    → Pairs IsApart tasks
    → All (λ t. t.id < u.id) tasks
    → All (λ t. has_range u.cache_key u.start u.end t ≡ false) tasks
    → Pairs IsApart (tasks ++ u ∷ [])
Pairs-snoc [] u p h k = (tt, tt)
Pairs-snoc (t ∷ tasks) u p h k =
    (All-append (IsApart t) tasks (u ∷ []) p.0 ((h.0, k.0), tt), Pairs-snoc tasks u p.1 h.1 k.1)

enqueue-IsValid :
    (s : Store) (item_id media_source_id cache_key : Text) (start end priority now depth : ℕ)
    → IsValid s
    → IsValid
        (enqueue_prefetch_task s item_id media_source_id cache_key start end priority now depth).0
unfolding enqueue_prefetch_task
enqueue-IsValid s item source key start end priority now depth v =
    elim (Bool-cases (leb depth (queue_depth s))) [
      | inl full ↦ rw full v
      | inr room ↦
          rw room (elim (Bool-cases (exists_where (has_range key start end) s.prefetch_tasks)) [
            | inl old ↦ rw old v
            | inr new ↦ rw new (record {
              fresh =
                  All-append _ s.prefetch_tasks _
                    (fresh-weaken s.next_task_id s.prefetch_tasks v.fresh) (omega arith, tt);
              apart =
                  Pairs-snoc s.prefetch_tasks _ v.apart v.fresh
                    (exists_where_none (has_range key start end) s.prefetch_tasks new);
            })
          ])
    ]

abbrev Keeps : PrefetchTask → PrefetchTask → Type 0
Keeps t u = (t.id ≡ u.id) × (t.cache_key ≡ u.cache_key) × (t.start ≡ u.start) × (t.end ≡ u.end)

module _ (p : PrefetchTask → Bool) (f : PrefetchTask → PrefetchTask)
    (keep : (t : PrefetchTask) → Keeps (f t) t) where
  abbrev updated : PrefetchTask → PrefetchTask
  updated t = if p t then f t else t

  Keeps-updated : (t : PrefetchTask) → Keeps (updated t) t
  Keeps-updated t = ground (arith, keep t)

  IsApart-updated : (t u : PrefetchTask) → IsApart t u → IsApart (updated t) (updated u)
  IsApart-updated t u h =
      let kt = Keeps-updated t in
      let ku = Keeps-updated u in (omega arith, rw (kt.1, kt.2, kt.3, ku.1, ku.2, ku.3) h.1)

  All-IsApart-update :
      (t : PrefetchTask) (tasks : List PrefetchTask)
      → All (IsApart t) tasks
      → All (IsApart (updated t)) (update_where p f tasks)
  All-IsApart-update t [] h = tt
  All-IsApart-update t (u ∷ tasks) h = (IsApart-updated t u h.0, All-IsApart-update t tasks h.1)

  Pairs-update :
      (tasks : List PrefetchTask) → Pairs IsApart tasks → Pairs IsApart (update_where p f tasks)
  Pairs-update [] h = tt
  Pairs-update (t ∷ tasks) h = (All-IsApart-update t tasks h.0, Pairs-update tasks h.1)

  fresh-update :
      (n : ℕ) (tasks : List PrefetchTask)
      → All (λ t. t.id < n) tasks
      → All (λ t. t.id < n) (update_where p f tasks)
  fresh-update n [] h = tt
  fresh-update n (t ∷ tasks) h = (ground (arith, Keeps-updated t, h.0), fresh-update n tasks h.1)

  update-IsValid :
      (s : Store)
      → IsValid s
      → IsValid (record s { prefetch_tasks = update_where p f s.prefetch_tasks })
  update-IsValid s v = record {
    fresh = fresh-update s.next_task_id s.prefetch_tasks v.fresh;
    apart = Pairs-update s.prefetch_tasks v.apart;
  }

claim_one-IsValid :
    (now stale : ℕ) (c : PrefetchTask) (s : Store)
    → IsValid s
    → IsValid (record s { prefetch_tasks = (claim_one now stale c s.prefetch_tasks).0 })
unfolding claim_one
claim_one-IsValid now stale c s v =
    elim (Bool-cases
      (exists_where (λ t. t.id == c.id && is_claimable now stale t) s.prefetch_tasks)) [
        | inl e ↦ rw e (update-IsValid _ (start_running now) (λ t. (refl, refl, refl, refl)) s v)
        | inr e ↦ rw e v
      ]

claim_each-IsValid :
    (now stale : ℕ) (cs : List PrefetchTask) (s : Store)
    → IsValid s
    → IsValid (record s { prefetch_tasks = (claim_each now stale cs s.prefetch_tasks).0 })
unfolding claim_each
claim_each-IsValid now stale [] s v = v
claim_each-IsValid now stale (c ∷ cs) s v =
    claim_each-IsValid now stale cs
      (record s { prefetch_tasks = (claim_one now stale c s.prefetch_tasks).0 })
      (claim_one-IsValid now stale c s v)

-- The calls of a client of the table, with their arguments.
pub data Call : Type 0 where
  enqueue : Text → Text → Text → ℕ → ℕ → ℕ → ℕ → ℕ → Call
  claim : ℕ → ℕ → ℕ → Call
  complete : ℕ → ℕ → ℕ → Call
  fail : ℕ → Text → ℕ → ℕ → ℕ → Call
  skip : ℕ → Text → ℕ → ℕ → ℕ → Call
  requeue : ℕ → ℕ → Text → ℕ → Call

unfoldable pub step : Store → Call → Store
step s (enqueue item source key start end priority now depth) =
    (enqueue_prefetch_task s item source key start end priority now depth).0
step s (claim limit now stale) = (claim_prefetch_tasks s limit now stale).0
step s (complete id now attempts) = complete_prefetch_task s id now attempts
step s (fail id class now retry attempts) = fail_prefetch_task s id class now retry attempts
step s (skip id class now retry attempts) = skip_prefetch_task s id class now retry attempts
step s (requeue id now class attempts) = requeue_prefetch_task s id now class attempts

unfoldable pub run : Store → List Call → Store
unfolding step
run s [] = s
run s (c ∷ cs) = run (step s c) cs

pub step-IsValid : (s : Store) (c : Call) → IsValid s → IsValid (step s c)
unfolding step complete_prefetch_task fail_prefetch_task skip_prefetch_task requeue_prefetch_task
step-IsValid s (enqueue item source key start end priority now depth) v =
    enqueue-IsValid s item source key start end priority now depth v
step-IsValid s (claim limit now stale) v =
    rw (step, claim_prefetch_tasks-loop s limit now stale)
      (claim_each-IsValid now stale (claim_candidates limit now stale s.prefetch_tasks) s v)
step-IsValid s (complete id now attempts) v =
    update-IsValid (is_held id attempts) _ (λ t. (refl, refl, refl, refl)) s v
step-IsValid s (fail id class now retry attempts) v =
    update-IsValid (is_held id attempts) _ (λ t. (refl, refl, refl, refl)) s v
step-IsValid s (skip id class now retry attempts) v =
    update-IsValid (is_held id attempts) _ (λ t. (refl, refl, refl, refl)) s v
step-IsValid s (requeue id now class attempts) v =
    update-IsValid (is_held id attempts) _ (λ t. (refl, refl, refl, refl)) s v

-- Any sequence of calls, of one worker or of many, keeps a valid table valid: ids and ranges are
-- unique, and every id was given out.
pub run-IsValid : (s : Store) (cs : List Call) → IsValid s → IsValid (run s cs)
unfolding run
run-IsValid s [] v = v
run-IsValid s (c ∷ cs) v = run-IsValid (step s c) cs (step-IsValid s c v)

All-HasOtherId :
    (t : PrefetchTask) (tasks : List PrefetchTask)
    → All (IsApart t) tasks
    → All (HasOtherId t) tasks
All-HasOtherId t [] h = tt
All-HasOtherId t (u ∷ tasks) h = (omega arith, All-HasOtherId t tasks h.1)

pub DistinctIds-of_apart : (tasks : List PrefetchTask) → Pairs IsApart tasks → DistinctIds tasks
DistinctIds-of_apart [] h = tt
DistinctIds-of_apart (t ∷ tasks) h = (All-HasOtherId t tasks h.0, DistinctIds-of_apart tasks h.1)

-- So the laws of ClaimPrefetchTasks hold in every state that a history reaches.
pub run-DistinctIds :
    (s : Store) (cs : List Call) → IsValid s → DistinctIds (run s cs).prefetch_tasks
run-DistinctIds s cs v = DistinctIds-of_apart _ (run-IsValid s cs v).apart
