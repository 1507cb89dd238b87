-- ===== src/State/Tasks/Order.antt =====
-- ClaimPrefetchTasks: which tasks a call hands out, in which order, and which it leaves.
use emby_range_cache_proxy.Base.{
  ℕ, zero, suc, ◌+◌, ◌≤◌, ◌<◌, ◌≡◌, refl, ap, ◌∙◌, ◌⊎◌, true, false, some, List, [], ◌∷◌, map,
  arith, All, All-at, All-weaken, inl, inr, length, take, Option-cases,
}
use mathlib.Core.List.{Memᴰ}
use emby_range_cache_proxy.Base.Tables.{
  order_by, select_where, Pairs, order_by-Pairs, Memᴰ-order_by, Memᴰ-select_where,
}
use emby_range_cache_proxy.State.{
  PrefetchTask, TaskStatus, queued, running, done, failed, skipped, Store,
}
use emby_range_cache_proxy.State.Tasks.{
  task_by_id, start_running, is_claimable, is_retry_due, is_before, claim_candidates,
  claim_prefetch_tasks,
}
use emby_range_cache_proxy.State.Tasks.Rows.{DistinctIds, Pairs-take}
use emby_range_cache_proxy.State.Tasks.Claim.{
  IsReady, candidates-IsReady, claim_each_self, claim_each-map,
}
use emby_range_cache_proxy.State.Tasks.Exclusion.{claim_prefetch_tasks-loop, All-map_rows}

-- A higher priority goes first, then the older task, then the smaller id.
abbrev pub GoesFirst : PrefetchTask → PrefetchTask → Type 0
GoesFirst t u =
    (u.priority < t.priority)
    ⊎ ((u.priority ≡ t.priority)
        × ((t.created_at < u.created_at) ⊎ ((t.created_at ≡ u.created_at) × (t.id ≤ u.id))))

is_before-GoesFirst : (t u : PrefetchTask) → is_before t u ≡ true → GoesFirst t u
unfolding is_before
is_before-GoesFirst t u h = ground (arith, h)

not_before-GoesFirst : (t u : PrefetchTask) → is_before t u ≡ false → GoesFirst u t
unfolding is_before
not_before-GoesFirst t u h = ground (arith, h)

GoesFirst-trans : (t u v : PrefetchTask) → GoesFirst t u → GoesFirst u v → GoesFirst t v
GoesFirst-trans t u v h k = ground (arith, h, k)

-- A task that is queued, that has ended with a retry that is due, or whose worker has gone stale.
abbrev pub IsDue : ℕ → ℕ → PrefetchTask → Type 0
IsDue now stale t =
    (t.status ≡ queued)
    ⊎ (((t.status ≡ failed) ⊎ (t.status ≡ skipped))
        × ((at : ℕ) × (t.next_attempt_at ≡ some at) × (at ≤ now)))
    ⊎ ((t.status ≡ running) × (0 < stale) × (t.updated_at + stale ≤ now))

status-cases :
    (status : TaskStatus)
    → (status ≡ queued)
      ⊎ (status ≡ running)
      ⊎ (status ≡ done)
      ⊎ (status ≡ failed)
      ⊎ (status ≡ skipped)
status-cases queued = inl refl
status-cases running = inr (inl refl)
status-cases done = inr (inr (inl refl))
status-cases failed = inr (inr (inr (inl refl)))
status-cases skipped = inr (inr (inr (inr refl)))

retry_due :
    (now stale : ℕ) (t : PrefetchTask)
    → is_retry_due now t ≡ true
    → (at : ℕ) × (t.next_attempt_at ≡ some at) × (at ≤ now)
retry_due now stale t h = elim (Option-cases t.next_attempt_at) [
  | inl e ↦ absurd (differ (ground (arith, h, e)))
  | inr (at, e) ↦ (at, e, ground (arith, h, e))
]
  where
    differ : true ≡ false → ⊥
    differ k = cc

claimable-IsDue :
    (now stale : ℕ) (t : PrefetchTask) → is_claimable now stale t ≡ true → IsDue now stale t
unfolding is_claimable
claimable-IsDue now stale t h = elim (status-cases t.status) [
  | inl e ↦ inl e
  | inr (inl e) ↦ inr (inr (ground (arith, h, e)))
  | inr (inr (inl e)) ↦ absurd (differ (ground (arith, h, e)))
  | inr (inr (inr (inl e))) ↦ inr (inl (inl e, retry_due now stale t (ground (arith, h, e))))
  | inr (inr (inr (inr e))) ↦ inr (inl (inr e, retry_due now stale t (ground (arith, h, e))))
]
  where
    differ : true ≡ false → ⊥
    differ k = cc

IsDue-claimable :
    (now stale : ℕ) (t : PrefetchTask) → IsDue now stale t → is_claimable now stale t ≡ true
unfolding is_claimable
IsDue-claimable now stale t (inl e) = ground arith
IsDue-claimable now stale t (inr (inl (inl e, (at, k, l)))) = ground arith
IsDue-claimable now stale t (inr (inl (inr e, (at, k, l)))) = ground arith
IsDue-claimable now stale t (inr (inr h)) = ground arith

-- What a list in order keeps of its first rows: a row is among them, or comes after all of them.
take-cases :
    (n : ℕ) (t : PrefetchTask) (xs : List PrefetchTask)
    → Pairs GoesFirst xs
    → Memᴰ t xs
    → Memᴰ t (take n xs) ⊎ (All (λ u. GoesFirst u t) (take n xs) × (length (take n xs) ≡ n))
take-cases zero t xs h m = inr (tt, refl)
take-cases (suc n) t [] h m = inl m
take-cases (suc n) t (x ∷ xs) h (Memᴰ.head e) = inl (Memᴰ.head e)
take-cases (suc n) t (x ∷ xs) h (Memᴰ.tail m) = elim (take-cases n t xs h.1 m) [
  | inl k ↦ inl (Memᴰ.tail k)
  | inr (k, l) ↦ inr ((All-at (GoesFirst x) t xs h.0 m, k), ap suc l)
]

claim_candidates-Pairs :
    (limit now stale : ℕ) (tasks : List PrefetchTask)
    → Pairs GoesFirst (claim_candidates limit now stale tasks)
unfolding claim_candidates
claim_candidates-Pairs limit now stale tasks = Pairs-take GoesFirst limit _ (
    order_by-Pairs is_before GoesFirst is_before-GoesFirst not_before-GoesFirst GoesFirst-trans
      (select_where (is_claimable now stale) tasks))

claim_candidates-left :
    (limit now stale : ℕ) (tasks : List PrefetchTask) (t : PrefetchTask)
    → Memᴰ t tasks
    → IsDue now stale t
    → let cs = claim_candidates limit now stale tasks in
      Memᴰ t cs ⊎ (All (λ u. GoesFirst u t) cs × (length cs ≡ limit))
unfolding claim_candidates
claim_candidates-left limit now stale tasks t m due =
    let p = is_claimable now stale in
    let selected = select_where p tasks in
    take-cases limit t (order_by is_before selected)
      (order_by-Pairs is_before GoesFirst is_before-GoesFirst not_before-GoesFirst GoesFirst-trans
        selected)
      (Memᴰ-order_by is_before t selected
        (Memᴰ-select_where p t tasks (IsDue-claimable now stale t due) m))

Pairs-map :
    (f : PrefetchTask → PrefetchTask) (xs : List PrefetchTask)
    → ((t u : PrefetchTask) → GoesFirst t u → GoesFirst (f t) (f u))
    → Pairs GoesFirst xs
    → Pairs GoesFirst (map f xs)
Pairs-map f [] keep h = tt
Pairs-map f (x ∷ xs) keep h = (
  All-map_rows (GoesFirst (f x)) f xs (All-weaken _ (λ u. GoesFirst (f x) (f u)) xs (keep x) h.0),
  Pairs-map f xs keep h.1,
)

length-map :
    (f : PrefetchTask → PrefetchTask) (xs : List PrefetchTask) → length (map f xs) ≡ length xs
length-map f [] = refl
length-map f (x ∷ xs) = ap suc (length-map f xs)

Memᴰ-map :
    (f : PrefetchTask → PrefetchTask) (t : PrefetchTask) (xs : List PrefetchTask)
    → Memᴰ t xs
    → Memᴰ (f t) (map f xs)
Memᴰ-map f t [] m = elim m [ ]
Memᴰ-map f t (x ∷ xs) (Memᴰ.head e) = Memᴰ.head (ap f e)
Memᴰ-map f t (x ∷ xs) (Memᴰ.tail m) = Memᴰ.tail (Memᴰ-map f t xs m)

-- What a call makes of a task that it hands out.
abbrev pub IsStarted : ℕ → ℕ → List PrefetchTask → List PrefetchTask → PrefetchTask → Type 0
IsStarted now stale before after t =
    (old : PrefetchTask) × (task_by_id t.id before ≡ some old)
    × IsDue now stale old
    × (t.status ≡ running)
    × (t.attempts ≡ old.attempts + 1)
    × (t.updated_at ≡ now)
    × (task_by_id t.id after ≡ some t)

All-IsStarted :
    (now stale : ℕ) (before after cs : List PrefetchTask)
    → All (IsReady now stale before) cs
    → All (λ c. task_by_id c.id after ≡ some (start_running now c)) cs
    → All (λ c. IsStarted now stale before after (start_running now c)) cs
All-IsStarted now stale before after [] r h = tt
All-IsStarted now stale before after (c ∷ cs) r h = (
  (c, r.0.0, claimable-IsDue now stale c r.0.1, refl, refl, refl, h.0),
  All-IsStarted now stale before after cs r.1 h.1,
)

-- The task is handed out, or the call is full of tasks that go before it.
abbrev pub IsServed : ℕ → List PrefetchTask → PrefetchTask → Type 0
IsServed limit claimed t =
    ((u : PrefetchTask) × Memᴰ u claimed × (u.id ≡ t.id))
    ⊎ (All (λ u. GoesFirst u t) claimed × (length claimed ≡ limit))

-- In a table with distinct ids, each task that a call hands out was due: queued, ended with a retry
-- that is due, or running for too long. It is then running, since now, in one attempt more than before,
-- in what is handed out and in the table. The tasks are handed out in the order of priority, age and
-- id; and a task that was due and is not handed out goes after all of them, of which there are then as
-- many as the limit allows.
pub claim_prefetch_tasks-in_order :
    (s : Store) (limit now stale : ℕ)
    → DistinctIds s.prefetch_tasks
    → let r = claim_prefetch_tasks s limit now stale in
      All (IsStarted now stale s.prefetch_tasks r.0.prefetch_tasks) r.1
      × Pairs GoesFirst r.1
      × ((t : PrefetchTask) → Memᴰ t s.prefetch_tasks → IsDue now stale t → IsServed limit r.1 t)
claim_prefetch_tasks-in_order s limit now stale d =
    let tasks = s.prefetch_tasks in
    let cs = claim_candidates limit now stale tasks in
    let ready = candidates-IsReady now stale limit tasks d in
    let e = claim_each-map now stale cs tasks ready.0 ready.1 in
    rw (claim_prefetch_tasks-loop s limit now stale, e)
      (
        All-map_rows _ (start_running now) cs (
            All-IsStarted now stale tasks _ cs ready.0
              (claim_each_self now stale cs tasks _ ready.0 ready.1 refl)),
        Pairs-map (start_running now) cs (λ t u h. h)
            (claim_candidates-Pairs limit now stale tasks),
        λ t m due. elim (claim_candidates-left limit now stale tasks t m due) [
          | inl k ↦ inl (start_running now t, Memᴰ-map (start_running now) t cs k, refl)
          | inr (k, l) ↦ inr (
            All-map_rows (λ u. GoesFirst u t) (start_running now) cs k,
            length-map (start_running now) cs ∙ l,
          )
        ],
      )
