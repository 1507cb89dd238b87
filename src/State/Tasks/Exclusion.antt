-- ===== src/State/Tasks/Exclusion.antt =====
-- ClaimPrefetchTasks and the calls that end a task: what several workers may rely on.
use emby_range_cache_proxy.Base.{
  ℕ, zero, suc, ◌+◌, ◌<◌, ◌≡◌, refl, sym, ◌∙◌, ◌≢◌, ◌⊎◌, true, false, some, List, [], ◌∷◌, map,
  arith, ◌==◌, All, Bool-cases, inl, inr,
}
use emby_range_cache_proxy.State.{PrefetchTask, Store}
use emby_range_cache_proxy.State.Tasks.{
  task_by_id, start_running, is_claimable, claim_each, claim_candidates, claim_prefetch_tasks,
  is_held,
}
use emby_range_cache_proxy.State.Tasks.Rows.{HasOtherId, DistinctIds}
use emby_range_cache_proxy.State.Tasks.Claim.{
  IsReady, candidates-IsReady, claim_each-map, claim_each_self, claim_each-DistinctIds,
}

pub All-map_rows :
    (P : PrefetchTask → Type 0) (f : PrefetchTask → PrefetchTask) (xs : List PrefetchTask)
    → All (λ x. P (f x)) xs
    → All P (map f xs)
All-map_rows P f [] h = tt
All-map_rows P f (x ∷ xs) h = (h.0, All-map_rows P f xs h.1)

claim_candidates-zero :
    (now stale : ℕ) (tasks : List PrefetchTask) → claim_candidates 0 now stale tasks ≡ []
unfolding claim_candidates
claim_candidates-zero now stale tasks = refl

-- With the limit 0 too, a call is the loop over the candidates.
pub claim_prefetch_tasks-loop :
    (s : Store) (limit now stale : ℕ)
    → let r =
        claim_each now stale (claim_candidates limit now stale s.prefetch_tasks) s.prefetch_tasks in
      claim_prefetch_tasks s limit now stale ≡ (record s { prefetch_tasks = r.0 }, r.1)
unfolding claim_prefetch_tasks claim_each
claim_prefetch_tasks-loop s zero now stale = rw (claim_candidates-zero now stale s.prefetch_tasks)
claim_prefetch_tasks-loop s (suc limit) now stale =
    let e : (suc limit == 0) ≡ false = ground arith in rw e

-- What was just claimed is not claimable before it is stale.
claimed-not_claimable :
    (now now' stale : ℕ) (t : PrefetchTask)
    → (stale ≡ 0) ⊎ (now' < now + stale)
    → is_claimable now' stale (start_running now t) ≡ false
unfolding is_claimable
claimed-not_claimable now now' stale t (inl h) = ground arith
claimed-not_claimable now now' stale t (inr h) = ground arith

module _ (now now' stale : ℕ) (fresh : (stale ≡ 0) ⊎ (now' < now + stale)) where
  apart_one :
      (tasks xs : List PrefetchTask) (u : PrefetchTask)
      → IsReady now' stale tasks u
      → All (λ c. task_by_id c.id tasks ≡ some (start_running now c)) xs
      → All (λ c. c.id ≢ u.id) xs
  apart_one tasks [] u r h = tt
  apart_one tasks (c ∷ xs) u r h = (
    λ e.
        let same : start_running now c ≡ u = ground (arith, h.0, r.0, e) in
        let ready : is_claimable now' stale (start_running now c) ≡ true = rw same r.1 in
        cc (claimed-not_claimable now now' stale c fresh),
    apart_one tasks xs u r h.1,
  )

  apart-All :
      (tasks xs us : List PrefetchTask)
      → All (IsReady now' stale tasks) us
      → All (λ c. task_by_id c.id tasks ≡ some (start_running now c)) xs
      → All (λ u. All (λ c. c.id ≢ u.id) xs) us
  apart-All tasks xs [] r h = tt
  apart-All tasks xs (u ∷ us) r h = (apart_one tasks xs u r.0 h, apart-All tasks xs us r.1 h)

All-apart-map :
    (f g : PrefetchTask → PrefetchTask) (xs us : List PrefetchTask)
    → ((t : PrefetchTask) → (f t).id ≡ t.id)
    → ((t : PrefetchTask) → (g t).id ≡ t.id)
    → All (λ u. All (λ c. c.id ≢ u.id) xs) us
    → All (λ u. All (λ c. c.id ≢ u.id) (map f xs)) (map g us)
All-apart-map f g xs [] kf kg h = tt
All-apart-map f g xs (u ∷ us) kf kg h = (inner xs h.0, All-apart-map f g xs us kf kg h.1)
  where
    inner :
        (ys : List PrefetchTask) → All (λ c. c.id ≢ u.id) ys → All (λ c. c.id ≢ (g u).id) (map f ys)
    inner [] k = tt
    inner (y ∷ ys) k = (λ e. k.0 (sym (kf y) ∙ e ∙ kg u), inner ys k.1)

-- In a table with distinct ids, two calls, the second before the tasks of the first are stale or
-- with staleness switched off, hand out different tasks: no task has two workers.
pub claim_prefetch_tasks-apart :
    (s : Store) (limit limit' now now' stale : ℕ)
    → DistinctIds s.prefetch_tasks
    → (stale ≡ 0) ⊎ (now' < now + stale)
    → let first = claim_prefetch_tasks s limit now stale in
      let second = claim_prefetch_tasks first.0 limit' now' stale in
      All (λ u. All (λ t. t.id ≢ u.id) first.1) second.1
claim_prefetch_tasks-apart s limit limit' now now' stale d fresh =
    let tasks = s.prefetch_tasks in
    let cs = claim_candidates limit now stale tasks in
    let ready = candidates-IsReady now stale limit tasks d in
    let tasks' = (claim_each now stale cs tasks).0 in
    let d' = claim_each-DistinctIds now stale cs tasks d in
    let us = claim_candidates limit' now' stale tasks' in
    let ready' = candidates-IsReady now' stale limit' tasks' d' in
    let held = claim_each_self now stale cs tasks tasks' ready.0 ready.1 refl in
    rw (claim_prefetch_tasks-loop s limit now stale) (
      rw (claim_prefetch_tasks-loop (record s { prefetch_tasks = tasks' }) limit' now' stale) (
        rw
          (
            claim_each-map now stale cs tasks ready.0 ready.1,
            claim_each-map now' stale us tasks' ready'.0 ready'.1,
          )
          (All-apart-map (start_running now) (start_running now') cs us (λ t. refl) (λ t. refl)
            (apart-All now now' stale fresh tasks' cs us ready'.0 held))))

not_held_of_HasOtherId :
    (u : PrefetchTask) (attempts : ℕ) (tasks : List PrefetchTask)
    → All (HasOtherId u) tasks
    → All (λ t. is_held u.id attempts t ≡ false) tasks
not_held_of_HasOtherId u attempts [] h = tt
not_held_of_HasOtherId u attempts (t ∷ tasks) h =
    (ground (arith, h.0), not_held_of_HasOtherId u attempts tasks h.1)

-- A row found by its id is the only one of that id.
pub not_held :
    (i attempts : ℕ) (tasks : List PrefetchTask) (u : PrefetchTask)
    → DistinctIds tasks
    → task_by_id i tasks ≡ some u
    → is_held i attempts u ≡ false
    → All (λ t. is_held i attempts t ≡ false) tasks
not_held i attempts [] u d e h = tt
not_held i attempts (t ∷ tasks) u d e h = elim (Bool-cases (t.id == i)) [
  | inl hit ↦
      let same : t.id ≡ i = ground arith in
      (ground arith, rw same at (not_held_of_HasOtherId t attempts tasks d.0))
  | inr miss ↦ (ground arith, not_held i attempts tasks u d.1 (ground arith) h)
]
