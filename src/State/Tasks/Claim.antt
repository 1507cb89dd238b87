-- ===== src/State/Tasks/Claim.antt =====
-- ClaimPrefetchTasks: which tasks a call hands out, and that no task is handed out twice.
use emby_range_cache_proxy.Base.{
  ℕ, ◌≡◌, refl, sym, ap, ◌∙◌, ◌≢◌, true, ◌&&◌, some, List, [], ◌∷◌, map, arith, ◌==◌, All,
}
use emby_range_cache_proxy.Base.Tables.{
  select_where, update_where, All-select_where, All-order_by, select_where-passes,
}
use emby_range_cache_proxy.State.{PrefetchTask}
use emby_range_cache_proxy.State.Tasks.{
  task_by_id, start_running, is_claimable, is_before, claim_one, claim_each, claim_candidates,
}
use emby_range_cache_proxy.State.Tasks.Rows.{
  HasOtherId, DistinctIds, task_by_id-update, task_by_id-update_self, exists_where-task_by_id,
  DistinctIds-IsFoundIn, DistinctIds-select_where, DistinctIds-order_by, All-take, Pairs-take,
  DistinctIds-update,
}

module _ (now stale : ℕ) where
  -- The row is found by its id, and may be claimed.
  abbrev pub IsReady : List PrefetchTask → PrefetchTask → Type 0
  IsReady tasks c = (task_by_id c.id tasks ≡ some c) × (is_claimable now stale c ≡ true)

  abbrev claimed_rows : PrefetchTask → List PrefetchTask → List PrefetchTask
  claimed_rows c tasks =
      update_where (λ t. t.id == c.id && is_claimable now stale t) (start_running now) tasks

  claimed_rows_self :
      (c : PrefetchTask) (tasks : List PrefetchTask)
      → IsReady tasks c
      → task_by_id c.id (claimed_rows c tasks) ≡ some (start_running now c)
  claimed_rows_self c tasks h =
      task_by_id-update_self c.id (is_claimable now stale) (start_running now) tasks (λ u. refl) h.0
        h.1

  claimed_rows-other :
      (i : ℕ) (c : PrefetchTask) (tasks : List PrefetchTask)
      → c.id ≢ i
      → task_by_id i (claimed_rows c tasks) ≡ task_by_id i tasks
  claimed_rows-other i c tasks h =
      task_by_id-update i c.id (is_claimable now stale) (start_running now) tasks (λ u. refl)
        (λ e. h (sym e))

  claim_one-ready :
      (c : PrefetchTask) (tasks : List PrefetchTask)
      → IsReady tasks c
      → claim_one now stale c tasks ≡ (claimed_rows c tasks, start_running now c ∷ [])
  unfolding claim_one
  claim_one-ready c tasks h = rw (
    exists_where-task_by_id c.id (is_claimable now stale) tasks h.0 h.1,
    claimed_rows_self c tasks h,
  )

  IsReady-claimed_rows :
      (c : PrefetchTask) (tasks xs : List PrefetchTask)
      → All (HasOtherId c) xs
      → All (IsReady tasks) xs
      → All (IsReady (claimed_rows c tasks)) xs
  IsReady-claimed_rows c tasks [] h k = tt
  IsReady-claimed_rows c tasks (x ∷ xs) h k = (
    (claimed_rows-other x.id c tasks h.0 ∙ k.0.0, k.0.1),
    IsReady-claimed_rows c tasks xs h.1 k.1,
  )

  abbrev IsElsewhere : ℕ → PrefetchTask → Type 0
  IsElsewhere i c = c.id ≢ i

  -- Rows with other ids than the candidates' stay as they are.
  claim_each-other :
      (i : ℕ) (cs tasks : List PrefetchTask)
      → All (IsReady tasks) cs
      → DistinctIds cs
      → All (IsElsewhere i) cs
      → task_by_id i (claim_each now stale cs tasks).0 ≡ task_by_id i tasks
  unfolding claim_each
  claim_each-other i [] tasks r d h = refl
  claim_each-other i (c ∷ cs) tasks r d h = rw (claim_one-ready c tasks r.0) (
      claim_each-other i cs (claimed_rows c tasks) (IsReady-claimed_rows c tasks cs d.0 r.1) d.1 h.1
      ∙ claimed_rows-other i c tasks h.0)

  -- Ready candidates with distinct ids are all handed out, in their order.
  pub claim_each-map :
      (cs tasks : List PrefetchTask)
      → All (IsReady tasks) cs
      → DistinctIds cs
      → (claim_each now stale cs tasks).1 ≡ map (start_running now) cs
  unfolding claim_each
  claim_each-map [] tasks r d = refl
  claim_each-map (c ∷ cs) tasks r d = rw (claim_one-ready c tasks r.0) (
      ap (◌∷◌ (start_running now c))
        (claim_each-map cs (claimed_rows c tasks) (IsReady-claimed_rows c tasks cs d.0 r.1) d.1))

  IsElsewhere-of_HasOtherId :
      (c : PrefetchTask) (xs : List PrefetchTask)
      → All (HasOtherId c) xs
      → All (IsElsewhere c.id) xs
  IsElsewhere-of_HasOtherId c [] h = tt
  IsElsewhere-of_HasOtherId c (x ∷ xs) h = (λ e. h.0 (sym e), IsElsewhere-of_HasOtherId c xs h.1)

  pub claim_each_self :
      (cs tasks result : List PrefetchTask)
      → All (IsReady tasks) cs
      → DistinctIds cs
      → (claim_each now stale cs tasks).0 ≡ result
      → All (λ c. task_by_id c.id result ≡ some (start_running now c)) cs
  unfolding claim_each
  claim_each_self [] tasks result r d e = tt
  claim_each_self (c ∷ cs) tasks result r d e =
      let tasks' = claimed_rows c tasks in
      let r' = IsReady-claimed_rows c tasks cs d.0 r.1 in
      let e' = rw (claim_one-ready c tasks r.0) at e in
      (
        ap (task_by_id c.id) (sym e')
            ∙ claim_each-other c.id cs tasks' r' d.1 (IsElsewhere-of_HasOtherId c cs d.0)
            ∙ claimed_rows_self c tasks r.0,
        claim_each_self cs tasks' result r' d.1 e',
      )

  All-IsReady :
      (tasks xs : List PrefetchTask)
      → All (λ t. task_by_id t.id tasks ≡ some t) xs
      → All (λ t. is_claimable now stale t ≡ true) xs
      → All (IsReady tasks) xs
  All-IsReady tasks [] h k = tt
  All-IsReady tasks (x ∷ xs) h k = ((h.0, k.0), All-IsReady tasks xs h.1 k.1)

  pub candidates-IsReady :
      (limit : ℕ) (tasks : List PrefetchTask)
      → DistinctIds tasks
      → All (IsReady tasks) (claim_candidates limit now stale tasks)
        × DistinctIds (claim_candidates limit now stale tasks)
  unfolding claim_candidates
  candidates-IsReady limit tasks d =
      let p = is_claimable now stale in
      let ready =
        All-IsReady tasks (select_where p tasks)
          (All-select_where _ p tasks (DistinctIds-IsFoundIn tasks d))
          (select_where-passes p tasks) in
      (
        All-take _ limit _ (All-order_by _ is_before (select_where p tasks) ready),
        Pairs-take HasOtherId limit _
            (DistinctIds-order_by is_before _ (DistinctIds-select_where p tasks d)),
      )

  claim_one-DistinctIds :
      (c : PrefetchTask) (tasks : List PrefetchTask)
      → DistinctIds tasks
      → DistinctIds (claim_one now stale c tasks).0
  unfolding claim_one
  claim_one-DistinctIds c tasks d = ground (
    arith,
    d,
    DistinctIds-update (λ t. t.id == c.id && is_claimable now stale t) (start_running now) tasks
        (λ u. refl) d,
  )

  pub claim_each-DistinctIds :
      (cs tasks : List PrefetchTask)
      → DistinctIds tasks
      → DistinctIds (claim_each now stale cs tasks).0
  unfolding claim_each
  claim_each-DistinctIds [] tasks d = d
  claim_each-DistinctIds (c ∷ cs) tasks d =
      claim_each-DistinctIds cs (claim_one now stale c tasks).0 (claim_one-DistinctIds c tasks d)
