-- ===== src/State/Tasks/Rows.antt =====
-- Rows of prefetch_tasks found by their id.
use emby_range_cache_proxy.Base.{
  ℕ, zero, suc, ◌≡◌, refl, sym, ◌∙◌, ◌≢◌, Bool, true, ◌&&◌, some, List, [], ◌∷◌, arith, ◌==◌,
  if◌then◌else◌, All, Bool-cases, inl, inr, take,
}
use emby_range_cache_proxy.Base.Tables.{
  select_where, update_where, exists_where, insert_by, order_by, Pairs, All-select_where,
  All-order_by,
}
use emby_range_cache_proxy.State.{PrefetchTask}
use emby_range_cache_proxy.State.Tasks.{task_by_id}

abbrev pub HasOtherId : PrefetchTask → PrefetchTask → Type 0
HasOtherId t u = t.id ≢ u.id

-- The primary key: no two rows have one id.
abbrev pub DistinctIds : List PrefetchTask → Type 0
DistinctIds = Pairs HasOtherId

-- An update of some rows with one id, which keeps every id.
pub task_by_id-update :
    (i j : ℕ) (q : PrefetchTask → Bool) (f : PrefetchTask → PrefetchTask)
    (tasks : List PrefetchTask)
    → ((t : PrefetchTask) → (f t).id ≡ t.id)
    → i ≢ j
    → task_by_id i (update_where (λ t. t.id == j && q t) f tasks) ≡ task_by_id i tasks
task_by_id-update i j q f [] keep h = refl
task_by_id-update i j q f (t ∷ tasks) keep h =
    ground (arith, task_by_id-update i j q f tasks keep h, keep t)

pub task_by_id-update_self :
    (i : ℕ) (q : PrefetchTask → Bool) (f : PrefetchTask → PrefetchTask) (tasks : List PrefetchTask)
    {t : PrefetchTask}
    → ((u : PrefetchTask) → (f u).id ≡ u.id)
    → task_by_id i tasks ≡ some t
    → q t ≡ true
    → task_by_id i (update_where (λ u. u.id == i && q u) f tasks) ≡ some (f t)
task_by_id-update_self i q f [] keep h p = cc
task_by_id-update_self i q f (u ∷ tasks) {t} keep h p =
    ground (arith, task_by_id-update_self i q f tasks {t = t} keep, keep u)

pub exists_where-task_by_id :
    (i : ℕ) (q : PrefetchTask → Bool) (tasks : List PrefetchTask) {t : PrefetchTask}
    → task_by_id i tasks ≡ some t
    → q t ≡ true
    → exists_where (λ u. u.id == i && q u) tasks ≡ true
exists_where-task_by_id i q [] h p = cc
exists_where-task_by_id i q (u ∷ tasks) {t} h p =
    ground (arith, exists_where-task_by_id i q tasks {t = t})

-- Each row is found by its id.
abbrev IsFoundIn : List PrefetchTask → PrefetchTask → Type 0
IsFoundIn tasks t = task_by_id t.id tasks ≡ some t

All-IsFoundIn-cons :
    (u : PrefetchTask) (tasks xs : List PrefetchTask)
    → All (HasOtherId u) xs
    → All (IsFoundIn tasks) xs
    → All (IsFoundIn (u ∷ tasks)) xs
All-IsFoundIn-cons u tasks [] h k = tt
All-IsFoundIn-cons u tasks (x ∷ xs) h k =
    (ground (arith, h.0, k.0), All-IsFoundIn-cons u tasks xs h.1 k.1)

pub DistinctIds-IsFoundIn :
    (tasks : List PrefetchTask)
    → DistinctIds tasks
    → All (λ t. task_by_id t.id tasks ≡ some t) tasks
DistinctIds-IsFoundIn [] h = tt
DistinctIds-IsFoundIn (u ∷ tasks) h =
    (ground arith, All-IsFoundIn-cons u tasks tasks h.0 (DistinctIds-IsFoundIn tasks h.1))

pub DistinctIds-select_where :
    (p : PrefetchTask → Bool) (tasks : List PrefetchTask)
    → DistinctIds tasks
    → DistinctIds (select_where p tasks)
DistinctIds-select_where p [] h = tt
DistinctIds-select_where p (t ∷ tasks) h = elim (Bool-cases (p t)) [
  | inl e ↦ rw e (All-select_where _ p tasks h.0, DistinctIds-select_where p tasks h.1)
  | inr e ↦ rw e (DistinctIds-select_where p tasks h.1)
]

module _ (before : PrefetchTask → PrefetchTask → Bool) where
  HasOtherId-insert_by :
      (u t : PrefetchTask) (tasks : List PrefetchTask)
      → HasOtherId u t
      → All (HasOtherId u) tasks
      → All (HasOtherId u) (insert_by before t tasks)
  unfolding insert_by
  HasOtherId-insert_by u t [] h k = (h, tt)
  HasOtherId-insert_by u t (v ∷ tasks) h k = elim (Bool-cases (before v t)) [
    | inl e ↦ rw e (k.0, HasOtherId-insert_by u t tasks h k.1)
    | inr e ↦ rw e (h, k)
  ]

  DistinctIds-insert_by :
      (t : PrefetchTask) (tasks : List PrefetchTask)
      → All (HasOtherId t) tasks
      → DistinctIds tasks
      → DistinctIds (insert_by before t tasks)
  unfolding insert_by
  DistinctIds-insert_by t [] h k = (tt, tt)
  DistinctIds-insert_by t (v ∷ tasks) h k = elim (Bool-cases (before v t)) [
    | inl e ↦ rw e (
      HasOtherId-insert_by v t tasks (λ x. h.0 (sym x)) k.0,
      DistinctIds-insert_by t tasks h.1 k.1,
    )
    | inr e ↦ rw e (h, k)
  ]

  pub DistinctIds-order_by :
      (tasks : List PrefetchTask) → DistinctIds tasks → DistinctIds (order_by before tasks)
  unfolding order_by
  DistinctIds-order_by [] h = tt
  DistinctIds-order_by (t ∷ tasks) h =
      DistinctIds-insert_by t (order_by before tasks) (All-order_by _ before tasks h.0)
        (DistinctIds-order_by tasks h.1)

pub All-take {κ} :
    (P : PrefetchTask → Type κ) (n : ℕ) (tasks : List PrefetchTask)
    → All P tasks
    → All P (take n tasks)
All-take P zero tasks h = tt
All-take P (suc n) [] h = tt
All-take P (suc n) (t ∷ tasks) h = (h.0, All-take P n tasks h.1)

pub Pairs-take :
    (R : PrefetchTask → PrefetchTask → Type 0) (n : ℕ) (tasks : List PrefetchTask)
    → Pairs R tasks
    → Pairs R (take n tasks)
Pairs-take R zero tasks h = tt
Pairs-take R (suc n) [] h = tt
Pairs-take R (suc n) (t ∷ tasks) h = (All-take _ n tasks h.0, Pairs-take R n tasks h.1)

HasOtherId-update :
    (t : PrefetchTask) (p : PrefetchTask → Bool) (f : PrefetchTask → PrefetchTask)
    (tasks : List PrefetchTask)
    → ((u : PrefetchTask) → (f u).id ≡ u.id)
    → All (HasOtherId t) tasks
    → All (HasOtherId t) (update_where p f tasks)
HasOtherId-update t p f [] keep h = tt
HasOtherId-update t p f (u ∷ tasks) keep h =
    (ground (arith, h.0, keep u), HasOtherId-update t p f tasks keep h.1)

HasOtherId-same_id :
    (t u : PrefetchTask) (tasks : List PrefetchTask)
    → t.id ≡ u.id
    → All (HasOtherId u) tasks
    → All (HasOtherId t) tasks
HasOtherId-same_id t u [] e h = tt
HasOtherId-same_id t u (v ∷ tasks) e h = (λ x. h.0 (sym e ∙ x), HasOtherId-same_id t u tasks e h.1)

-- An update that leaves the ids alone keeps them distinct.
pub DistinctIds-update :
    (p : PrefetchTask → Bool) (f : PrefetchTask → PrefetchTask) (tasks : List PrefetchTask)
    → ((u : PrefetchTask) → (f u).id ≡ u.id)
    → DistinctIds tasks
    → DistinctIds (update_where p f tasks)
DistinctIds-update p f [] keep h = tt
DistinctIds-update p f (t ∷ tasks) keep h = (
  HasOtherId-same_id (if p t then f t else t) t _ (ground (arith, keep t))
      (HasOtherId-update t p f tasks keep h.0),
  DistinctIds-update p f tasks keep h.1,
)
