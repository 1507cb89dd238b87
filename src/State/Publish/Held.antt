-- ===== src/State/Publish/Held.antt =====
-- Which rows a worker holds, and what the end of a task makes of them, row by row.
use emby_range_cache_proxy.Base.{
  ℕ, ◌≡◌, refl, ◌⊎◌, inl, inr, true, false, none, List, [], ◌∷◌, arith, Bool-cases,
}
use emby_range_cache_proxy.Base.Tables.{update_where, exists_where}
use emby_range_cache_proxy.State.{PrefetchTask, TaskStatus, queued, running, done, failed, skipped}
use emby_range_cache_proxy.State.Tasks.{is_running, is_held, mark_done}

-- The row of this id runs, in this attempt.
abbrev pub IsHeld : ℕ → ℕ → PrefetchTask → Type 0
IsHeld i a t = (t.id ≡ i) × (t.status ≡ running) × (t.attempts ≡ a)

abbrev pub HasHeld : ℕ → ℕ → List PrefetchTask → Type 0
HasHeld i a [] = ⊥
HasHeld i a (t ∷ tasks) = IsHeld i a t ⊎ HasHeld i a tasks

-- The rows before and after, one for one.
abbrev pub Ended : ℕ → ℕ → ℕ → List PrefetchTask → List PrefetchTask → Type 0
Ended i a now [] [] = Unit
Ended i a now [] (u ∷ us) = ⊥
Ended i a now (t ∷ ts) [] = ⊥
Ended i a now (t ∷ ts) (u ∷ us) =
    (IsHeld i a t
      → u ≡ record t {
        status = done;
        updated_at = now;
        last_error_class = none;
        next_attempt_at = none;
      })
    × ((IsHeld i a t → ⊥) → u ≡ t)
    × Ended i a now ts us

running_status :
    (t : PrefetchTask) (st : TaskStatus) → t.status ≡ st → is_running t ≡ true → st ≡ running
running_status t running e h = refl
running_status t queued e h = elim (the_false (ground (arith, e, h))) [ ]
  where
    the_false : true ≡ false → ⊥
    the_false x = cc
running_status t done e h = elim (the_false (ground (arith, e, h))) [ ]
  where
    the_false : true ≡ false → ⊥
    the_false x = cc
running_status t failed e h = elim (the_false (ground (arith, e, h))) [ ]
  where
    the_false : true ≡ false → ⊥
    the_false x = cc
running_status t skipped e h = elim (the_false (ground (arith, e, h))) [ ]
  where
    the_false : true ≡ false → ⊥
    the_false x = cc

is_held-IsHeld : (i a : ℕ) (t : PrefetchTask) → is_held i a t ≡ true → IsHeld i a t
is_held-IsHeld i a t h =
    (ground (arith, h), running_status t t.status refl (ground (arith, h)), ground (arith, h))

IsHeld-is_held : (i a : ℕ) (t : PrefetchTask) → IsHeld i a t → is_held i a t ≡ true
IsHeld-is_held i a t (e, f, g) = ground (arith, e, f, g)

pub exists_where-HasHeld :
    (i a : ℕ) (tasks : List PrefetchTask)
    → exists_where (is_held i a) tasks ≡ true
    → HasHeld i a tasks
exists_where-HasHeld i a [] h = cc
exists_where-HasHeld i a (t ∷ tasks) h = elim (Bool-cases (is_held i a t)) [
  | inl e ↦ inl (is_held-IsHeld i a t e)
  | inr e ↦ inr (exists_where-HasHeld i a tasks (ground (arith, h, e)))
]

pub exists_where-not_held :
    (i a : ℕ) (tasks : List PrefetchTask)
    → exists_where (is_held i a) tasks ≡ false
    → HasHeld i a tasks
    → ⊥
exists_where-not_held i a [] h k = elim k [ ]
exists_where-not_held i a (t ∷ tasks) h (inl held) =
    the_false (ground (arith, h, IsHeld-is_held i a t held))
  where
    the_false : true ≡ false → ⊥
    the_false x = cc
exists_where-not_held i a (t ∷ tasks) h (inr later) =
    exists_where-not_held i a tasks (ground (arith, h)) later

pub Ended-mark_done :
    (i a now : ℕ) (tasks : List PrefetchTask)
    → Ended i a now tasks (update_where (is_held i a) (mark_done now) tasks)
Ended-mark_done i a now [] = tt
Ended-mark_done i a now (t ∷ tasks) = elim (Bool-cases (is_held i a t)) [
  | inl e ↦
      rw e (
        λ held. refl,
        λ free. absurd (free (is_held-IsHeld i a t e)),
        Ended-mark_done i a now tasks,
      )
  | inr e ↦ rw e (
    λ held. absurd (the_false (ground (arith, e, IsHeld-is_held i a t held))),
    λ free. refl,
    Ended-mark_done i a now tasks,
  )
]
  where
    the_false : true ≡ false → ⊥
    the_false x = cc
