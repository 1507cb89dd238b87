-- ===== src/State/Tasks/Queue.antt =====
-- EnqueuePrefetchTask: the bound on the queue, and what each branch does.
use emby_range_cache_proxy.Base.{
  ℕ, ◌+◌, ◌≤◌, ◌≡◌, refl, ◌⊎◌, inl, inr, Bool, true, false, none, some, List, [], ◌∷◌, ◌++◌, arith,
  leb, Bool-cases,
}
use emby_range_cache_proxy.Base.Tables.{count_where, exists_where}
use emby_range_cache_proxy.Base.Texts.{Text}
use emby_range_cache_proxy.State.{PrefetchTask, queued, Store}
use emby_range_cache_proxy.State.Tasks.{is_queued, has_range, queue_depth, enqueue_prefetch_task}

count_where-snoc :
    (p : PrefetchTask → Bool) (tasks : List PrefetchTask) (t : PrefetchTask)
    → p t ≡ true
    → count_where p (tasks ++ t ∷ []) ≡ count_where p tasks + 1
count_where-snoc p [] t h = rw h (omega arith)
count_where-snoc p (u ∷ tasks) t h = ground (arith, count_where-snoc p tasks t h)

-- The task was added at the end, queued and not yet tried.
pub record Adds (s s' : Store) (t : PrefetchTask) (cache_key : Text) (start end : ℕ) : Type 0 where
  pub appended : s'.prefetch_tasks ≡ s.prefetch_tasks ++ t ∷ []
  pub is_new : exists_where (has_range cache_key start end) s.prefetch_tasks ≡ false
  pub same_key : t.cache_key ≡ cache_key
  pub same_range : (t.start ≡ start) × (t.end ≡ end)
  pub untried : (t.status ≡ queued) × (t.attempts ≡ 0)
  pub deeper : queue_depth s' ≡ queue_depth s + 1

-- Either a task is refused, with no change, and then the queue is full or the range has a task
-- already; or it is added, queued and untried, and the queue stays within its bound.
pub enqueue_prefetch_task-cases :
    (s : Store) (item_id media_source_id cache_key : Text)
    (start end priority now max_queue_depth : ℕ)
    → let r =
        enqueue_prefetch_task s item_id media_source_id cache_key start end priority now
          max_queue_depth in
      ((r ≡ (s, none))
        × ((max_queue_depth ≤ queue_depth s)
            ⊎ (exists_where (has_range cache_key start end) s.prefetch_tasks ≡ true)))
      ⊎ ((t : PrefetchTask) × (r.1 ≡ some t)
          × Adds s r.0 t cache_key start end
          × (queue_depth r.0 ≤ max_queue_depth))
unfolding enqueue_prefetch_task
enqueue_prefetch_task-cases s item source key start end priority now depth =
    elim (Bool-cases (leb depth (queue_depth s))) [
      | inl full ↦ rw full (inl (refl, inl (ground arith)))
      | inr room ↦
          rw room (elim (Bool-cases (exists_where (has_range key start end) s.prefetch_tasks)) [
            | inl old ↦ rw old (inl (refl, inr refl))
            | inr new ↦ rw new (
                let deeper = count_where-snoc is_queued s.prefetch_tasks _ refl in
                inr (
                  _,
                  refl,
                  record {
                    appended = refl;
                    is_new = new;
                    same_key = refl;
                    same_range = (refl, refl);
                    untried = (refl, refl);
                    deeper = deeper;
                  },
                  ground (arith, deeper),
                ))
          ])
    ]
