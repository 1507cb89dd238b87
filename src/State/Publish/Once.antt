-- ===== src/State/Publish/Once.antt =====
-- A prefetched block is published once, by the worker that holds its task, with the task's end.
use emby_range_cache_proxy.Base.{
  ℕ, ◌≡◌, refl, ◌⊎◌, inl, inr, Bool, true, false, Option, none, some, List, [], ◌∷◌, arith, Result,
  ok, err, Bool-cases, Option-cases,
}
use emby_range_cache_proxy.Base.Tables.{update_where, exists_where}
use emby_range_cache_proxy.Base.Texts.{same_text_refl}
use emby_range_cache_proxy.State.{MiddleBlock, PrefetchTask, Store}
use emby_range_cache_proxy.State.Blocks.{is_block, upsert_middle_block}
use emby_range_cache_proxy.State.Blocks.Rows.{block_at, block_at-upsert_row}
use emby_range_cache_proxy.State.Tasks.{is_held, update_held, mark_done}
use emby_range_cache_proxy.State.Publish.Held.{
  HasHeld, Ended, exists_where-HasHeld, exists_where-not_held, Ended-mark_done,
}
use emby_range_cache_proxy.State.Publish.{
  finish_publish, publish_middle_block_and_complete_prefetch_task,
}

none_held :
    (i a now : ℕ) (tasks : List PrefetchTask)
    → exists_where (is_held i a) (update_where (is_held i a) (mark_done now) tasks) ≡ false
none_held i a now [] = refl
none_held i a now (t ∷ tasks) = ground (arith, none_held i a now tasks)

none_held_after :
    (s : Store) (i a now : ℕ) (block : MiddleBlock)
    → exists_where
        (is_held i a)
        (update_held i a (mark_done now) (upsert_middle_block s block)).prefetch_tasks
      ≡ false
unfolding upsert_middle_block
none_held_after s i a now block = none_held i a now s.prefetch_tasks

is_block_refl : (b : MiddleBlock) → is_block b.cache_key b.start b.end b ≡ true
is_block_refl b = ground (arith, same_text_refl b.cache_key)

module _ {ℓ} {W E : Type ℓ} (s : Store) (task_id attempts : ℕ) (block : MiddleBlock) (now : ℕ)
    (publish : W → W × Option E) (w : W) where
  abbrev call : Store × W × Result E Bool
  call = publish_middle_block_and_complete_prefetch_task s task_id attempts block now publish w

  abbrev published : Store
  published = update_held task_id attempts (mark_done now) (upsert_middle_block s block)

  call_not_held :
      exists_where (is_held task_id attempts) s.prefetch_tasks ≡ false → call ≡ (s, w, ok false)
  unfolding publish_middle_block_and_complete_prefetch_task
  call_not_held h = rw h

  call_failed :
      (e : E)
      → exists_where (is_held task_id attempts) s.prefetch_tasks ≡ true
      → (publish w).1 ≡ some e
      → call ≡ (s, (publish w).0, err e)
  unfolding publish_middle_block_and_complete_prefetch_task finish_publish
  call_failed e h k = rw (h, k)

  call-published :
      exists_where (is_held task_id attempts) s.prefetch_tasks ≡ true
      → (publish w).1 ≡ none
      → call ≡ (published, (publish w).0, ok true)
  unfolding publish_middle_block_and_complete_prefetch_task finish_publish
  call-published h k = rw (h, k, h)

  -- The three outcomes, with the store that the last one leaves.
  pub publish_outcome :
      ((exists_where (is_held task_id attempts) s.prefetch_tasks ≡ false)
        × (call ≡ (s, w, ok false)))
      ⊎ (((e : E) × (exists_where (is_held task_id attempts) s.prefetch_tasks ≡ true)
            × ((publish w).1 ≡ some e)
            × (call ≡ (s, (publish w).0, err e)))
          ⊎ ((exists_where (is_held task_id attempts) s.prefetch_tasks ≡ true)
              × ((publish w).1 ≡ none)
              × (call ≡ (published, (publish w).0, ok true))
              × (block_at block.cache_key block.start block.end published.middle_blocks
                  ≡ some block)
              × (exists_where (is_held task_id attempts) published.prefetch_tasks ≡ false)))
  unfolding upsert_middle_block
  publish_outcome = elim (Bool-cases (exists_where (is_held task_id attempts) s.prefetch_tasks)) [
    | inl h ↦ elim (Option-cases (publish w).1) [
      | inl k ↦ inr (
          inr (
            h,
            k,
            call-published h k,
            rw (
              block_at-upsert_row block.cache_key block.start block.end block s.middle_blocks,
              is_block_refl block,
            ),
            none_held task_id attempts now s.prefetch_tasks,
          ))
      | inr (e, k) ↦ inr (inl (e, h, k, call_failed e h k))
    ]
    | inr h ↦ inl (h, call_not_held h)
  ]

  -- Either the worker does not hold the task, and nothing at all happens; or it does, the files could
  -- not be published, and the store is as it was; or it does, the files were published, the block is
  -- found as given, every row that was held is done and every other one as it was, nobody holds the
  -- attempt any more, and the other tables are as they were.
  pub publish_cases :
      ((HasHeld task_id attempts s.prefetch_tasks → ⊥) × (call ≡ (s, w, ok false)))
      ⊎ (((e : E) × HasHeld task_id attempts s.prefetch_tasks
            × ((publish w).1 ≡ some e)
            × (call ≡ (s, (publish w).0, err e)))
          ⊎ ((after : Store) × HasHeld task_id attempts s.prefetch_tasks
              × ((publish w).1 ≡ none)
              × (call ≡ (after, (publish w).0, ok true))
              × (block_at block.cache_key block.start block.end after.middle_blocks ≡ some block)
              × Ended task_id attempts now s.prefetch_tasks after.prefetch_tasks
              × (HasHeld task_id attempts after.prefetch_tasks → ⊥)
              × (record s {
                middle_blocks = after.middle_blocks;
                prefetch_tasks = after.prefetch_tasks;
              }
                  ≡ after)))
  unfolding upsert_middle_block
  publish_cases = elim publish_outcome [
    | inl (h, same) ↦ inl (exists_where-not_held task_id attempts s.prefetch_tasks h, same)
    | inr (inl (e, h, k, same)) ↦
        inr (inl (e, exists_where-HasHeld task_id attempts s.prefetch_tasks h, k, same))
    | inr (inr (h, k, same, there, gone)) ↦ inr (
        inr (
          published,
          exists_where-HasHeld task_id attempts s.prefetch_tasks h,
          k,
          same,
          there,
          Ended-mark_done task_id attempts now s.prefetch_tasks,
          exists_where-not_held task_id attempts published.prefetch_tasks gone,
          refl,
        ))
  ]

-- Once a call has answered without an error, as it published its files or as it did not hold the task,
-- a second call for the same attempt changes neither the store nor the files, and answers false.
pub publish_twice {ℓ} :
    {W E : Type ℓ} (s : Store) (task_id attempts : ℕ) (block block' : MiddleBlock) (now now' : ℕ)
    (publish publish' : W → W × Option E) (w w' : W) (answer : Bool)
    → (publish_middle_block_and_complete_prefetch_task s task_id attempts block now publish w).2
      ≡ ok answer
    → let r =
        publish_middle_block_and_complete_prefetch_task s task_id attempts block now publish w in
      publish_middle_block_and_complete_prefetch_task r.0 task_id attempts block' now' publish' w'
      ≡ (r.0, w', ok false)
publish_twice {E = E} s i a block block' now now' publish publish' w w' answer k =
    elim (Bool-cases (exists_where (is_held i a) s.prefetch_tasks)) [
      | inl h ↦ elim (Option-cases (publish w).1) [
        | inl e ↦
            rw (call-published s i a block now publish w h e)
              (call_not_held _ i a block' now' publish' w' (none_held_after s i a now block))
        | inr (e, f) ↦ absurd (differ e (rw (call_failed s i a block now publish w e h f) at k))
      ]
      | inr h ↦
          rw (call_not_held s i a block now publish w h)
            (call_not_held s i a block' now' publish' w' h)
    ]
  where
    differ : (e : E) → ◌≡◌ {A = Result E Bool} (err e) (ok answer) → ⊥
    differ e x = cc
