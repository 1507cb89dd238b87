-- ===== src/State/Publish.antt =====
-- PublishMiddleBlockAndCompletePrefetchTask. The transaction is undone by the deferred Rollback unless
-- it commits; `publish` acts on the world outside the database, of a type `W`, and its effects stay.
pub mod Held
pub mod Once
use emby_range_cache_proxy.Base.{
  ℕ, Bool, true, false, Option, none, some, List, Result, ok, err, if◌then◌else◌,
}
use emby_range_cache_proxy.Base.Tables.{update_where, exists_where}
use emby_range_cache_proxy.State.{MiddleBlock, PrefetchTask, Store}
use emby_range_cache_proxy.State.Blocks.{upsert_middle_block}
use emby_range_cache_proxy.State.Tasks.{is_held, update_held, mark_done}

module _ {ℓ} {W E : Type ℓ} where
  -- The rest of the transaction, once `publish` has returned.
  pub finish_publish : Store → ℕ → ℕ → MiddleBlock → ℕ → W → Option E → Store × W × Result E Bool
  finish_publish s task_id expected_attempts block now w (some e) = (s, w, err e)
  finish_publish s task_id expected_attempts block now w none =
      if exists_where (is_held task_id expected_attempts) s.prefetch_tasks
      then (
        update_held task_id expected_attempts (mark_done now) (upsert_middle_block s block),
        w,
        ok true,
      )
      else (s, w, ok false)

  unfoldable pub publish_middle_block_and_complete_prefetch_task :
      Store → ℕ → ℕ → MiddleBlock → ℕ → (W → W × Option E) → W → Store × W × Result E Bool
  unfolding finish_publish
  publish_middle_block_and_complete_prefetch_task s task_id expected_attempts block now publish w =
      let (w', e) = publish w in
      if exists_where (is_held task_id expected_attempts) s.prefetch_tasks
      then finish_publish s task_id expected_attempts block now w' e
      else (s, w, ok false)
