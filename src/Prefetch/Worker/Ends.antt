-- ===== src/Prefetch/Worker/Ends.antt =====
-- However a prefetch ends, its task is not left running.
use emby_range_cache_proxy.Base.{
  ℕ, suc, zero, ◌≡◌, refl, ◌∙◌, Bool, true, false, not, Option, List, [], ◌∷◌, Result, ok, err,
  arith, ltb, leb, ◌==◌, if◌then◌else◌, Bool-cases, Option-cases, List-cases, inl, inr, length,
  take, ◌+◌, ap,
}
use emby_range_cache_proxy.Base.Tables.{exists_where, update_where}
use emby_range_cache_proxy.Base.Texts.{Text, same_text}
use emby_range_cache_proxy.Model.{ByteRange, range_length}
use emby_range_cache_proxy.Config.{PrefetchConfig}
use emby_range_cache_proxy.Disk.{Disk}
use emby_range_cache_proxy.HeadTail.{Faults}
use emby_range_cache_proxy.State.{PrefetchTask, failed, skipped, MiddleBlock, Store}
use emby_range_cache_proxy.State.Tasks.{is_held, mark_ended, fail_prefetch_task, skip_prefetch_task}
use emby_range_cache_proxy.State.Blocks.{
  delete_middle_block_record, middle_cache_bytes, least_recent_middle_blocks,
}
use emby_range_cache_proxy.State.Publish.{publish_middle_block_and_complete_prefetch_task}
use emby_range_cache_proxy.State.Publish.Once.{publish_outcome}
use emby_range_cache_proxy.State.Sources.{get_source_metadata}
use emby_range_cache_proxy.Middle.{
  Cache, World, MiddleError, remove_block, paths, publish_renames, stage_files, new_record,
  store_prefetch_block_from_reader,
}
use emby_range_cache_proxy.Middle.Evict.{
  remove_blocks, evict_expired, evict_rounds, evict_lru_if_needed,
}
use emby_range_cache_proxy.Prefetch.Worker.{
  Origin, Surroundings, fail, skip, finish_task, fetch_task, run_task, task_range, source_of,
}

-- Nobody holds this attempt of this task.
abbrev pub IsReleased : PrefetchTask → World → Type 0
IsReleased task w = exists_where (is_held task.id task.attempts) w.store.prefetch_tasks ≡ false

none_held_ended :
    (i a now retry : ℕ) (error_class : Text) (tasks : List PrefetchTask)
    → (exists_where
          (is_held i a)
          (update_where (is_held i a) (mark_ended failed error_class now retry) tasks)
        ≡ false)
      × (exists_where
            (is_held i a)
            (update_where (is_held i a) (mark_ended skipped error_class now retry) tasks)
          ≡ false)
none_held_ended i a now retry e [] = (refl, refl)
none_held_ended i a now retry e (t ∷ tasks) =
    let rest = none_held_ended i a now retry e tasks in
    (ground (arith, rest.0), ground (arith, rest.1))

fail-IsReleased :
    (task : PrefetchTask) (error_class : Text) (now retry : ℕ) (w : World)
    → IsReleased task (fail task error_class now retry w).0
unfolding fail_prefetch_task
fail-IsReleased task e now retry w =
    (none_held_ended task.id task.attempts now retry e w.store.prefetch_tasks).0

skip-IsReleased :
    (task : PrefetchTask) (error_class : Text) (now retry : ℕ) (w : World)
    → IsReleased task (skip task error_class now retry w).0
unfolding skip_prefetch_task
skip-IsReleased task e now retry w =
    (none_held_ended task.id task.attempts now retry e w.store.prefetch_tasks).1

remove_block-tasks :
    (row : MiddleBlock) (w : World)
    → (remove_block row w).store.prefetch_tasks ≡ w.store.prefetch_tasks
unfolding remove_block delete_middle_block_record
remove_block-tasks row w = refl

remove_blocks-tasks :
    (rows : List MiddleBlock) (now : ℕ) (w : World)
    → (remove_blocks rows now w).store.prefetch_tasks ≡ w.store.prefetch_tasks
unfolding remove_blocks
remove_blocks-tasks [] now w = refl
remove_blocks-tasks (row ∷ rows) now w =
    remove_blocks-tasks rows now (if leb row.expires_at now then remove_block row w else w)
    ∙ ground (arith, remove_block-tasks row w)

evict_rounds-tasks :
    (f : ℕ) (c : Cache) (w : World)
    → (evict_rounds f c w).0.store.prefetch_tasks ≡ w.store.prefetch_tasks
unfolding evict_rounds
evict_rounds-tasks zero c w = refl
evict_rounds-tasks (suc f) c w = elim (List-cases (least_recent_middle_blocks w.store)) [
  | inl e ↦ rw (e, evict_rounds) refl
  | inr (row, rows, e) ↦ elim (Bool-cases (leb (middle_cache_bytes w.store) c.max_bytes)) [
    | inl fits ↦ rw (e, evict_rounds, fits) refl
    | inr over ↦
        rw (e, evict_rounds, over)
          (evict_rounds-tasks f c (remove_block row w) ∙ remove_block-tasks row w)
  ]
]

evictions-tasks :
    (c : Cache) (now : ℕ) (w : World)
    → (evict_lru_if_needed c (evict_expired now w).0).0.store.prefetch_tasks
      ≡ w.store.prefetch_tasks
unfolding evict_lru_if_needed evict_expired
evictions-tasks c now w = evict_rounds-tasks _ c _ ∙ remove_blocks-tasks _ now w

-- Where the transaction answers, the attempt is released.
publish-released :
    (s : Store) (i a : ℕ) (block : MiddleBlock) (now : ℕ)
    (publish : Disk → Disk × Option MiddleError) (d : Disk) (b : Bool)
    → (publish_middle_block_and_complete_prefetch_task s i a block now publish d).2 ≡ ok b
    → exists_where
        (is_held i a)
        (publish_middle_block_and_complete_prefetch_task s i a block now publish d).0.prefetch_tasks
      ≡ false
publish-released s i a block now publish d b e = elim (publish_outcome s i a block now publish d) [
  | inl (h, call) ↦ rw call h
  | inr (inl (cause, held, k, call)) ↦ elim (ok_is_not_err _ cause b (ap (λ r. r.2) call) e) [ ]
  | inr (inr (held, k, call, found, released)) ↦ rw call released
]
  where
    ok_is_not_err :
        (x : Result MiddleError Bool) (cause : MiddleError) (b : Bool)
        → x ≡ err cause
        → x ≡ ok b
        → ⊥
    ok_is_not_err x cause b h k = cc

store_prefetch-released :
    (c : Cache) (f : Faults) (free : Option ℕ) (tmp i a : ℕ) (key : Text) (r : ByteRange)
    (bytes : Text) (now : ℕ) (w : World) (b : Bool)
    → (store_prefetch_block_from_reader c f free tmp i a key r bytes now w).1 ≡ ok b
    → exists_where
        (is_held i a)
        (store_prefetch_block_from_reader c f free tmp i a key r bytes now w).0.store.prefetch_tasks
      ≡ false
unfolding store_prefetch_block_from_reader
store_prefetch-released c f free tmp i a key r bytes now w b e =
    let copied = take (range_length r + 1) bytes in
    let staged = stage_files f tmp now r copied (length copied == range_length r) w.disk in
    ground (
      arith,
      publish-released w.store i a (new_record c key r now (range_length r)) now
          (publish_renames f tmp (paths key r).0 (paths key r).1) staged.0 b,
      publish-released w.store i a (new_record c key r now (range_length r)) now
          (publish_renames f tmp (paths key r).0 (paths key r).1) staged.0 (not b),
    )

finish_task-IsReleased :
    (p : PrefetchConfig) (c : Cache) (task : PrefetchTask) (now : ℕ)
    (stored : World × Result MiddleError Bool)
    → ((b : Bool) → stored.1 ≡ ok b → IsReleased task stored.0)
    → IsReleased task (finish_task p c task now stored).0
unfolding finish_task
finish_task-IsReleased p c task now (w, err e) h = fail-IsReleased task _ now _ w
finish_task-IsReleased p c task now (w, ok false) h = h false refl
finish_task-IsReleased p c task now (w, ok true) h =
    ap (exists_where (is_held task.id task.attempts)) (evictions-tasks c now w) ∙ h true refl

fetch_task-IsReleased :
    (origin : Origin) (sur : Surroundings) (p : PrefetchConfig) (c : Cache) (task : PrefetchTask)
    (now : ℕ) (url : Text) (w : World)
    → IsReleased task (fetch_task origin sur p c task now url w).0
unfolding fetch_task
fetch_task-IsReleased origin sur p c task now url w = elim (Option-cases (origin.head url)) [
  | inl e ↦ rw (e, fetch_task) (fail-IsReleased task _ now _ w)
  | inr (meta, e) ↦
      elim (Bool-cases (same_text (origin.key (source_of task url) meta) task.cache_key)) [
        | inr other ↦ rw (e, fetch_task, other) (fail-IsReleased task _ now _ w)
        | inl same ↦ elim (Option-cases (origin.open_range meta.url (task_range task) meta.size)) [
          | inl none_given ↦ rw (e, fetch_task, same, none_given) (fail-IsReleased task _ now _ w)
          | inr (body, given) ↦
              rw (e, fetch_task, same, given)
                (finish_task-IsReleased p c task now _ (
                  store_prefetch-released c sur.faults sur.free sur.tmp task.id task.attempts
                    task.cache_key (task_range task) body now w))
        ]
      ]
]

-- When the worker is done with a task, whatever the origin answered and whatever failed, the attempt
-- that was claimed is running no more.
pub run_task-IsReleased :
    (origin : Origin) (sur : Surroundings) (p : PrefetchConfig) (c : Cache) (task : PrefetchTask)
    (now : ℕ) (w : World)
    → IsReleased task (run_task origin sur p c task now w).0
unfolding run_task
run_task-IsReleased origin sur p c task now w =
    elim (Bool-cases (ltb c.max_bytes (range_length (task_range task)))) [
      | inl large ↦ rw large (skip-IsReleased task _ now _ w)
      | inr fits ↦
          elim (Option-cases
            (get_source_metadata w.store task.item_id task.media_source_id task.cache_key)) [
              | inl e ↦ rw (fits, e) (skip-IsReleased task _ now _ w)
              | inr (source, e) ↦
                  rw (fits, e) (fetch_task-IsReleased origin sur p c task now source.origin_url w)
            ]
    ]
