-- ===== src/Middle/Evict.antt =====
-- EvictExpired and EvictLRUIfNeeded of go/internal/middle/middle.go.
use emby_range_cache_proxy.Base.{
  ℕ, zero, suc, ◌≤◌, ◌<◌, ◌≡◌, refl, sym, ◌∙◌, Bool, true, ◌&&◌, ◌||◌, List, [], ◌∷◌, arith, leb,
  if◌then◌else◌, length, All, Bool-cases, List-cases, inl, inr, subst,
}
use emby_range_cache_proxy.Base.Tables.{
  select_where, delete_where, exists_where, order_by, insert_by, sum_of, All-order_by,
}
use emby_range_cache_proxy.Base.Texts.{same_text_refl}
use emby_range_cache_proxy.State.{MiddleBlock, Store}
use emby_range_cache_proxy.State.Blocks.{
  is_block, expired_middle_blocks, expires_before, least_recent_middle_blocks, used_before,
  delete_middle_block_record, middle_cache_bytes,
}
use emby_range_cache_proxy.State.Blocks.Rows.{length-delete_block}
use emby_range_cache_proxy.Middle.{Cache, World, remove_block}

-- Removals in the order of the list; each removed row counts.
unfoldable pub remove_blocks : List MiddleBlock → ℕ → World → World
remove_blocks [] now w = w
remove_blocks (row ∷ rows) now w =
    remove_blocks rows now (if leb row.expires_at now then remove_block row w else w)

unfoldable pub evict_expired : ℕ → World → World × ℕ
evict_expired now w =
    let rows = expired_middle_blocks w.store now in
    (remove_blocks rows now w, length (select_where (λ row. leb row.expires_at now) rows))

-- The loop on fuel; a removal makes the table shorter, so a round for each row is enough.
unfoldable pub evict_rounds : ℕ → Cache → World → World × ℕ
evict_rounds zero c w = (w, 0)
evict_rounds (suc f) c w = elim (least_recent_middle_blocks w.store) [
  | [] ↦ (w, 0)
  | row ∷ rows ↦
      let (w', removed) = evict_rounds f c (remove_block row w) in
      if leb (middle_cache_bytes w.store) c.max_bytes then (w, 0) else (w', suc removed)
]

unfoldable pub evict_lru_if_needed : Cache → World → World × ℕ
evict_lru_if_needed c w = evict_rounds (length w.store.middle_blocks) c w

abbrev is_own : MiddleBlock → MiddleBlock → Bool
is_own row = is_block row.cache_key row.start row.end

own_exists :
    (rows whole : List MiddleBlock)
    → ((row : MiddleBlock)
        → exists_where (is_own row) rows ≡ true
        → exists_where (is_own row) whole ≡ true)
    → All (λ row. exists_where (is_own row) whole ≡ true) rows
own_exists [] whole h = tt
own_exists (row ∷ rows) whole h = (
  h row (ground (arith, same_text_refl row.cache_key)),
  own_exists rows whole (λ r e. h r (ground (arith, e))),
)

least_recent-exists :
    (s : Store) (row : MiddleBlock) (rows : List MiddleBlock)
    → least_recent_middle_blocks s ≡ row ∷ rows
    → exists_where (is_own row) s.middle_blocks ≡ true
unfolding least_recent_middle_blocks
least_recent-exists s row rows e =
    (rw e at (
      All-order_by (λ r. exists_where (is_own r) s.middle_blocks ≡ true) used_before s.middle_blocks
        (own_exists s.middle_blocks s.middle_blocks (λ r h. h)))).0

remove_block-shorter :
    (row : MiddleBlock) (w : World)
    → exists_where (is_own row) w.store.middle_blocks ≡ true
    → length (remove_block row w).store.middle_blocks < length w.store.middle_blocks
unfolding remove_block delete_middle_block_record
remove_block-shorter row w h = length-delete_block row w.store.middle_blocks h

order_by-nil :
    (before : MiddleBlock → MiddleBlock → Bool) (rows : List MiddleBlock)
    → order_by before rows ≡ []
    → rows ≡ []
unfolding order_by insert_by
order_by-nil before [] e = refl
order_by-nil before (row ∷ rows) e = nonempty (order_by before rows) e
  where
    nonempty : (sorted : List MiddleBlock) → insert_by before row sorted ≡ [] → row ∷ rows ≡ []
    nonempty [] k = cc
    nonempty (r ∷ sorted) k = ground (arith, k)

empty-fits : (s : Store) (n : ℕ) → least_recent_middle_blocks s ≡ [] → middle_cache_bytes s ≤ n
unfolding least_recent_middle_blocks middle_cache_bytes
empty-fits s n e = rw (order_by-nil used_before s.middle_blocks e) (omega arith)

no_rows-fits : (s : Store) (n : ℕ) → length s.middle_blocks ≤ 0 → middle_cache_bytes s ≤ n
unfolding middle_cache_bytes
no_rows-fits s n h = sum_small s.middle_blocks h
  where
    sum_small : (rows : List MiddleBlock) → length rows ≤ 0 → sum_of (λ b. b.size) rows ≤ n
    sum_small [] k = omega arith
    sum_small (r ∷ rows) k = omega arith

evict_rounds-fits :
    (f : ℕ) (c : Cache) (w : World)
    → length w.store.middle_blocks ≤ f
    → middle_cache_bytes (evict_rounds f c w).0.store ≤ c.max_bytes
unfolding evict_rounds
evict_rounds-fits zero c w h = no_rows-fits w.store c.max_bytes h
evict_rounds-fits (suc f) c w h = elim (List-cases (least_recent_middle_blocks w.store)) [
  | inl e ↦ rw (e, evict_rounds) (empty-fits w.store c.max_bytes e)
  | inr (row, rows, e) ↦ elim (Bool-cases (leb (middle_cache_bytes w.store) c.max_bytes)) [
    | inl fits ↦ rw (e, evict_rounds, fits) (ground arith)
    | inr over ↦
        let shorter = remove_block-shorter row w (least_recent-exists w.store row rows e) in
        rw (e, evict_rounds, over) (evict_rounds-fits f c (remove_block row w) (omega arith))
  ]
]

-- EvictLRUIfNeeded ends, after at most as many rounds as there are rows, with no more bytes in the
-- table than the limit.
pub evict_lru_if_needed-fits :
    (c : Cache) (w : World) → middle_cache_bytes (evict_lru_if_needed c w).0.store ≤ c.max_bytes
unfolding evict_lru_if_needed
evict_lru_if_needed-fits c w = evict_rounds-fits (length w.store.middle_blocks) c w (omega arith)

-- A row that has expired is among those that are still to be removed.
abbrev Pending : ℕ → List MiddleBlock → MiddleBlock → Type 0
Pending now rows b =
    leb b.expires_at now ≡ true → exists_where (λ r. is_own r b && leb r.expires_at now) rows ≡ true

Pending-remove_block :
    (now : ℕ) (row : MiddleBlock) (rows blocks : List MiddleBlock)
    → All (Pending now (row ∷ rows)) blocks
    → All
        (Pending now rows)
        (if leb row.expires_at now then delete_where (is_own row) blocks else blocks)
Pending-remove_block now row rows [] h = elim (Bool-cases (leb row.expires_at now)) [
  | inl e ↦ rw e tt
  | inr e ↦ rw e tt
]
Pending-remove_block now row rows (b ∷ blocks) h =
    let rest = Pending-remove_block now row rows blocks h.1 in
    let own = h.0 in
    elim (Bool-cases (leb row.expires_at now)) [
      | inr e ↦ rw e ((λ k. ground (arith, own k, e)), rw e at rest)
      | inl e ↦ elim (Bool-cases (is_own row b)) [
        | inl o ↦ rw (e, o) (rw e at rest)
        | inr o ↦ rw (e, o) ((λ k. ground (arith, own k, o)), rw e at rest)
      ]
    ]

abbrev IsFresh : ℕ → MiddleBlock → Type 0
IsFresh now b = now < b.expires_at

remove_blocks-IsFresh :
    (rows : List MiddleBlock) (now : ℕ) (w : World)
    → All (Pending now rows) w.store.middle_blocks
    → All (IsFresh now) (remove_blocks rows now w).store.middle_blocks
unfolding remove_blocks remove_block delete_middle_block_record
remove_blocks-IsFresh [] now w h = fresh w.store.middle_blocks h
  where
    fresh : (blocks : List MiddleBlock) → All (Pending now []) blocks → All (IsFresh now) blocks
    fresh [] k = tt
    fresh (b ∷ blocks) k = (ground (arith, k.0), fresh blocks k.1)
remove_blocks-IsFresh (row ∷ rows) now w h =
    let after = λ (b : Bool). remove_blocks rows now (if b then remove_block row w else w) in
    let left = Pending-remove_block now row rows w.store.middle_blocks h in
    elim (Bool-cases (leb row.expires_at now)) [
      | inl e ↦
          subst (λ b. All (IsFresh now) (after b).store.middle_blocks) (sym e)
            (remove_blocks-IsFresh rows now (remove_block row w) (rw e at left))
      | inr e ↦
          subst (λ b. All (IsFresh now) (after b).store.middle_blocks) (sym e)
            (remove_blocks-IsFresh rows now w (rw e at left))
    ]

exists_where-insert_by :
    (p : MiddleBlock → Bool) (before : MiddleBlock → MiddleBlock → Bool) (row : MiddleBlock)
    (rows : List MiddleBlock)
    → exists_where p (insert_by before row rows) ≡ (p row || exists_where p rows)
unfolding insert_by
exists_where-insert_by p before row [] = refl
exists_where-insert_by p before row (r ∷ rows) = elim (Bool-cases (before r row)) [
  | inl e ↦ rw e (ground (arith, exists_where-insert_by p before row rows))
  | inr e ↦ rw e refl
]

exists_where-order_by :
    (p : MiddleBlock → Bool) (before : MiddleBlock → MiddleBlock → Bool) (rows : List MiddleBlock)
    → exists_where p (order_by before rows) ≡ exists_where p rows
unfolding order_by
exists_where-order_by p before [] = refl
exists_where-order_by p before (row ∷ rows) =
    exists_where-insert_by p before row (order_by before rows)
    ∙ (rw (exists_where-order_by p before rows) refl)

-- Expired rows are selected.
Pending-select :
    (now : ℕ) (rows whole : List MiddleBlock)
    → ((p : MiddleBlock → Bool)
        → exists_where p (select_where (λ b. leb b.expires_at now) rows) ≡ true
        → exists_where p (select_where (λ b. leb b.expires_at now) whole) ≡ true)
    → All (Pending now (select_where (λ b. leb b.expires_at now) whole)) rows
Pending-select now [] whole h = tt
Pending-select now (b ∷ rows) whole h = (
  (λ e.
      h (λ r. is_own r b && leb r.expires_at now)
        (rw e (ground (arith, e, same_text_refl b.cache_key)))),
  Pending-select now rows whole (λ p e. h p (ground (arith, e))),
)

Pending-order_by :
    (now : ℕ) (before : MiddleBlock → MiddleBlock → Bool) (rows blocks : List MiddleBlock)
    → All (Pending now rows) blocks
    → All (Pending now (order_by before rows)) blocks
Pending-order_by now before rows [] h = tt
Pending-order_by now before rows (b ∷ blocks) h = (
  (λ e. exists_where-order_by (λ r. is_own r b && leb r.expires_at now) before rows ∙ h.0 e),
  Pending-order_by now before rows blocks h.1,
)

-- After EvictExpired no row of the table has expired.
pub evict_expired-IsFresh :
    (now : ℕ) (w : World)
    → All (λ b. now < b.expires_at) (evict_expired now w).0.store.middle_blocks
unfolding evict_expired expired_middle_blocks
evict_expired-IsFresh now w = remove_blocks-IsFresh (expired_middle_blocks w.store now) now w (
    Pending-order_by now expires_before
      (select_where (λ b. leb b.expires_at now) w.store.middle_blocks) w.store.middle_blocks
      (Pending-select now w.store.middle_blocks w.store.middle_blocks (λ p e. e)))
