-- ===== src/State/Blocks/Rows.antt =====
-- Rows of middle_blocks found by their key; what a write, a touch and a removal do to them.
use emby_range_cache_proxy.Base.{
  ℕ, suc, ◌<◌, ◌≡◌, refl, ap, ◌∙◌, Bool, true, false, Option, none, some, List, [], ◌∷◌, ◌++◌,
  arith, if◌then◌else◌, Bool-cases, inl, inr, length,
}
use emby_range_cache_proxy.Base.Tables.{update_where, delete_where, exists_where, first_where}
use emby_range_cache_proxy.Base.Texts.{Text, same_text_iff}
use emby_range_cache_proxy.State.{MiddleBlock}
use emby_range_cache_proxy.State.Blocks.{is_block, upsert_row}

abbrev pub block_at : Text → ℕ → ℕ → List MiddleBlock → Option MiddleBlock
block_at cache_key start end blocks = first_where (is_block cache_key start end) blocks

-- The row of a block is its key and what was last written.
replaced-eq :
    (block b : MiddleBlock)
    → is_block block.cache_key block.start block.end b ≡ true
    → record b {
      path = block.path;
      size = block.size;
      created_at = block.created_at;
      last_access_at = block.last_access_at;
      expires_at = block.expires_at;
    }
      ≡ block
replaced-eq block b h = ground (arith, same_text_iff b.cache_key block.cache_key)

abbrev put : MiddleBlock → MiddleBlock → MiddleBlock
put block b = record b {
  path = block.path;
  size = block.size;
  created_at = block.created_at;
  last_access_at = block.last_access_at;
  expires_at = block.expires_at;
}

module _ (cache_key : Text) (start end : ℕ) (block : MiddleBlock) where
  abbrev is_own : MiddleBlock → Bool
  is_own = is_block block.cache_key block.start block.end

  -- A row of the written block is asked for exactly if the written block is.
  is_block-own :
      (b : MiddleBlock)
      → is_own b ≡ true
      → is_block cache_key start end b ≡ is_block cache_key start end block
  is_block-own b h = ground (arith, same_text_iff b.cache_key block.cache_key)

  block_at-put_other :
      (blocks : List MiddleBlock)
      → is_block cache_key start end block ≡ false
      → block_at cache_key start end (update_where is_own (put block) blocks)
        ≡ block_at cache_key start end blocks
  block_at-put_other [] h = refl
  block_at-put_other (b ∷ blocks) h = elim (Bool-cases (is_own b)) [
    | inl own ↦
        let miss : is_block cache_key start end b ≡ false = is_block-own b own ∙ h in
        rw (own, miss) (block_at-put_other blocks h)
    | inr other ↦ rw other (
        ap (λ o. if is_block cache_key start end b then some b else o)
          (block_at-put_other blocks h))
  ]

  block_at-put_self :
      (blocks : List MiddleBlock)
      → is_block cache_key start end block ≡ true
      → exists_where is_own blocks ≡ true
      → block_at cache_key start end (update_where is_own (put block) blocks) ≡ some block
  block_at-put_self [] h k = cc
  block_at-put_self (b ∷ blocks) h k = elim (Bool-cases (is_own b)) [
    | inl own ↦
        let hit : is_block cache_key start end b ≡ true = is_block-own b own ∙ h in
        rw (own, hit) (ap some (replaced-eq block b own))
    | inr other ↦
        let miss : is_block cache_key start end b ≡ false = ground (
          arith,
          same_text_iff b.cache_key block.cache_key,
          same_text_iff b.cache_key cache_key,
          same_text_iff block.cache_key cache_key,
        ) in
        rw (other, miss) (block_at-put_self blocks h (ground arith))
  ]

  block_at-snoc :
      (blocks : List MiddleBlock)
      → exists_where is_own blocks ≡ false
      → block_at cache_key start end (blocks ++ block ∷ []) ≡ (
          if is_block cache_key start end block
          then some block
          else block_at cache_key start end blocks)
  block_at-snoc [] h = refl
  block_at-snoc (b ∷ blocks) h = ground (
    arith,
    block_at-snoc blocks,
    same_text_iff b.cache_key block.cache_key,
    same_text_iff b.cache_key cache_key,
    same_text_iff block.cache_key cache_key,
  )

  -- After a write the block is found as written, and every other block as before.
  pub block_at-upsert_row :
      (blocks : List MiddleBlock)
      → block_at cache_key start end (upsert_row block blocks) ≡ (
          if is_block cache_key start end block
          then some block
          else block_at cache_key start end blocks)
  block_at-upsert_row blocks = elim (Bool-cases (exists_where is_own blocks)) [
    | inl old ↦ rw old (elim (Bool-cases (is_block cache_key start end block)) [
      | inl e ↦ rw e (block_at-put_self blocks e old)
      | inr e ↦ rw e (block_at-put_other blocks e)
    ])
    | inr new ↦ rw new (block_at-snoc blocks new)
  ]

  pub block_at-delete :
      (blocks : List MiddleBlock)
      → is_block cache_key start end block ≡ false
      → block_at cache_key start end (delete_where is_own blocks)
        ≡ block_at cache_key start end blocks
  block_at-delete [] h = refl
  block_at-delete (b ∷ blocks) h = ground (arith, block_at-delete blocks, is_block-own b)

-- A removed block is not found any more.
pub block_at-delete_self :
    (cache_key : Text) (start end : ℕ) (blocks : List MiddleBlock)
    → block_at cache_key start end (delete_where (is_block cache_key start end) blocks) ≡ none
block_at-delete_self cache_key start end [] = refl
block_at-delete_self cache_key start end (b ∷ blocks) =
    ground (arith, block_at-delete_self cache_key start end blocks)

length-delete-le :
    (b : MiddleBlock) (blocks : List MiddleBlock)
    → length (delete_where (is_block b.cache_key b.start b.end) blocks) < suc (length blocks)
length-delete-le b [] = omega arith
length-delete-le b (c ∷ blocks) = ground (arith, length-delete-le b blocks)

-- A removal makes the table shorter.
pub length-delete_block :
    (b : MiddleBlock) (blocks : List MiddleBlock)
    → exists_where (is_block b.cache_key b.start b.end) blocks ≡ true
    → length (delete_where (is_block b.cache_key b.start b.end) blocks) < length blocks
length-delete_block b [] h = cc
length-delete_block b (c ∷ blocks) h = elim (Bool-cases (is_block b.cache_key b.start b.end c)) [
  | inl e ↦ rw e (length-delete-le b blocks)
  | inr e ↦ rw e (omega (arith, length-delete_block b blocks (ground arith)))
]
