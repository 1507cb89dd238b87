-- ===== src/State/Blocks.antt =====
-- The table middle_blocks, and ReusablePrefetchRanges, which reads it beside prefetch_tasks.
pub mod Rows
use emby_range_cache_proxy.Base.{
  ℕ, ◌+◌, Bool, true, false, ◌&&◌, ◌||◌, Option, none, some, List, [], ◌∷◌, ◌++◌, map, ltb, leb,
  ◌==◌, if◌then◌else◌,
}
use emby_range_cache_proxy.Base.Tables.{
  select_where, update_where, delete_where, exists_where, first_where, order_by, sum_of,
}
use emby_range_cache_proxy.Base.Texts.{Text, same_text, text_ltb}
use emby_range_cache_proxy.Model.{ByteRange}
use emby_range_cache_proxy.State.{MiddleBlock, PrefetchTask, Store}
use emby_range_cache_proxy.State.Tasks.{is_open}

abbrev pub is_block : Text → ℕ → ℕ → MiddleBlock → Bool
is_block cache_key start end b =
    same_text b.cache_key cache_key && (b.start == start && b.end == end)

-- INSERT, or UPDATE of all the other columns where the primary key is taken.
abbrev pub upsert_row : MiddleBlock → List MiddleBlock → List MiddleBlock
upsert_row block blocks =
    if exists_where (is_block block.cache_key block.start block.end) blocks
    then update_where (is_block block.cache_key block.start block.end)
        (λ b. record b {
          path = block.path;
          size = block.size;
          created_at = block.created_at;
          last_access_at = block.last_access_at;
          expires_at = block.expires_at;
        })
        blocks
    else blocks ++ block ∷ []

unfoldable pub upsert_middle_block : Store → MiddleBlock → Store
upsert_middle_block s block = record s { middle_blocks = upsert_row block s.middle_blocks }

-- `ORDER BY start ASC, end ASC`
unfoldable pub block_before : MiddleBlock → MiddleBlock → Bool
block_before a b = ltb a.start b.start || (a.start == b.start && ltb a.end b.end)

-- `ORDER BY start DESC, end ASC`
unfoldable pub later_before : MiddleBlock → MiddleBlock → Bool
later_before a b = ltb b.start a.start || (a.start == b.start && ltb a.end b.end)

abbrev pub head_row : List MiddleBlock → Option MiddleBlock
head_row [] = none
head_row (b ∷ blocks) = some b

unfoldable pub find_middle_block : Store → Text → ByteRange → Option MiddleBlock
unfolding later_before
find_middle_block s cache_key r = head_row (
    order_by later_before (
      select_where
        (λ b. same_text b.cache_key cache_key && (leb b.start r.start && leb r.end b.end))
        s.middle_blocks))

abbrev pub overlaps : Text → ByteRange → MiddleBlock → Bool
overlaps cache_key r b = same_text b.cache_key cache_key && (leb b.start r.end && leb r.start b.end)

unfoldable pub find_middle_blocks : Store → Text → ByteRange → List MiddleBlock
find_middle_blocks s cache_key r =
    order_by block_before (select_where (overlaps cache_key r) s.middle_blocks)

unfoldable pub touch_middle_block : Store → Text → ℕ → ℕ → ℕ → ℕ → Store
touch_middle_block s cache_key start end now ttl_seconds = record s {
  middle_blocks =
      update_where (is_block cache_key start end)
        (λ b. record b { last_access_at = now; expires_at = now + ttl_seconds }) s.middle_blocks;
}

-- `cache_key ASC, start ASC, end ASC`, behind a time stamp.
abbrev pub stamp_before : ℕ → ℕ → MiddleBlock → MiddleBlock → Bool
stamp_before at bt a b =
    ltb at bt
    || (at == bt
        && (text_ltb a.cache_key b.cache_key
            || (same_text a.cache_key b.cache_key
                && (ltb a.start b.start || (a.start == b.start && ltb a.end b.end)))))

unfoldable pub expires_before : MiddleBlock → MiddleBlock → Bool
expires_before a b = stamp_before a.expires_at b.expires_at a b

unfoldable pub used_before : MiddleBlock → MiddleBlock → Bool
used_before a b = stamp_before a.last_access_at b.last_access_at a b

unfoldable pub expired_middle_blocks : Store → ℕ → List MiddleBlock
unfolding expires_before
expired_middle_blocks s now =
    order_by expires_before (select_where (λ b. leb b.expires_at now) s.middle_blocks)

unfoldable pub least_recent_middle_blocks : Store → List MiddleBlock
least_recent_middle_blocks s = order_by used_before s.middle_blocks

unfoldable pub delete_middle_block_record : Store → Text → ℕ → ℕ → Store
delete_middle_block_record s cache_key start end = record s {
  middle_blocks = delete_where (is_block cache_key start end) s.middle_blocks;
}

unfoldable pub middle_cache_bytes : Store → ℕ
middle_cache_bytes s = sum_of (λ b. b.size) s.middle_blocks

unfoldable pub range_before : ByteRange → ByteRange → Bool
range_before a b = ltb a.start b.start || (a.start == b.start && ltb a.end b.end)

-- UNION ALL of the blocks and of the open tasks that meet the range.
unfoldable pub reusable_prefetch_ranges : Store → Text → ByteRange → List ByteRange
unfolding range_before is_open
reusable_prefetch_ranges s cache_key r = order_by range_before (
    map (λ b. record { start = b.start; end = b.end })
      (select_where (overlaps cache_key r) s.middle_blocks)
    ++ map (λ t. record { start = t.start; end = t.end })
        (select_where
          (λ t.
            same_text t.cache_key cache_key
            && (leb t.start r.end && leb r.start t.end)
            && is_open t)
          s.prefetch_tasks))
