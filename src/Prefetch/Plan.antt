-- ===== src/Prefetch/Plan.antt =====
-- PlanMiddleRanges, planMiddleWindow, alignDown, alignUp and minPositive. Head and tail sizes are
-- positive, as ConfiguredHeadTail makes them. Where a difference falls below 0 in the source it
-- stops at 0 here: the source raises such a start to the middle's first byte.
pub mod Blocks
mod Examples
use emby_range_cache_proxy.Base.{
  ℕ, zero, suc, ◌+◌, ◌-◌, ◌*◌, ◌/◌, ◌%◌, min, max, Bool, true, false, ◌||◌, Option, none, some,
  List, [], ◌∷◌, ltb, leb, ◌==◌, if◌then◌else◌,
}
use emby_range_cache_proxy.Config.{PrefetchConfig, MiddleCacheConfig}
use emby_range_cache_proxy.Model.{ByteRange}

unfoldable pub align_down : ℕ → ℕ → ℕ
align_down value alignment = value - value % alignment

unfoldable pub align_up : ℕ → ℕ → ℕ
align_up value alignment =
    if value % alignment == 0 then value else value + alignment - value % alignment

min_positive_from : ℕ → List ℕ → ℕ
min_positive_from least [] = least
min_positive_from least (value ∷ values) =
    let rest = min_positive_from (if least == 0 || ltb value least then value else least) values in
    if value == 0 then 0 else rest

unfoldable pub min_positive : List ℕ → ℕ
unfolding min_positive_from
min_positive values = min_positive_from 0 values

-- Start and session end.
abbrev pub Window : Type 0
Window = Option (ℕ × ℕ)

-- Whole blocks behind and ahead of the block that the viewer has reached.
resume_window : ℕ → ℕ → ℕ → Option ℕ → PrefetchConfig → Window
unfolding align_down
resume_window segment head_end anchor_offset queued_until prefetch =
    let anchor_block_start = align_down anchor_offset segment in
    let session_end = anchor_block_start + (prefetch.resume_forward_blocks + 1) * segment - 1 in
    if leb anchor_offset head_end then none else elim queued_until [
      | none ↦ some (anchor_block_start - prefetch.resume_back_blocks * segment, session_end)
      | some queued ↦ some (queued + 1, session_end)
    ]

-- Where a fresh window starts: a little before the anchor, and at a block if it holds one.
fresh_start : ℕ → ℕ → ℕ → ℕ → ℕ → ℕ
unfolding align_down
fresh_start middle_start segment window_bytes anchor_offset resume_overlap_bytes =
    let overlap = min resume_overlap_bytes (window_bytes / 2) in
    let start = max (anchor_offset - overlap) middle_start in
    if ltb segment window_bytes then max (align_down start segment) middle_start else start

sized_window : ℕ → ℕ → ℕ → ℕ → ℕ → Option ℕ → PrefetchConfig → Window
unfolding min_positive fresh_start
sized_window middle_start middle_end segment head_end anchor_offset queued_until prefetch =
    let window_bytes =
      min_positive ((head_end + 1) ∷ prefetch.window_bytes ∷ prefetch.max_session_bytes ∷ []) in
    if window_bytes == 0 then none else elim queued_until [
      | none ↦
          let start =
            fresh_start middle_start segment window_bytes anchor_offset
              prefetch.resume_overlap_bytes in
          if leb anchor_offset head_end
          then none
          else some (start, min (start + window_bytes - 1) middle_end)
      | some queued ↦
          let start = max (queued + 1) middle_start in
          some (start, min (start + window_bytes - 1) middle_end)
    ]

unfoldable pub plan_middle_window : ℕ → ℕ → ℕ → ℕ → ℕ → Option ℕ → PrefetchConfig → Window
unfolding resume_window sized_window
plan_middle_window middle_start middle_end segment head_end anchor_offset queued_until prefetch =
    if ltb 0 prefetch.resume_back_blocks || ltb 0 prefetch.resume_forward_blocks
    then resume_window segment head_end anchor_offset queued_until prefetch
    else sized_window middle_start middle_end segment head_end anchor_offset queued_until prefetch

-- The last byte of the block that `current` stands in.
segment_last : ℕ → ℕ → ℕ
unfolding align_up
segment_last current segment =
    if current % segment == 0 then current + segment - 1 else align_up current segment - 1

-- The end of the range that a round appends.
unfoldable pub round_end : ℕ → ℕ → ℕ → ℕ → ℕ
unfolding segment_last
round_end middle_end session_end segment current =
    min (min (segment_last current segment) session_end) middle_end

-- `for current <= sessionEnd`, on fuel: each round moves `current` on by a byte at least.
unfoldable pub plan_blocks : ℕ → ℕ → ℕ → ℕ → ℕ → ℕ → List ByteRange
plan_blocks zero middle_start middle_end session_end segment current = []
plan_blocks (suc f) middle_start middle_end session_end segment current =
    let end = round_end middle_end session_end segment current in
    let rest = plan_blocks f middle_start middle_end session_end segment (end + 1) in
    let kept = record { start = max current middle_start; end = end } ∷ rest in
    if leb current session_end
    then (if leb middle_start end then (if leb current middle_end then kept else rest) else rest)
    else []

unfoldable pub plan_clipped : ℕ → ℕ → ℕ → Window → List ByteRange
plan_clipped middle_start middle_end segment none = []
plan_clipped middle_start middle_end segment (some (start, session_end)) =
    let first = max start middle_start in
    let last = min session_end middle_end in
    if ltb last first
    then []
    else plan_blocks (last + 1 - first) middle_start middle_end last segment first

-- `middleStart > middleEnd` is written `tail_start <= middle_start`: the middle's end is one less.
unfoldable pub plan_middle_ranges :
    ℕ → ℕ → ℕ → ℕ → Option ℕ → PrefetchConfig → MiddleCacheConfig → List ByteRange
plan_middle_ranges media_size head_size tail_size anchor_offset queued_until prefetch middle_cache =
    let segment = middle_cache.segment_bytes in
    let head_end = min (head_size - 1) (media_size - 1) in
    let tail_start = media_size - tail_size in
    let middle_start = head_end + 1 in
    let middle_end = tail_start - 1 in
    if segment == 0
    then []
    else if leb tail_start middle_start
    then []
    else plan_clipped middle_start middle_end segment (
        plan_middle_window middle_start middle_end segment head_end anchor_offset queued_until
          prefetch)
