-- ===== src/Middle/Reads.antt =====
-- coveringSpans, streamSpan and IterBlock of go/internal/middle/middle.go.
pub mod Tiles
pub mod Rows
pub mod Whole
pub mod Slices
pub mod Effects
use emby_range_cache_proxy.Base.{
  ℕ, zero, suc, ◌+◌, ◌-◌, Bool, true, false, not, ◌&&◌, ◌||◌, Option, none, some, List, [], ◌∷◌,
  ◌++◌, Result, ok, err, ltb, leb, ◌==◌, if◌then◌else◌, min, drop,
}
use emby_range_cache_proxy.Base.Texts.{Text}
use emby_range_cache_proxy.Model.{ByteRange, range_length}
use emby_range_cache_proxy.Disk.{content_at}
use emby_range_cache_proxy.Disk.Chunks.{read_chunks}
use emby_range_cache_proxy.HeadTail.{CacheError, invalid_range, invalid_chunk_bytes, valid_key}
use emby_range_cache_proxy.State.{MiddleBlock, Store}
use emby_range_cache_proxy.State.Blocks.{
  find_middle_blocks, touch_middle_block, delete_middle_block_record,
}
use emby_range_cache_proxy.Middle.{
  Cache, World, Span, record_paths, valid_record, valid_files, remove_block,
}

abbrev pub has_valid_files : MiddleBlock → World → Bool
has_valid_files row w = valid_files row (record_paths row).0 (record_paths row).1 w.disk

-- A row is put before the spans that cover what is left.
abbrev pub prepend : Span → World × Option (List Span) → World × Option (List Span)
prepend span (w, none) = (w, none)
prepend span (w, some spans) = (w, some (span ∷ spans))

-- The rows are looked at in the order of their starts; `expected` is the first byte that no span
-- covers yet. A row that cannot be used is removed, and ends the search.
unfoldable pub covering_spans :
    List MiddleBlock → ℕ → ByteRange → ℕ → World → World × Option (List Span)
covering_spans [] expected requested now w = (w, none)
covering_spans (row ∷ rows) expected requested now w =
    let skipped = covering_spans rows expected requested now w in
    let span_end = min row.end requested.end in
    let span : Span = record {
      row = row;
      byte_range = record { start = expected; end = span_end };
    } in
    let next = covering_spans rows (span_end + 1) requested now w in
    if ltb row.end expected
    then skipped
    else if ltb expected row.start
    then (w, none)
    else if not (valid_record row)
    then (
      record w { store = delete_middle_block_record w.store row.cache_key row.start row.end },
      none,
    )
    else if leb row.expires_at now || not (has_valid_files row w)
    then (remove_block row w, none)
    else if leb requested.end span_end
    then (w, some (span ∷ []))
    else prepend span next

-- `opens` says of a row that os.Open and Seek work on its file.
unfoldable pub stream_span : (MiddleBlock → Bool) → ℕ → Span → World → World × List Text × Bool
stream_span opens chunk_bytes span w =
    let n = range_length span.byte_range in
    elim (content_at (record_paths span.row).0 w.disk) [
      | none ↦ (remove_block span.row w, [], false)
      | some content ↦
          let (chunks, whole) =
            read_chunks n n chunk_bytes (drop (span.byte_range.start - span.row.start) content) in
          if not (opens span.row)
          then (remove_block span.row w, [], false)
          else (if whole then w else remove_block span.row w, chunks, whole)
    ]

-- The spans one after another, up to the first that fails.
unfoldable pub stream_spans :
    (MiddleBlock → Bool) → ℕ → List Span → World → World × List Text × Bool
stream_spans opens chunk_bytes [] w = (w, [], true)
stream_spans opens chunk_bytes (span ∷ spans) w =
    let (w', chunks, whole) = stream_span opens chunk_bytes span w in
    let (w'', rest, all_whole) = stream_spans opens chunk_bytes spans w' in
    if whole then (w'', chunks ++ rest, all_whole) else (w', chunks, false)

abbrev pub touch_spans : Cache → List Span → ℕ → Store → Store
touch_spans c [] now s = s
touch_spans c (span ∷ spans) now s =
    touch_spans c spans now
      (touch_middle_block s span.row.cache_key span.row.start span.row.end now c.ttl_seconds)

abbrev pub answer_spans :
    Cache
    → (MiddleBlock → Bool)
    → ℕ
    → ℕ
    → World × Option (List Span)
    → World × Result CacheError (Option (List Text))
answer_spans c opens chunk_bytes now (w, none) = (w, ok none)
answer_spans c opens chunk_bytes now (w, some spans) =
    let (w', chunks, whole) =
      stream_spans opens chunk_bytes spans (record w { store = touch_spans c spans now w.store }) in
    (w', ok (some chunks))

unfoldable pub iter_block :
    Cache
    → (MiddleBlock → Bool)
    → Text
    → ByteRange
    → ℕ
    → ℕ
    → World
    → World × Result CacheError (Option (List Text))
iter_block c opens key requested chunk_bytes now w =
    let rows = find_middle_blocks w.store key requested in
    if chunk_bytes == 0
    then (w, err invalid_chunk_bytes)
    else if not (valid_key key) || ltb requested.end requested.start
    then (w, err invalid_range)
    else answer_spans c opens chunk_bytes now (covering_spans rows requested.start requested now w)
