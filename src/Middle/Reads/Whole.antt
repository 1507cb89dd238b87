-- ===== src/Middle/Reads/Whole.antt =====
-- What IterBlock sends: the bytes of the spans, all of them.
use emby_range_cache_proxy.Base.{
  ℕ, ◌+◌, ◌-◌, ◌≤◌, ◌<◌, ◌≡◌, refl, sym, ap, ap₂, subst, ◌∙◌, Bool, true, false, Option, none, some,
  List, [], ◌∷◌, ◌++◌, Result, ok, err, arith, if◌then◌else◌, drop, length, length-append, All,
  All-append, Option-cases, inl, inr, length-drop, length-take, take,
}
use mathlib.Core.List.{append_assoc}
use emby_range_cache_proxy.Base.Texts.{Text}
use emby_range_cache_proxy.Model.{ByteRange, range_length}
use emby_range_cache_proxy.Model.Intervals.{Tiles, Tiles-le}
use emby_range_cache_proxy.Disk.{Disk, content_at}
use emby_range_cache_proxy.Disk.Chunks.{concat, IsChunk, read_chunks-concat}
use emby_range_cache_proxy.HeadTail.{CacheError}
use emby_range_cache_proxy.State.{MiddleBlock, Store}
use emby_range_cache_proxy.State.Blocks.{find_middle_blocks}
use emby_range_cache_proxy.Middle.{Cache, World, Span, record_paths, valid_record, valid_files}
use emby_range_cache_proxy.Middle.Reads.{
  covering_spans, stream_span, stream_spans, touch_spans, answer_spans, iter_block,
}
use emby_range_cache_proxy.Middle.Reads.Rows.{
  IsListed, SpanRows, FoundRows, find_middle_blocks-IsListed, covering_spans-FoundRows,
}
use emby_range_cache_proxy.Middle.Reads.Tiles.{
  IsServable, ranges_of, Covered, covering_spans-Covered,
}

abbrev pub part_of : Span → Option Text → Text
part_of span none = []
part_of span (some content) =
    take (range_length span.byte_range) (drop (span.byte_range.start - span.row.start) content)

-- The bytes that the files hold for these spans.
abbrev pub bytes_of : Disk → List Span → Text
bytes_of d [] = []
bytes_of d (span ∷ spans) =
    part_of span (content_at (record_paths span.row).0 d) ++ bytes_of d spans

pub servable-content :
    (now : ℕ) (w : World) (span : Span)
    → IsServable now w span
    → (content : Text) × (content_at (record_paths span.row).0 w.disk ≡ some content)
      × (length content ≡ span.row.end - span.row.start + 1)
unfolding valid_files valid_record
servable-content now w span s = elim (Option-cases (content_at (record_paths span.row).0 w.disk)) [
  | inl e ↦ elim (the_false (ground (arith, s.on_disk, e))) [ ]
  | inr (content, e) ↦ (content, e, ground (arith, s.on_disk, s.valid, e))
]
  where
    the_false : true ≡ false → ⊥
    the_false e = cc

abbrev pub Sent : ℕ → World → Text → World × List Text × Bool → Type 0
Sent chunk_bytes w bytes (w', chunks, whole) =
    (w' ≡ w) × (concat chunks ≡ bytes) × All (IsChunk chunk_bytes) chunks × (whole ≡ true)

stream_span-Sent :
    (opens : MiddleBlock → Bool) (chunk_bytes now : ℕ) (span : Span) (w : World)
    → opens span.row ≡ true
    → 0 < chunk_bytes
    → span.byte_range.start ≤ span.byte_range.end
    → IsServable now w span
    → Sent chunk_bytes w
        (part_of span (content_at (record_paths span.row).0 w.disk))
        (stream_span opens chunk_bytes span w)
unfolding stream_span
stream_span-Sent opens chunk_bytes now span w h pos k s =
    let (content, e, size) = servable-content now w span s in
    let n = range_length span.byte_range in
    let from = s.from in
    let upto = s.upto in
    let (same, whole, chunks) =
      read_chunks-concat n n chunk_bytes (drop (span.byte_range.start - span.row.start) content) pos
        (omega arith)
        (omega (arith, size, length-drop (span.byte_range.start - span.row.start) content)) in
    rw (e, stream_span, h, whole) (refl, same, chunks, refl)

concat-append : (xs ys : List Text) → concat (xs ++ ys) ≡ concat xs ++ concat ys
concat-append [] ys = refl
concat-append (x ∷ xs) ys =
    ap (◌++◌ x) (concat-append xs ys) ∙ sym (append_assoc x (concat xs) (concat ys))

-- The spans one after another, the world unchanged after each.
append-Sent :
    (chunk_bytes : ℕ) (w w' : World) (bytes more : Text) (chunks : List Text) (whole : Bool)
    (next : World → World × List Text × Bool)
    → Sent chunk_bytes w bytes (w', chunks, whole)
    → Sent chunk_bytes w more (next w)
    → Sent chunk_bytes w
        (bytes ++ more)
        (if whole then ((next w').0, chunks ++ (next w').1, (next w').2) else (w', chunks, false))
append-Sent chunk_bytes w w' bytes more chunks whole next (same, bytes_eq, ok_chunks, done)
      (same', more_eq, ok_more, done') =
    rw (done, same)
      (
        same',
        concat-append chunks (next w).1 ∙ ap₂ (λ a b. a ++ b) bytes_eq more_eq,
        All-append (IsChunk chunk_bytes) chunks (next w).1 ok_chunks ok_more,
        done',
      )

pub stream_spans-Sent :
    (spans : List Span) (opens : MiddleBlock → Bool) (chunk_bytes now lo stop : ℕ) (w : World)
    → ((row : MiddleBlock) → opens row ≡ true)
    → 0 < chunk_bytes
    → Tiles lo stop (ranges_of spans)
    → All (IsServable now w) spans
    → Sent chunk_bytes w (bytes_of w.disk spans) (stream_spans opens chunk_bytes spans w)
unfolding stream_spans
stream_spans-Sent [] opens chunk_bytes now lo stop w h pos tiles servable = (refl, refl, tt, refl)
stream_spans-Sent (span ∷ spans) opens chunk_bytes now lo stop w h pos (_, k, tiles) (s, servable) =
    let (w', chunks, whole) = stream_span opens chunk_bytes span w in
    append-Sent chunk_bytes w w' (part_of span (content_at (record_paths span.row).0 w.disk))
      (bytes_of w.disk spans) chunks whole (stream_spans opens chunk_bytes spans)
      (stream_span-Sent opens chunk_bytes now span w (h span.row) pos k s)
      (stream_spans-Sent spans opens chunk_bytes now (span.byte_range.end + 1) stop w h pos tiles
        servable)

length-part_of :
    (now : ℕ) (w : World) (span : Span)
    → IsServable now w span
    → span.byte_range.start ≤ span.byte_range.end
    → length (part_of span (content_at (record_paths span.row).0 w.disk))
      ≡ range_length span.byte_range
length-part_of now w span s k =
    let (content, e, size) = servable-content now w span s in
    let from = s.from in
    let upto = s.upto in
    let skipped = span.byte_range.start - span.row.start in
    rw e (
      omega (
        arith,
        size,
        length-drop skipped content,
        length-take (range_length span.byte_range) (drop skipped content),
      ))

length-bytes_of :
    (spans : List Span) (now lo stop : ℕ) (w : World)
    → Tiles lo stop (ranges_of spans)
    → All (IsServable now w) spans
    → length (bytes_of w.disk spans) ≡ stop - lo
length-bytes_of [] now lo stop w h s = omega arith
length-bytes_of (span ∷ spans) now lo stop w (e, k, tiles) (s, servable) =
    let part = part_of span (content_at (record_paths span.row).0 w.disk) in
    omega (
      arith,
      length-append part (bytes_of w.disk spans),
      length-part_of now w span s k,
      length-bytes_of spans now (span.byte_range.end + 1) stop w tiles servable,
      Tiles-le (span.byte_range.end + 1) stop (ranges_of spans) tiles,
    )

-- A touch of the rows leaves spans servable.
pub touched-IsServable :
    (now : ℕ) (w : World) (rows : List Span) (s : Store)
    → All (IsServable now w) rows
    → All (IsServable now (record w { store = s })) rows
touched-IsServable now w [] s k = tt
touched-IsServable now w (row ∷ rows) s (k, ks) = (
  record { from = k.from; upto = k.upto; valid = k.valid; fresh = k.fresh; on_disk = k.on_disk },
  touched-IsServable now w rows s ks,
)

-- The chunks are the bytes of spans that follow one another from `lo` up to `stop`, each servable and
-- of a row that the table holds under the key, and there are as many bytes as that.
abbrev pub Delivered : Text → ℕ → ℕ → ℕ → ℕ → World → List Text → Type 0
Delivered key chunk_bytes now lo stop w chunks =
    (spans : List Span) × Tiles lo stop (ranges_of spans)
    × All (IsServable now w) spans
    × SpanRows (IsListed key w.store.middle_blocks) spans
    × (concat chunks ≡ bytes_of w.disk spans)
    × (length (concat chunks) ≡ stop - lo)
    × All (IsChunk chunk_bytes) chunks

-- What is true of an answer, if it has chunks.
abbrev DeliveredIn : Text → ℕ → ℕ → ℕ → ℕ → World → Result CacheError (Option (List Text)) → Type 0
DeliveredIn key chunk_bytes now lo stop w (err e) = Unit
DeliveredIn key chunk_bytes now lo stop w (ok none) = Unit
DeliveredIn key chunk_bytes now lo stop w (ok (some chunks)) =
    Delivered key chunk_bytes now lo stop w chunks

answer_spans-DeliveredIn :
    (key : Text) (c : Cache) (opens : MiddleBlock → Bool) (chunk_bytes now lo stop : ℕ) (w : World)
    (found : World × Option (List Span))
    → ((row : MiddleBlock) → opens row ≡ true)
    → 0 < chunk_bytes
    → Covered lo stop now w found
    → FoundRows (IsListed key w.store.middle_blocks) found
    → DeliveredIn key chunk_bytes now lo stop w (answer_spans c opens chunk_bytes now found).1
answer_spans-DeliveredIn key c opens chunk_bytes now lo stop w (w', none) h pos covered listed = tt
answer_spans-DeliveredIn key c opens chunk_bytes now lo stop w (w', some spans) h pos
      (same, tiles, servable) listed =
    let touched : World = record w { store = touch_spans c spans now w.store } in
    let (_, bytes_eq, chunks_ok, _) =
      stream_spans-Sent spans opens chunk_bytes now lo stop touched h pos tiles
        (touched-IsServable now w spans touched.store servable) in
    rw same (
      spans,
      tiles,
      servable,
      listed,
      bytes_eq,
      rw bytes_eq (length-bytes_of spans now lo stop w tiles servable),
      chunks_ok,
    )

-- If IterBlock answers with chunks, and every file can be opened, then the chunks are, in order,
-- the bytes of every position that was asked for, each read from the file of a block that holds the
-- position, whose row the table has under the key that was asked for, is valid and has not expired.
-- None is empty or larger than the buffer.
pub iter_block-Delivered :
    (c : Cache) (opens : MiddleBlock → Bool) (key : Text) (requested : ByteRange)
    (chunk_bytes now : ℕ) (w : World) (chunks : List Text)
    → ((row : MiddleBlock) → opens row ≡ true)
    → (iter_block c opens key requested chunk_bytes now w).1 ≡ ok (some chunks)
    → Delivered key chunk_bytes now requested.start (requested.end + 1) w chunks
unfolding iter_block
iter_block-Delivered c opens key requested chunk_bytes now w chunks h e =
    let rows = find_middle_blocks w.store key requested in
    let found = covering_spans rows requested.start requested now w in
    let positive : 0 < chunk_bytes = ground (arith, e) in
    let ordered : requested.start ≤ requested.end = ground (arith, e) in
    let answered : (answer_spans c opens chunk_bytes now found).1 ≡ ok (some chunks) =
      ground (arith, e) in
    subst (DeliveredIn key chunk_bytes now requested.start (requested.end + 1) w) answered (
      answer_spans-DeliveredIn key c opens chunk_bytes now requested.start (requested.end + 1) w
        found h positive (covering_spans-Covered rows requested.start requested now w ordered)
        (covering_spans-FoundRows (IsListed key w.store.middle_blocks) rows requested.start
          requested now w (find_middle_blocks-IsListed w.store key requested)))
