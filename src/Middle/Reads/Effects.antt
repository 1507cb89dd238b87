-- ===== src/Middle/Reads/Effects.antt =====
-- What a call of the middle cache's IterBlock changes of the world.
use emby_range_cache_proxy.Base.{
  ℕ, ◌+◌, ◌≡◌, refl, ◌∙◌, Bool, true, false, not, ◌||◌, Option, none, some, List, [], ◌∷◌,
  if◌then◌else◌, ltb, leb, ◌==◌, All, All-at, All-weaken, All-Mem, min, Bool-cases, Option-cases,
  inl, inr,
}
use mathlib.Core.List.{Memᴰ}
use emby_range_cache_proxy.Base.Texts.{Text}
use emby_range_cache_proxy.Base.Tables.{All-update_where, All-delete_where}
use emby_range_cache_proxy.Model.{ByteRange}
use emby_range_cache_proxy.Disk.{content_at}
use emby_range_cache_proxy.Disk.Contents.{Shrinks}
use emby_range_cache_proxy.HeadTail.{valid_key}
use emby_range_cache_proxy.State.{MiddleBlock, Store}
use emby_range_cache_proxy.State.Blocks.{
  is_block, find_middle_blocks, touch_middle_block, delete_middle_block_record,
}
use emby_range_cache_proxy.Middle.{Cache, World, Span, record_paths, valid_record, remove_block}
use emby_range_cache_proxy.Middle.Reads.{
  has_valid_files, prepend, covering_spans, stream_span, stream_spans, touch_spans, answer_spans,
  iter_block,
}
use emby_range_cache_proxy.Middle.Reads.Slices.{remove_block-Shrinks}

-- Every table but that of the middle blocks.
abbrev pub other_tables : Store → Store
other_tables s = record s { middle_blocks = [] }

-- Two rows of one block, which differ at most in the last access and in the expiry.
abbrev pub SameBlock : MiddleBlock → MiddleBlock → Type 0
SameBlock a b =
    (a.cache_key ≡ b.cache_key)
    × (a.start ≡ b.start)
    × (a.end ≡ b.end)
    × (a.path ≡ b.path)
    × (a.size ≡ b.size)
    × (a.created_at ≡ b.created_at)

-- The block of this row was in the table.
abbrev pub Had : List MiddleBlock → MiddleBlock → Type 0
Had rows b = (a : MiddleBlock) × Memᴰ a rows × SameBlock a b

-- No row of another table is touched, every block was there, and no file appears or gets other bytes.
pub record OnlyReads (w' w : World) : Type 0 where
  pub tables : other_tables w'.store ≡ other_tables w.store
  pub blocks : All (Had w.store.middle_blocks) w'.store.middle_blocks
  pub files : Shrinks w'.disk w.disk

pub All-Had : (rows : List MiddleBlock) → All (Had rows) rows
All-Had rows =
    All-weaken _ (Had rows) rows (λ b m. (b, m, (refl, refl, refl, refl, refl, refl)))
      (All-Mem rows)

Had-trans :
    (rows middle : List MiddleBlock) (b : MiddleBlock)
    → All (Had rows) middle
    → Had middle b
    → Had rows b
Had-trans rows middle b h (a, m, (k₀, k₁, k₂, k₃, k₄, k₅)) =
    let (a', m', (e₀, e₁, e₂, e₃, e₄, e₅)) = All-at (Had rows) a middle h m in
    (a', m', (e₀ ∙ k₀, e₁ ∙ k₁, e₂ ∙ k₂, e₃ ∙ k₃, e₄ ∙ k₄, e₅ ∙ k₅))

pub OnlyReads-refl : (w : World) → OnlyReads w w
OnlyReads-refl w = record {
  tables = refl;
  blocks = All-Had w.store.middle_blocks;
  files = λ p c h. h;
}

pub OnlyReads-trans : (u v w : World) → OnlyReads u v → OnlyReads v w → OnlyReads u w
OnlyReads-trans u v w a b = record {
  tables = a.tables ∙ b.tables;
  blocks =
      All-weaken (Had v.store.middle_blocks) (Had w.store.middle_blocks) u.store.middle_blocks
        (λ x. Had-trans w.store.middle_blocks v.store.middle_blocks x b.blocks) a.blocks;
  files = λ p c h. b.files p c (a.files p c h);
}

delete_row-OnlyReads :
    (key : Text) (start end : ℕ) (w : World)
    → OnlyReads (record w { store = delete_middle_block_record w.store key start end }) w
unfolding delete_middle_block_record
delete_row-OnlyReads key start end w = record {
  tables = refl;
  blocks =
      All-delete_where (Had w.store.middle_blocks) _ w.store.middle_blocks
        (All-Had w.store.middle_blocks);
  files = λ p c h. h;
}

remove_block-OnlyReads : (row : MiddleBlock) (w : World) → OnlyReads (remove_block row w) w
unfolding remove_block delete_middle_block_record
remove_block-OnlyReads row w = record {
  tables = refl;
  blocks =
      All-delete_where (Had w.store.middle_blocks) _ w.store.middle_blocks
        (All-Had w.store.middle_blocks);
  files = remove_block-Shrinks row w;
}

touch_row-OnlyReads :
    (key : Text) (start end now ttl : ℕ) (w : World)
    → OnlyReads (record w { store = touch_middle_block w.store key start end now ttl }) w
unfolding touch_middle_block
touch_row-OnlyReads key start end now ttl w = record {
  tables = refl;
  blocks =
      All-update_where (Had w.store.middle_blocks) (is_block key start end) _ w.store.middle_blocks
        (λ b h. h) (All-Had w.store.middle_blocks);
  files = λ p c h. h;
}

touch_spans-OnlyReads :
    (c : Cache) (spans : List Span) (now : ℕ) (w : World)
    → OnlyReads (record w { store = touch_spans c spans now w.store }) w
touch_spans-OnlyReads c [] now w = OnlyReads-refl w
touch_spans-OnlyReads c (span ∷ spans) now w =
    let row = span.row in
    let touched : World = record w {
      store = touch_middle_block w.store row.cache_key row.start row.end now c.ttl_seconds;
    } in
    OnlyReads-trans _ touched w (touch_spans-OnlyReads c spans now touched)
      (touch_row-OnlyReads row.cache_key row.start row.end now c.ttl_seconds w)

if-OnlyReads :
    (t : Bool) (u v w : World) → OnlyReads u w → OnlyReads v w → OnlyReads (if t then u else v) w
if-OnlyReads true u v w a b = a
if-OnlyReads false u v w a b = b

stream_span-OnlyReads :
    (opens : MiddleBlock → Bool) (chunk_bytes : ℕ) (span : Span) (w : World)
    → OnlyReads (stream_span opens chunk_bytes span w).0 w
unfolding stream_span
stream_span-OnlyReads opens chunk_bytes span w =
    let removed = remove_block-OnlyReads span.row w in
    elim (Option-cases (content_at (record_paths span.row).0 w.disk)) [
      | inl e ↦ rw (e, stream_span) removed
      | inr (content, e) ↦ elim (Bool-cases (opens span.row)) [
        | inr f ↦ rw (e, stream_span, f) removed
        | inl f ↦ rw (e, stream_span, f) (if-OnlyReads _ _ _ w (OnlyReads-refl w) removed)
      ]
    ]

stream_spans-OnlyReads :
    (opens : MiddleBlock → Bool) (chunk_bytes : ℕ) (spans : List Span) (w : World)
    → OnlyReads (stream_spans opens chunk_bytes spans w).0 w
unfolding stream_spans
stream_spans-OnlyReads opens chunk_bytes [] w = OnlyReads-refl w
stream_spans-OnlyReads opens chunk_bytes (span ∷ spans) w =
    let streamed = stream_span opens chunk_bytes span w in
    let first = stream_span-OnlyReads opens chunk_bytes span w in
    let later = stream_spans-OnlyReads opens chunk_bytes spans streamed.0 in
    elim (Bool-cases streamed.2) [
      | inl e ↦ rw e (OnlyReads-trans _ streamed.0 w later first)
      | inr e ↦ rw e first
    ]

prepend-OnlyReads :
    (span : Span) (answer : World × Option (List Span)) (w : World)
    → OnlyReads answer.0 w
    → OnlyReads (prepend span answer).0 w
prepend-OnlyReads span (v, none) w h = h
prepend-OnlyReads span (v, some spans) w h = h

covering_spans-OnlyReads :
    (rows : List MiddleBlock) (expected : ℕ) (requested : ByteRange) (now : ℕ) (w : World)
    → OnlyReads (covering_spans rows expected requested now w).0 w
unfolding covering_spans
covering_spans-OnlyReads [] expected requested now w = OnlyReads-refl w
covering_spans-OnlyReads (row ∷ rows) expected requested now w =
    let span_end = min row.end requested.end in
    elim (Bool-cases (ltb row.end expected)) [
      | inl past ↦ rw past (covering_spans-OnlyReads rows expected requested now w)
      | inr e1 ↦ elim (Bool-cases (ltb expected row.start)) [
        | inl gap ↦ rw (e1, gap) (OnlyReads-refl w)
        | inr e2 ↦ elim (Bool-cases (valid_record row)) [
          | inr bad ↦ rw (e1, e2, bad) (delete_row-OnlyReads row.cache_key row.start row.end w)
          | inl valid ↦ elim (Bool-cases (leb row.expires_at now || not (has_valid_files row w))) [
            | inl stale ↦ rw (e1, e2, valid, stale) (remove_block-OnlyReads row w)
            | inr usable ↦ elim (Bool-cases (leb requested.end span_end)) [
              | inl last ↦ rw (e1, e2, valid, usable, last) (OnlyReads-refl w)
              | inr later ↦
                  rw (e1, e2, valid, usable, later)
                    (prepend-OnlyReads _ (covering_spans rows (span_end + 1) requested now w) w
                      (covering_spans-OnlyReads rows (span_end + 1) requested now w))
            ]
          ]
        ]
      ]
    ]

answer_spans-OnlyReads :
    (c : Cache) (opens : MiddleBlock → Bool) (chunk_bytes now : ℕ)
    (found : World × Option (List Span)) (w : World)
    → OnlyReads found.0 w
    → OnlyReads (answer_spans c opens chunk_bytes now found).0 w
answer_spans-OnlyReads c opens chunk_bytes now (v, none) w h = h
answer_spans-OnlyReads c opens chunk_bytes now (v, some spans) w h =
    let touched : World = record v { store = touch_spans c spans now v.store } in
    OnlyReads-trans _ touched w (stream_spans-OnlyReads opens chunk_bytes spans touched)
      (OnlyReads-trans touched v w (touch_spans-OnlyReads c spans now v) h)

pub iter_block-OnlyReads :
    (c : Cache) (opens : MiddleBlock → Bool) (key : Text) (r : ByteRange) (chunk_bytes now : ℕ)
    (w : World)
    → OnlyReads (iter_block c opens key r chunk_bytes now w).0 w
unfolding iter_block
iter_block-OnlyReads c opens key r chunk_bytes now w =
    let rows = find_middle_blocks w.store key r in
    elim (Bool-cases (chunk_bytes == 0)) [
      | inl e ↦ rw e (OnlyReads-refl w)
      | inr e ↦ elim (Bool-cases (not (valid_key key) || ltb r.end r.start)) [
        | inl f ↦ rw (e, f) (OnlyReads-refl w)
        | inr f ↦
            rw (e, f)
              (answer_spans-OnlyReads c opens chunk_bytes now _ w
                (covering_spans-OnlyReads rows r.start r now w))
      ]
    ]
