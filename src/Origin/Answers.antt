-- ===== src/Origin/Answers.antt =====
-- OpenRange against a server that sends what its headers name, and the Content-Range that it reads.
use emby_range_cache_proxy.Base.{
  ℕ, ◌+◌, ◌≤◌, ◌<◌, ◌≡◌, ◌≢◌, refl, sym, ap, ap₂, subst, ◌∙◌, true, false, ◌||◌, some, ◌∷◌, ◌++◌,
  Result, ok, err, arith, ltb, leb, ◌==◌, length, take, drop, Bool-cases, Option-cases, inl, inr,
  min,
}
use mathlib.Core.List.{append_assoc}
use emby_range_cache_proxy.Base.Texts.{span_digits, Text, strip_prefix, format_int, max_int64}
use emby_range_cache_proxy.Base.Texts.RoundTrip.{
  format_int-AllDigits, format_int-cons, parse_unsigned-format_int, span_digits-append,
  span_digits-AllDigits,
}
use emby_range_cache_proxy.Base.Slices.{
  between, IsPrefix, IsPrefix-drop, IsPrefix-cut, IsPrefix-front, take-take,
}
use emby_range_cache_proxy.Model.{ByteRange, range_length}
use emby_range_cache_proxy.Ranges.{content_range_header}
use emby_range_cache_proxy.Origin.{
  OriginError, Body, Response, Reader, bounded, match_dash, match_slash, match_total,
  match_content_range, parse_content_range, content_range_matches, length_agrees, skip_bytes,
  slice_status_ok_body, open_range, more, eof, copy_reader,
}
use emby_range_cache_proxy.Origin.Bodies.{
  IsHonest, bytes_left, reader_reads, copy_reader-bytes, copy_reader-ends,
}
use emby_range_cache_proxy.Origin.Ends.{EndsFull, copy_reader-EndsFull, copy_reader-EndsWhole}

match_content_range-header :
    (r : ByteRange) (size : ℕ)
    → match_content_range (content_range_header r size)
      ≡ some (format_int r.start, format_int r.end, format_int size)
unfolding match_content_range content_range_header strip_prefix
match_content_range-header r size =
    let (c, s, e) = format_int-cons r.start in
    let (c', s', e') = format_int-cons r.end in
    let (c'', s'', e'') = format_int-cons size in
    let from =
      span_digits-append (format_int r.start) b'-' (format_int r.end ++ b'/' ∷ format_int size)
        (format_int-AllDigits r.start) refl in
    let upto =
      span_digits-append (format_int r.end) b'/' (format_int size) (format_int-AllDigits r.end)
        refl in
    let total = span_digits-AllDigits (format_int size) (format_int-AllDigits size) in
    ap (λ t. match_dash (span_digits t))
      (append_assoc (format_int r.start) (b'-' ∷ format_int r.end) (b'/' ∷ format_int size))
    ∙ ap match_dash from
    ∙ ap (match_slash (format_int r.start)) upto
    ∙ ap (match_total (format_int r.start) (format_int r.end)) total
    ∙ (rw (e, e', e'') refl)

-- The value of Content-Range that ContentRangeHeader writes for bytes that exist in a file, whose size
-- is below 2^63, is read back as this range and this size.
pub parse_content_range-content_range_header :
    (r : ByteRange) (size : ℕ)
    → r.start ≤ r.end
    → r.end < size
    → size ≤ max_int64
    → parse_content_range (content_range_header r size) ≡ some (r, size)
unfolding parse_content_range
parse_content_range-content_range_header r size h k m =
    let a = parse_unsigned-format_int r.start (omega arith) in
    let b = parse_unsigned-format_int r.end (omega arith) in
    let c = parse_unsigned-format_int size m in
    let ordered : size == 0 || (ltb r.end r.start || leb size r.end) ≡ false = ground arith in
    rw (match_content_range-header r size, parse_content_range) (rw (a, b, c) (rw ordered refl))

content_range_matches-parse :
    (value : Text) (r : ByteRange) (size : ℕ)
    → content_range_matches value r size ≡ true
    → (named : ByteRange) × (total : ℕ) × (parse_content_range value ≡ some (named, total))
      × (named.start ≡ r.start)
      × (named.end ≡ r.end)
      × (total ≡ size)
unfolding content_range_matches
content_range_matches-parse value r size h = elim (Option-cases (parse_content_range value)) [
  | inl e ↦ elim (not_true (ground (arith, e, h))) [ ]
  | inr ((named, total), e) ↦
      (named, total, e, ground (arith, e, h), ground (arith, e, h), ground (arith, e, h))
]
  where
    not_true : false ≡ true → ⊥
    not_true e = cc

-- The bytes that are left are the first of the range, or all of them.
abbrev pub Opened : Text → ByteRange → Result OriginError Reader → Type 0
Opened content r (err e) = Unit
Opened content r (ok reader) = IsPrefix (bytes_left reader) (between r.start (r.end + 1) content)

slice_status_ok_body-Opened :
    (content : Text) (resp : Response) (r : ByteRange) (size : ℕ)
    → IsPrefix resp.body.bytes content
    → Opened content r (slice_status_ok_body resp r size)
unfolding slice_status_ok_body skip_bytes
slice_status_ok_body-Opened content resp r size h =
    elim (Bool-cases (size == 0 || (ltb r.end r.start || leb size r.end))) [
      | inl e ↦ rw e tt
      | inr e ↦ elim (Bool-cases (length_agrees resp.content_length size)) [
        | inr f ↦ rw (e, f) tt
        | inl f ↦ elim (Bool-cases (ltb (length resp.body.bytes) r.start)) [
          | inl g ↦ rw (e, f, g) tt
          | inr g ↦
              rw (e, f, g)
                (IsPrefix-cut (range_length r) (drop r.start resp.body.bytes) (drop r.start content)
                  (IsPrefix-drop r.start resp.body.bytes content h))
        ]
      ]
    ]

pub open_range-Opened :
    (content : Text) (resp : Response) (r : ByteRange) (size : ℕ)
    → IsHonest content resp
    → Opened content r (open_range (some resp) r size)
unfolding open_range
open_range-Opened content resp r size h = elim (Bool-cases (resp.status == 206)) [
  | inl partial ↦ elim (Bool-cases (content_range_matches resp.content_range r size)) [
    | inr e ↦ rw (partial, e) tt
    | inl e ↦ elim (Bool-cases (length_agrees resp.content_length (range_length r))) [
      | inr f ↦ rw (partial, e, f) tt
      | inl f ↦
          let (named, total, found, from, upto, whole) =
            content_range_matches-parse resp.content_range r size e in
          let sent = h.partial named total (ground arith) found in
          rw (partial, e, f)
            (subst (λ a. IsPrefix resp.body.bytes (between a (r.end + 1) content)) from
              (subst (λ b. IsPrefix resp.body.bytes (between named.start (b + 1) content)) upto
                sent))
    ]
  ]
  | inr e ↦ elim (Bool-cases (resp.status == 200)) [
    | inl whole ↦
        rw (e, whole) (slice_status_ok_body-Opened content resp r size (h.whole (ground arith)))
    | inr f ↦ rw (e, f) tt
  ]
]

-- An answer with the whole file is read through a bounded reader of the range's length.
abbrev IsBounded : ByteRange → Result OriginError Reader → Type 0
IsBounded r (err e) = Unit
IsBounded r (ok reader) = (b : Body) × (reader ≡ bounded b (range_length r))

slice_status_ok_body-IsBounded :
    (resp : Response) (r : ByteRange) (size : ℕ) → IsBounded r (slice_status_ok_body resp r size)
unfolding slice_status_ok_body
slice_status_ok_body-IsBounded resp r size =
    elim (Bool-cases (size == 0 || (ltb r.end r.start || leb size r.end))) [
      | inl e ↦ rw e tt
      | inr e ↦ elim (Bool-cases (length_agrees resp.content_length size)) [
        | inr f ↦ rw (e, f) tt
        | inl f ↦ elim (Option-cases (skip_bytes r.start resp.body)) [
          | inl g ↦ rw (e, f, g) tt
          | inr (b, g) ↦ rw (e, f, g) (b, refl)
        ]
      ]
    ]

bounded-full :
    (f p : ℕ) (r : ByteRange) (content : Text) (reader : Reader) (b : Body)
    → reader ≡ bounded b (range_length r)
    → 0 < p
    → IsPrefix (copy_reader f p reader).0 (between r.start (r.end + 1) content)
    → (copy_reader f p reader).1 ≡ eof
    → (copy_reader f p reader).0 ≡ between r.start (r.end + 1) content
bounded-full f p r content reader b same pos front last =
    let full : EndsFull (range_length r) (copy_reader f p reader) =
      subst (λ x. EndsFull (range_length r) (copy_reader f p x)) (sym same)
        (copy_reader-EndsFull f p b (range_length r) pos) in
    let n = range_length r in
    front
    ∙ ap (λ k. take k (between r.start (r.end + 1) content)) (full last)
    ∙ take-take n n (drop r.start content)
    ∙ ap (λ k. take k (drop r.start content)) (min_self n)
  where
    min_self : (n : ℕ) → min n n ≡ n
    min_self n = omega arith

-- `io.EOF` comes behind the last byte of the range only.
abbrev pub EndsWithAll : Text → ByteRange → Result OriginError Reader → Type 0
EndsWithAll content r (err e) = Unit
EndsWithAll content r (ok reader) =
    (f p : ℕ)
    → 0 < p
    → (copy_reader f p reader).1 ≡ eof
    → (copy_reader f p reader).0 ≡ between r.start (r.end + 1) content

open_range-EndsWithAll :
    (content : Text) (resp : Response) (r : ByteRange) (size : ℕ)
    → IsHonest content resp
    → EndsWithAll content r (open_range (some resp) r size)
unfolding open_range
open_range-EndsWithAll content resp r size h = elim (Bool-cases (resp.status == 206)) [
  | inl partial ↦ elim (Bool-cases (content_range_matches resp.content_range r size)) [
    | inr e ↦ rw (partial, e) tt
    | inl e ↦ elim (Bool-cases (length_agrees resp.content_length (range_length r))) [
      | inr f ↦ rw (partial, e, f) tt
      | inl f ↦
          let (named, total, found, from, upto, whole) =
            content_range_matches-parse resp.content_range r size e in
          let status : resp.status ≡ 206 = ground arith in
          rw (partial, e, f)
            (λ fuel p pos last.
              let (all, fine) = copy_reader-EndsWhole fuel p resp.body last in
              all
              ∙ h.complete named total status found fine
              ∙ ap₂ (λ a b. between a (b + 1) content) from upto)
    ]
  ]
  | inr e ↦ elim (Bool-cases (resp.status == 200)) [
    | inr f ↦ rw (e, f) tt
    | inl whole ↦
        let status : resp.status ≡ 200 = ground arith in
        rw (e, whole)
          (from_whole (slice_status_ok_body resp r size)
            (slice_status_ok_body-Opened content resp r size (h.whole status))
            (slice_status_ok_body-IsBounded resp r size))
  ]
]
  where
    from_whole :
        (opened : Result OriginError Reader)
        → Opened content r opened
        → IsBounded r opened
        → EndsWithAll content r opened
    from_whole (err e) o b = tt
    from_whole (ok reader) o (b, same) = λ fuel p pos last.
        let (rest, joined) = copy_reader-bytes fuel p reader pos in
        bounded-full fuel p r content reader b same pos
          (IsPrefix-front (copy_reader fuel p reader).0 rest (between r.start (r.end + 1) content)
            (subst (λ t. IsPrefix t (between r.start (r.end + 1) content)) joined o))
          last

-- Against a server that sends what its headers name, whatever it is asked: what is copied from an
-- opened range, with a buffer that is not empty, is the first part of the range's bytes, or all of
-- them; the copy ends; and if it ends by `io.EOF`, nothing of the range is missing.
pub copy_reader-open_range :
    (content : Text) (resp : Response) (r : ByteRange) (size p : ℕ) (reader : Reader)
    → IsHonest content resp
    → open_range (some resp) r size ≡ ok reader
    → 0 < p
    → let (bytes, last) = copy_reader (reader_reads reader) p reader in
      IsPrefix bytes (between r.start (r.end + 1) content)
      × (last ≢ more)
      × (last ≡ eof → bytes ≡ between r.start (r.end + 1) content)
copy_reader-open_range content resp r size p reader h opened pos =
    let (rest, same) = copy_reader-bytes (reader_reads reader) p reader pos in
    let whole : Opened content r (ok reader) =
      subst (Opened content r) opened (open_range-Opened content resp r size h) in
    let all : EndsWithAll content r (ok reader) =
      subst (EndsWithAll content r) opened (open_range-EndsWithAll content resp r size h) in
    (
      IsPrefix-front (copy_reader (reader_reads reader) p reader).0 rest
          (between r.start (r.end + 1) content)
          (subst (λ b. IsPrefix b (between r.start (r.end + 1) content)) same whole),
      copy_reader-ends (reader_reads reader) p reader pos (le_self _),
      all (reader_reads reader) p pos,
    )
  where
    le_self : (n : ℕ) → n ≤ n
    le_self n = omega arith
