-- ===== src/Origin/Bodies.antt =====
-- What a reader of OpenRange delivers, if the server sends the bytes that its headers name.
use emby_range_cache_proxy.Base.{
  ℕ, zero, suc, ◌+◌, ◌≤◌, ◌<◌, ◌≡◌, ◌≢◌, refl, sym, ap, ◌∙◌, Bool, true, false, ◌&&◌, ◌||◌, Option,
  none, some, List, [], ◌∷◌, ◌++◌, arith, ltb, ◌==◌, if◌then◌else◌, min, length, take, drop,
  Bool-cases, inl, inr, length-drop, length-take, take-append-drop,
}
use mathlib.Core.List.{append_assoc}
use emby_range_cache_proxy.Base.Texts.{Text}
use emby_range_cache_proxy.Base.Slices.{between, IsPrefix, drop_nil, take-append-ge}
use emby_range_cache_proxy.Model.{ByteRange}
use emby_range_cache_proxy.Ranges.{is_empty}
use emby_range_cache_proxy.Origin.{
  ReadEnd, more, eof, unexpected_eof, broken, Body, Response, read_body, Reader, whole_body,
  bounded, bounded_end, read, parse_content_range, next_size, later_sizes, after_read, copy_reader,
}

-- A partial answer has bytes of the range that its Content-Range names, all of them if its body ends
-- without an error; an answer with everything has the file's first bytes; either may stop too soon.
pub record IsHonest (content : Text) (resp : Response) : Type 0 where
  pub partial :
      (r : ByteRange) (total : ℕ)
      → resp.status ≡ 206
      → parse_content_range resp.content_range ≡ some (r, total)
      → IsPrefix resp.body.bytes (between r.start (r.end + 1) content)
  pub complete :
      (r : ByteRange) (total : ℕ)
      → resp.status ≡ 206
      → parse_content_range resp.content_range ≡ some (r, total)
      → resp.body.breaks ≡ false
      → resp.body.bytes ≡ between r.start (r.end + 1) content
  pub whole : resp.status ≡ 200 → IsPrefix resp.body.bytes content

abbrev pub HonestAnswer : Text → Option Response → Type 0
HonestAnswer content none = Unit
HonestAnswer content (some resp) = IsHonest content resp

-- The bytes that reads will deliver.
abbrev pub bytes_left : Reader → Text
bytes_left (whole_body b) = b.bytes
bytes_left (bounded b remaining) = take remaining b.bytes

body_of : Reader → Body
body_of (whole_body b) = b
body_of (bounded b remaining) = b

-- Reads that are enough to reach the end of a body.
abbrev pub reads_left : Body → ℕ
reads_left b = length b.bytes + length b.sizes + 1

abbrev pub reader_reads : Reader → ℕ
reader_reads (whole_body b) = reads_left b
reader_reads (bounded b remaining) = reads_left b

pub reader_reads-pos : (reader : Reader) → 0 < reader_reads reader
reader_reads-pos (whole_body b) = omega arith
reader_reads-pos (bounded b remaining) = omega arith

pub read_body-bytes :
    (p : ℕ) (b : Body)
    → (b.bytes ≡ (read_body p b).1 ++ (read_body p b).0.bytes) × (length (read_body p b).1 ≤ p)
unfolding read_body
read_body-bytes p b =
    let n = min p (next_size b.sizes (length b.bytes)) in
    (sym (take-append-drop n b.bytes), omega (arith, length-take n b.bytes))

-- A read that does not say that the body ended took a byte or used up a size.
reads_fall :
    (p : ℕ) (sizes : List ℕ) (bytes : Text) (early : Bool)
    → 0 < p
    → let rest = drop (min p (next_size sizes (length bytes))) bytes in
      is_empty rest && (is_empty bytes || early) ≡ false
      → length rest + length (later_sizes sizes) < length bytes + length sizes
reads_fall p [] [] early h e = ground (arith, drop_nil {A = ℕ} (min p 0), e)
reads_fall p [] (c ∷ bytes) early h e =
    omega (arith, length-drop (min p (length (c ∷ bytes))) (c ∷ bytes))
reads_fall p (s ∷ sizes) bytes early h e =
    omega (arith, length-drop (min p (min s (length bytes))) bytes)

ended_says : (breaks : Bool) → (if breaks then broken else eof) ≢ more
ended_says true e = cc
ended_says false e = cc

bounded_end-more : (remaining : ℕ) (end : ReadEnd) → bounded_end remaining end ≡ more → end ≡ more
unfolding bounded_end
bounded_end-more remaining more h = refl
bounded_end-more remaining eof h = elim (Bool-cases (ltb 0 remaining)) [
  | inl e ↦ elim (no_more unexpected_eof (λ k. cc) (sym (rw e refl) ∙ h)) [ ]
  | inr e ↦ elim (no_more eof (λ k. cc) (sym (rw e refl) ∙ h)) [ ]
]
  where
    no_more : (end : ReadEnd) → end ≢ more → end ≡ more → ⊥
    no_more end h e = h e
bounded_end-more remaining unexpected_eof h = h
bounded_end-more remaining broken h = h

read_body-reads :
    (p : ℕ) (b : Body)
    → 0 < p
    → (read_body p b).2 ≡ more
    → reads_left (read_body p b).0 < reads_left b
unfolding read_body
read_body-reads p b h e =
    let n = min p (next_size b.sizes (length b.bytes)) in
    elim (Bool-cases (is_empty (drop n b.bytes) && (is_empty b.bytes || b.ends_early))) [
      | inl ended ↦ elim (ended_says b.breaks (ground (arith, ended, e))) [ ]
      | inr going ↦ omega (arith, reads_fall p b.sizes b.bytes b.ends_early h going)
    ]

-- One read of a reader: its bytes are the first of those that were left.
abbrev pub Reads : ℕ → Reader → Reader × Text × ReadEnd → Type 0
Reads p reader (reader', bytes, end) =
    (bytes_left reader ≡ bytes ++ bytes_left reader')
    × (end ≡ more → reader_reads reader' < reader_reads reader)

pub read-Reads : (p : ℕ) (reader : Reader) → 0 < p → Reads p reader (read p reader)
unfolding read
read-Reads p (whole_body b) h = ((read_body-bytes p b).0, λ e. read_body-reads p b h e)
read-Reads p (bounded b remaining) h = elim (Bool-cases (remaining == 0)) [
  | inl e ↦ rw e (refl, λ k. elim (ended_says false k) [ ])
  | inr e ↦
      let (same, size) = read_body-bytes (min p remaining) b in
      rw e (
        ap (take remaining) same
            ∙ take-append-ge remaining (read_body (min p remaining) b).1
                (read_body (min p remaining) b).0.bytes (omega (arith, size)),
        λ k. read_body-reads (min p remaining) b (ground arith) (bounded_end-more _ _ k),
      )
]

-- What is copied, and what is left of the reader, are the bytes that were left before.
pub copy_reader-bytes :
    (f p : ℕ) (reader : Reader)
    → 0 < p
    → (rest : Text) × (bytes_left reader ≡ (copy_reader f p reader).0 ++ rest)
unfolding copy_reader
copy_reader-bytes zero p reader h = (bytes_left reader, refl)
copy_reader-bytes (suc f) p reader h =
    append_read (read p reader).0 (read p reader).1 (read p reader).2 (read-Reads p reader h).0
      (copy_reader-bytes f p (read p reader).0 h)
  where
    append_read :
        {before : Text} (reader' : Reader) (bytes : Text) (end : ReadEnd)
        → before ≡ bytes ++ bytes_left reader'
        → (rest : Text) × (bytes_left reader' ≡ (copy_reader f p reader').0 ++ rest)
        → (rest : Text) × (before ≡ (after_read bytes end (copy_reader f p reader')).0 ++ rest)
    append_read reader' bytes more h (rest, k) =
        (rest, h ∙ ap (◌++◌ bytes) k ∙ sym (append_assoc bytes (copy_reader f p reader').0 rest))
    append_read reader' bytes eof h (rest, k) = (bytes_left reader', h)
    append_read reader' bytes unexpected_eof h (rest, k) = (bytes_left reader', h)
    append_read reader' bytes broken h (rest, k) = (bytes_left reader', h)

-- With a buffer that is not empty, the copy ends after at most one read for each byte and each size.
pub copy_reader-ends :
    (f p : ℕ) (reader : Reader)
    → 0 < p
    → reader_reads reader ≤ f
    → (copy_reader f p reader).1 ≢ more
unfolding copy_reader
copy_reader-ends zero p reader h k = elim (positive reader k) [ ]
  where
    positive : (reader : Reader) → reader_reads reader ≤ 0 → ⊥
    positive (whole_body b) k = omega arith
    positive (bounded b remaining) k = omega arith
copy_reader-ends (suc f) p reader h k =
    rest_ends (read p reader).0 (read p reader).1 (read p reader).2 (read-Reads p reader h).1
      (λ m. copy_reader-ends f p (read p reader).0 h m)
  where
    rest_ends :
        (reader' : Reader) (bytes : Text) (end : ReadEnd)
        → (end ≡ more → reader_reads reader' < reader_reads reader)
        → (reader_reads reader' ≤ f → (copy_reader f p reader').1 ≢ more)
        → (after_read bytes end (copy_reader f p reader')).1 ≢ more
    rest_ends reader' bytes more less ends = ends (omega (arith, less refl))
    rest_ends reader' bytes eof less ends = λ e. cc
    rest_ends reader' bytes unexpected_eof less ends = λ e. cc
    rest_ends reader' bytes broken less ends = λ e. cc
