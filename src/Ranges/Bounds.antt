-- ===== src/Ranges/Bounds.antt =====
-- What a range that was accepted satisfies: ParseRangeHeader and PlanPlaybackRange.
use emby_range_cache_proxy.Base.{
  ℕ, ◌-◌, ◌≤◌, ◌<◌, ◌≡◌, refl, ◌≢◌, inl, inr, Option, none, some, [], ◌∷◌, arith, Result, ok, err,
  Option-cases,
}
use emby_range_cache_proxy.Base.Texts.{Text, trim_space, parse_unsigned}
use emby_range_cache_proxy.Model.{ByteRange, InBounds}
use emby_range_cache_proxy.Ranges.{
  RangeError, not_satisfiable, match_range, parse_suffix, parse_end, clip_end, parse_span,
  parse_bounds, parse_range_header, head_response_end, plan_open, plan_match, plan_playback_range,
}

parse_suffix-InBounds :
    (right : Text) (size : ℕ) {r : ByteRange}
    → size ≢ 0
    → parse_suffix right size ≡ ok r
    → InBounds size r
unfolding parse_suffix
parse_suffix-InBounds right size {r} p h = ground arith

clip_end-InBounds :
    (start size : ℕ) (end : Result RangeError ℕ) {r : ByteRange}
    → start < size
    → clip_end start size end ≡ ok r
    → InBounds size r
unfolding clip_end
clip_end-InBounds start size (err e) p h = cc
clip_end-InBounds start size (ok end) p h = ground arith

parse_span-InBounds :
    (left right : Text) (size : ℕ) {r : ByteRange}
    → parse_span left right size ≡ ok r
    → InBounds size r
unfolding parse_span
parse_span-InBounds left right size {r} h = elim (Option-cases (parse_unsigned left)) [
  | inl e ↦ ground arith
  | inr (start, e) ↦ ground (arith, clip_end-InBounds start size (parse_end right size) {r = r})
]

parse_bounds-InBounds :
    (left right : Text) (size : ℕ) {r : ByteRange}
    → size ≢ 0
    → parse_bounds left right size ≡ ok r
    → InBounds size r
unfolding parse_bounds
parse_bounds-InBounds left right size {r} p h =
    ground
      (arith, parse_suffix-InBounds right size {r = r}, parse_span-InBounds left right size {r = r})

-- Every range that the parser accepts lies inside the file and is not empty.
pub parse_range_header-InBounds :
    (value : Text) (size : ℕ) {r : ByteRange}
    → parse_range_header value size ≡ ok r
    → InBounds size r
unfolding parse_range_header
parse_range_header-InBounds value size {r} h =
    elim (Option-cases (match_range (trim_space value))) [
      | inl e ↦ ground arith
      | inr ((left, right), e) ↦ ground (arith, parse_bounds-InBounds left right size {r = r})
    ]

-- The planned range starts where the parsed range starts and ends no later.
pub record Shortens (p r : ByteRange) : Type 0 where
  pub same_start : p.start ≡ r.start
  pub ordered : p.start ≤ p.end
  pub no_longer : p.end ≤ r.end

plan_open-Shortens :
    (r : ByteRange) (size head_bytes tail_bytes : ℕ) (open_bytes : Option ℕ)
    → InBounds size r
    → r.end ≡ size - 1
    → Shortens (plan_open r size head_bytes tail_bytes open_bytes) r
unfolding plan_open head_response_end
plan_open-Shortens r size head_bytes tail_bytes none b e = ground arith
plan_open-Shortens r size head_bytes tail_bytes (some bytes) b e = ground arith

parse_span-open :
    (left : Text) (size : ℕ) {r : ByteRange} → parse_span left [] size ≡ ok r → r.end ≡ size - 1
unfolding parse_span parse_end clip_end
parse_span-open left size {r} h = ground arith

-- An accepted header that is open at its right end reaches the end of the file.
parse_range_header-open :
    (c : ℕ) (value : Text) (size d : ℕ) (left : Text) {r : ByteRange}
    → match_range (trim_space (c ∷ value)) ≡ some (d ∷ left, [])
    → parse_range_header (c ∷ value) size ≡ ok r
    → r.end ≡ size - 1
unfolding parse_range_header parse_bounds
parse_range_header-open c value size d left {r} e h =
    ground (arith, parse_span-open (d ∷ left) size {r = r})

plan_match-Shortens :
    (m : Option (Text × Text)) (r : ByteRange) (size head_bytes tail_bytes : ℕ)
    (open_bytes : Option ℕ)
    → InBounds size r
    → ((d : ℕ) (left : Text) → m ≡ some (d ∷ left, []) → r.end ≡ size - 1)
    → Shortens (plan_match m r size head_bytes tail_bytes open_bytes) r
unfolding plan_match
plan_match-Shortens none r size hb tb ob b o = ground arith
plan_match-Shortens (some ([], right)) r size hb tb ob b o = ground arith
plan_match-Shortens (some (d ∷ left, [])) r size hb tb ob b o =
    plan_open-Shortens r size hb tb ob b (o d left refl)
plan_match-Shortens (some (d ∷ left, c ∷ right)) r size hb tb ob b o = ground arith

plan_of_empty :
    (size head_bytes tail_bytes default_bytes : ℕ) (open_bytes : Option ℕ) {r p : ByteRange}
    → 0 < head_bytes
    → parse_range_header [] size ≡ ok r
    → plan_playback_range [] size head_bytes tail_bytes default_bytes open_bytes ≡ ok p
    → Shortens p r
unfolding plan_playback_range parse_range_header
plan_of_empty size hb tb db ob pos e h = ground arith

plan_of_parsed :
    (value : Text) (size head_bytes tail_bytes default_bytes : ℕ) (open_bytes : Option ℕ)
    (r : ByteRange) {p : ByteRange}
    → 0 < head_bytes
    → parse_range_header value size ≡ ok r
    → plan_playback_range value size head_bytes tail_bytes default_bytes open_bytes ≡ ok p
    → Shortens p r
unfolding plan_playback_range
plan_of_parsed [] size hb tb db ob r {p} pos e h = plan_of_empty size hb tb db ob pos e h
plan_of_parsed (c ∷ value) size hb tb db ob r {p} pos e h =
    let b = parse_range_header-InBounds (c ∷ value) size {r = r} e in
    ground (
      arith,
      plan_match-Shortens (match_range (trim_space (c ∷ value))) r size hb tb ob b
          (λ d left m. parse_range_header-open c value size d left m e),
    )

Result-cases :
    (x : Result RangeError ByteRange) {A : Type 0}
    → ((r : ByteRange) → x ≡ ok r → A)
    → ((e : RangeError) → x ≡ err e → A)
    → A
Result-cases (ok r) f g = f r refl
Result-cases (err e) f g = g e refl

-- For a head that is not empty: the planner answers only where the parser does, with a range that
-- starts where the parsed one starts, ends no later, and lies inside the file.
pub plan_playback_range-Shortens :
    (value : Text) (size head_bytes tail_bytes default_bytes : ℕ) (open_bytes : Option ℕ)
    {p : ByteRange}
    → 0 < head_bytes
    → plan_playback_range value size head_bytes tail_bytes default_bytes open_bytes ≡ ok p
    → (r : ByteRange) × (parse_range_header value size ≡ ok r) × Shortens p r × InBounds size p
unfolding plan_playback_range
plan_playback_range-Shortens value size hb tb db ob {p} pos h =
    Result-cases (parse_range_header value size)
      (λ r e.
        let s = plan_of_parsed value size hb tb db ob r {p = p} pos e h in
        let b = parse_range_header-InBounds value size {r = r} e in (r, e, s, ground arith))
      (λ e x. ground arith)

parse_span-not_satisfiable :
    (left right : Text) (size : ℕ)
    → parse_span left right size ≡ err not_satisfiable
    → (start : ℕ) × (parse_unsigned left ≡ some start) × (size ≤ start)
unfolding parse_span parse_end clip_end
parse_span-not_satisfiable left right size h = ground arith

parse_bounds-not_satisfiable :
    (left right : Text) (size : ℕ)
    → parse_bounds left right size ≡ err not_satisfiable
    → (start : ℕ) × (parse_unsigned left ≡ some start) × (size ≤ start)
unfolding parse_bounds parse_suffix
parse_bounds-not_satisfiable [] [] size h = cc
parse_bounds-not_satisfiable [] (c ∷ right) size h = ground arith
parse_bounds-not_satisfiable (d ∷ left) right size h =
    parse_span-not_satisfiable (d ∷ left) right size h

-- A header that is answered as not satisfiable names a start, and that start is beyond the end of
-- the file.
pub parse_range_header-not_satisfiable :
    (value : Text) (size : ℕ)
    → parse_range_header value size ≡ err not_satisfiable
    → (left right : Text) × (start : ℕ) × (match_range (trim_space value) ≡ some (left, right))
      × (parse_unsigned left ≡ some start)
      × (size ≤ start)
unfolding parse_range_header
parse_range_header-not_satisfiable value size h =
    elim (Option-cases (match_range (trim_space value))) [
      | inl e ↦ ground arith
      | inr ((left, right), e) ↦
          let (start, parsed, over) = parse_bounds-not_satisfiable left right size (ground arith) in
          (left, right, start, e, parsed, over)
    ]
