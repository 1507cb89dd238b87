-- ===== src/Disk/Sidecar.antt =====
-- The file that stands beside a block and says which bytes the block holds: `start-end` and a line
-- feed. headtail's readRange and middle's readSidecar.
use emby_range_cache_proxy.Base.{
  ℕ, ◌≤◌, ◌≡◌, refl, false, Option, none, some, [], ◌∷◌, ◌++◌, arith, ltb, ◌==◌, if◌then◌else◌,
  All-append,
}
use emby_range_cache_proxy.Base.Texts.{
  Text, is_space, NoSpace, AllDigits, trim_space, trim_left, trim_right, trim_cons, contains_byte,
  parse_unsigned, format_int, max_int64,
}
use emby_range_cache_proxy.Base.Texts.RoundTrip.{
  format_int-AllDigits, format_int-NoSpace, format_int-cons, parse_unsigned-format_int,
  AllDigits-contains_byte,
}
use emby_range_cache_proxy.Model.{ByteRange}

-- `%d-%d\n`
unfoldable pub print_range : ByteRange → Text
print_range r = format_int r.start ++ b'-' ∷ format_int r.end ++ 10 ∷ []

-- strconv.ParseInt on a text with no minus sign, which may begin with a plus sign.
parse_part : Text → Option ℕ
parse_part [] = none
parse_part (c ∷ s) = if c == b'+' then parse_unsigned s else parse_unsigned (c ∷ s)

-- strings.Split at `-` into exactly two parts.
split_dash : Text → Option (Text × Text)
split_dash [] = none
split_dash (c ∷ s) =
    let later : Option (Text × Text) = elim (split_dash s) [
      | none ↦ none
      | some (l, r) ↦ some (c ∷ l, r)
    ] in
    if c == b'-' then (if contains_byte b'-' s then none else some ([], s)) else later

read_parts : Option (Text × Text) → Option ByteRange
unfolding parse_part
read_parts none = none
read_parts (some (left, right)) = elim (parse_part left) [
  | none ↦ none
  | some start ↦ elim (parse_part right) [
    | none ↦ none
    | some end ↦ some (record { start = start; end = end })
  ]
]

-- readSidecar of the middle cache.
unfoldable pub read_sidecar : Text → Option ByteRange
unfolding split_dash read_parts
read_sidecar content = read_parts (split_dash (trim_space content))

-- readRange of the head and tail cache, which refuses a range that ends before its start.
unfoldable pub read_range : Text → Option ByteRange
unfolding read_sidecar
read_range content = elim (read_sidecar content) [
  | none ↦ none
  | some r ↦ if ltb r.end r.start then none else some r
]

trim_left-line :
    (c : ℕ) (s : Text) → is_space c ≡ false → trim_left (c ∷ s ++ 10 ∷ []) ≡ c ∷ s ++ 10 ∷ []
unfolding trim_left
trim_left-line c s h = rw h

trim_cons-NoSpace : (c : ℕ) (s : Text) → is_space c ≡ false → trim_cons c s ≡ c ∷ s
trim_cons-NoSpace c [] h = rw h
trim_cons-NoSpace c (d ∷ s) h = refl

trim_right-line : (s : Text) → NoSpace s → trim_right (s ++ 10 ∷ []) ≡ s
unfolding trim_right
trim_right-line [] h = refl
trim_right-line (c ∷ s) h = rw (trim_right-line s h.1) (trim_cons-NoSpace c s h.0)

trim_space-line : (c : ℕ) (s : Text) → NoSpace (c ∷ s) → trim_space (c ∷ s ++ 10 ∷ []) ≡ c ∷ s
unfolding trim_space
trim_space-line c s h = rw (trim_left-line c s h.0) (trim_right-line (c ∷ s) h)

split_dash-digits :
    (s t : Text) → AllDigits s → AllDigits t → split_dash (s ++ b'-' ∷ t) ≡ some (s, t)
unfolding split_dash
split_dash-digits [] t h k = rw (AllDigits-contains_byte b'-' t k refl)
split_dash-digits (c ∷ s) t h k = ground (arith, split_dash-digits s t h.1 k, h.0)

parse_part-format_int : (n : ℕ) → n ≤ max_int64 → parse_part (format_int n) ≡ some n
unfolding parse_part
parse_part-format_int n h =
    let (c, s, e) = format_int-cons n in
    let d = rw e at (format_int-AllDigits n) in
    let p = rw e at (parse_unsigned-format_int n h) in rw e (ground (arith, d.0, p))

-- What was written beside a block is read back.
pub read_sidecar-print_range :
    (r : ByteRange)
    → r.start ≤ max_int64
    → r.end ≤ max_int64
    → read_sidecar (print_range r) ≡ some r
unfolding read_sidecar read_parts print_range
read_sidecar-print_range r h k =
    let (c, s, e) = format_int-cons r.start in
    let spaces = rw e at (
      All-append (λ b. is_space b ≡ false) (format_int r.start) (b'-' ∷ format_int r.end)
        (format_int-NoSpace r.start) (refl, format_int-NoSpace r.end)) in
    let digits = rw e at (format_int-AllDigits r.start) in
    let number = rw e at (parse_part-format_int r.start h) in
    let halves = split_dash-digits (c ∷ s) (format_int r.end) digits (format_int-AllDigits r.end) in
    let line = trim_space-line c (s ++ b'-' ∷ format_int r.end) spaces in
    rw (e, line, halves, read_parts, number, parse_part-format_int r.end k) refl

-- The range written beside a block, if it does not end before its start and ends below 2^63, is
-- read back.
pub read_range-print_range :
    (r : ByteRange) → r.start ≤ r.end → r.end ≤ max_int64 → read_range (print_range r) ≡ some r
unfolding read_range
read_range-print_range r h k = ground (arith, read_sidecar-print_range r)
