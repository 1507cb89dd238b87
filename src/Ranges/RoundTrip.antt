-- ===== src/Ranges/RoundTrip.antt =====
-- The headers that a client prints are read back as the ranges that they name.
use emby_range_cache_proxy.Base.{
  ℕ, ◌+◌, ◌-◌, ◌≤◌, ◌<◌, min, ◌≡◌, refl, ◌∙◌, false, some, [], ◌∷◌, ◌++◌, arith, ltb, if◌then◌else◌,
  ok, err, All-append,
}
use emby_range_cache_proxy.Base.Texts.{
  Text, codes, NoSpace, AllDigits, strip_prefix, contains_byte, trim_space, format_int, max_int64,
}
use emby_range_cache_proxy.Base.Texts.RoundTrip.{
  format_int-AllDigits, format_int-cons, parse_unsigned-format_int, span_digits-append,
  span_digits-AllDigits, trim_space-NoSpace, contains_byte-append, AllDigits-contains_byte,
  AllDigits-NoSpace,
}
use emby_range_cache_proxy.Ranges.{
  not_satisfiable, match_right, match_dash, match_range, parse_suffix, parse_end, clip_end,
  parse_span, parse_bounds, parse_range_header, head_response_end, plan_open, plan_match,
  plan_playback_range,
}

-- `bytes=left-right`
abbrev pub range_header : Text → Text → Text
range_header left right = codes "bytes=" ++ left ++ b'-' ∷ right

range_header-NoSpace :
    (left right : Text) → NoSpace left → NoSpace right → NoSpace (range_header left right)
range_header-NoSpace left right h k =
    All-append _ (codes "bytes=") (left ++ b'-' ∷ right) (ground arith)
      (All-append _ left (b'-' ∷ right) h (refl, k))

range_header-one :
    (left right : Text)
    → AllDigits left
    → AllDigits right
    → contains_byte b',' (range_header left right) ≡ false
unfolding contains_byte
range_header-one left right h k =
    contains_byte-append b',' (codes "bytes=") (left ++ b'-' ∷ right) refl (
      contains_byte-append b',' left (b'-' ∷ right) (AllDigits-contains_byte b',' left h refl)
        (AllDigits-contains_byte b',' right k refl))

match_range-range_header :
    (left right : Text)
    → AllDigits left
    → AllDigits right
    → match_range (range_header left right) ≡ some (left, right)
unfolding match_range match_dash match_right strip_prefix
match_range-range_header left right h k =
    rw (span_digits-append left b'-' right h refl) (rw (span_digits-AllDigits right k))

match_range-trim :
    (left right : Text)
    → AllDigits left
    → AllDigits right
    → match_range (trim_space (range_header left right)) ≡ some (left, right)
match_range-trim left right h k =
    rw
      (trim_space-NoSpace (range_header left right)
        (range_header-NoSpace left right (AllDigits-NoSpace left h) (AllDigits-NoSpace right k)))
      (match_range-range_header left right h k)

-- A header with two texts of digits is judged by its bounds alone.
pub parse_range_header-range_header :
    (left right : Text) (size : ℕ)
    → AllDigits left
    → AllDigits right
    → 0 < size
    → parse_range_header (range_header left right) size ≡ parse_bounds left right size
unfolding parse_range_header
parse_range_header-range_header left right size h k pos =
    let m = match_range-trim left right h k in
    let c = range_header-one left right h k in ground (arith, m, c)

module _ (size : ℕ) (pos : 0 < size) where
  -- `bytes=a-b`, with `a` in the file, `a <= b` and `b` below 2^63, names the bytes from `a` to
  -- `b`, cut at the end of the file.
  pub parse_range_header-closed :
      (a b : ℕ)
      → a < size
      → a ≤ b
      → b ≤ max_int64
      → parse_range_header (range_header (format_int a) (format_int b)) size
        ≡ ok (record { start = a; end = min b (size - 1) })
  unfolding parse_bounds parse_span parse_end clip_end
  parse_range_header-closed a b h k m =
      let (c, s, e) = format_int-cons a in
      let (d, t, f) = format_int-cons b in
      parse_range_header-range_header (format_int a) (format_int b) size (format_int-AllDigits a)
        (format_int-AllDigits b) pos
      ∙ ground (arith, e, f, parse_unsigned-format_int a, parse_unsigned-format_int b)

  -- `bytes=a-`, with `a` in the file and below 2^63, names everything from `a` on.
  pub parse_range_header-open :
      (a : ℕ)
      → a < size
      → a ≤ max_int64
      → parse_range_header (range_header (format_int a) []) size
        ≡ ok (record { start = a; end = size - 1 })
  unfolding parse_bounds parse_span parse_end clip_end
  parse_range_header-open a h m =
      let (c, s, e) = format_int-cons a in
      parse_range_header-range_header (format_int a) [] size (format_int-AllDigits a) tt pos
      ∙ ground (arith, e, parse_unsigned-format_int a)

  -- `bytes=-n`, with `n` positive and below 2^63, names the last `n` bytes of a file that is not
  -- empty, or the whole file if it has no more than that.
  pub parse_range_header-suffix :
      (n : ℕ)
      → 0 < n
      → n ≤ max_int64
      → parse_range_header (range_header [] (format_int n)) size
        ≡ ok (record { start = size - n; end = size - 1 })
  unfolding parse_bounds parse_suffix
  parse_range_header-suffix n h m =
      let (c, s, e) = format_int-cons n in
      parse_range_header-range_header [] (format_int n) size tt (format_int-AllDigits n) pos
      ∙ ground (arith, e, parse_unsigned-format_int n)

  -- A start beyond the end of a file that is not empty, below 2^63, is answered as not satisfiable,
  -- whatever digits the end has.
  pub parse_range_header-beyond :
      (a : ℕ) (right : Text)
      → size ≤ a
      → a ≤ max_int64
      → AllDigits right
      → parse_range_header (range_header (format_int a) right) size ≡ err not_satisfiable
  unfolding parse_bounds parse_span
  parse_range_header-beyond a right h m k =
      let (c, s, e) = format_int-cons a in
      parse_range_header-range_header (format_int a) right size (format_int-AllDigits a) k pos
      ∙ ground (arith, e, parse_unsigned-format_int a)

  -- `bytes=a-`, with `a` in the file: if it starts in the head block it is cut at the block's end,
  -- or after the configured positive number of bytes if that is sooner; if it starts behind the
  -- head it runs to the end of the file.
  pub plan_playback_range-open :
      (a head_bytes tail_bytes default_bytes bytes : ℕ)
      → a < size
      → a ≤ max_int64
      → 0 < bytes
      → plan_playback_range
          (range_header (format_int a) [])
          size
          head_bytes
          tail_bytes
          default_bytes
          (some bytes)
        ≡ ok (record {
          start = a;
          end =
              if ltb a (min head_bytes size)
              then min (a + bytes - 1) (min head_bytes size - 1)
              else size - 1;
        })
  unfolding plan_playback_range plan_match plan_open head_response_end
  plan_playback_range-open a hb tb db bytes h m k =
      let (c, s, e) = format_int-cons a in
      ground (
        arith,
        e,
        parse_range_header-open a h m,
        match_range-trim (format_int a) [] (format_int-AllDigits a) tt,
      )
