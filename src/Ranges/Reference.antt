-- ===== src/Ranges/Reference.antt =====
-- What a Range header asks for, told without its text, and that the parser answers so.
use emby_range_cache_proxy.Base.{
  ℕ, ◌-◌, ◌≤◌, ◌<◌, min, ◌≡◌, ◌∙◌, [], arith, ltb, leb, ◌==◌, if◌then◌else◌, Result, ok, err,
}
use emby_range_cache_proxy.Base.Texts.{Text, format_int, max_int64}
use emby_range_cache_proxy.Base.Texts.RoundTrip.{
  format_int-AllDigits, format_int-cons, parse_unsigned-format_int,
}
use emby_range_cache_proxy.Model.{ByteRange}
use emby_range_cache_proxy.Ranges.{
  RangeError, not_satisfiable, end_before_start, invalid_suffix, parse_bounds, parse_suffix,
  parse_end, clip_end, parse_span, parse_range_header,
}
use emby_range_cache_proxy.Ranges.RoundTrip.{range_header, parse_range_header-range_header}

-- From one byte to another, from a byte on, or a number of bytes at the end.
pub data Asked : Type 0 where
  between_bytes : ℕ → ℕ → Asked
  from_byte : ℕ → Asked
  last_bytes : ℕ → Asked

-- `bytes=a-b`, `bytes=a-` and `bytes=-n`
abbrev pub printed : Asked → Text
printed (between_bytes a b) = range_header (format_int a) (format_int b)
printed (from_byte a) = range_header (format_int a) []
printed (last_bytes n) = range_header [] (format_int n)

-- The bytes of a file of `size` bytes that are asked for, if there are any.
abbrev pub bytes_asked : ℕ → Asked → Result RangeError ByteRange
bytes_asked size (between_bytes a b) =
    if leb size a
    then err not_satisfiable
    else if ltb b a
    then err end_before_start
    else ok (record { start = a; end = min b (size - 1) })
bytes_asked size (from_byte a) =
    if leb size a then err not_satisfiable else ok (record { start = a; end = size - 1 })
bytes_asked size (last_bytes n) =
    if n == 0 then err invalid_suffix else ok (record { start = size - n; end = size - 1 })

-- The numbers can be held.
abbrev pub IsHeld : Asked → Type 0
IsHeld (between_bytes a b) = (a ≤ max_int64) × (b ≤ max_int64)
IsHeld (from_byte a) = a ≤ max_int64
IsHeld (last_bytes n) = n ≤ max_int64

-- For a file that is not empty and numbers below 2^63, the parser answers a printed header as its three
-- forms are meant: with the bytes asked for, cut at the end of the file; or with an error if the first
-- one does not exist, if the end is before the start, or if no byte at the end is asked for.
pub parse_range_header-printed :
    (size : ℕ) (asked : Asked)
    → 0 < size
    → IsHeld asked
    → parse_range_header (printed asked) size ≡ bytes_asked size asked
unfolding parse_bounds parse_span parse_end clip_end parse_suffix
parse_range_header-printed size (between_bytes a b) pos (h, k) =
    let (c, s, e) = format_int-cons a in
    let (d, t, f) = format_int-cons b in
    parse_range_header-range_header (format_int a) (format_int b) size (format_int-AllDigits a)
      (format_int-AllDigits b) pos
    ∙ ground (arith, e, f, parse_unsigned-format_int a, parse_unsigned-format_int b)
parse_range_header-printed size (from_byte a) pos h =
    let (c, s, e) = format_int-cons a in
    parse_range_header-range_header (format_int a) [] size (format_int-AllDigits a) tt pos
    ∙ ground (arith, e, parse_unsigned-format_int a)
parse_range_header-printed size (last_bytes n) pos h =
    let (c, s, e) = format_int-cons n in
    parse_range_header-range_header [] (format_int n) size tt (format_int-AllDigits n) pos
    ∙ ground (arith, e, parse_unsigned-format_int n)
