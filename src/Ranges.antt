-- ===== src/Ranges.antt =====
-- go/internal/ranges/ranges.go: the Range header of a request, and the range that is played back.
pub mod Bounds
pub mod RoundTrip
pub mod Reference
mod Examples
use emby_range_cache_proxy.Base.{
  ℕ, ◌+◌, ◌-◌, ◌*◌, min, Bool, true, false, Option, none, some, [], ◌∷◌, ◌++◌, ltb, leb, ◌==◌,
  if◌then◌else◌, Result, ok, err,
}
use emby_range_cache_proxy.Base.Texts.{
  Text, codes, strip_prefix, span_digits, contains_byte, trim_space, parse_unsigned, format_int,
}
use emby_range_cache_proxy.Model.{ByteRange}

abbrev pub mib : ℕ
mib = 1024 * 1024

-- A configured size that is not positive stands for 8 MiB.
unfoldable pub configured_head_tail : ℕ → ℕ → ℕ → ℕ × ℕ
configured_head_tail size head_bytes tail_bytes = (
  if head_bytes == 0 then 8 * mib else head_bytes,
  if tail_bytes == 0 then 8 * mib else tail_bytes,
)

unfoldable pub adaptive_head_tail : ℕ → ℕ × ℕ
unfolding configured_head_tail
adaptive_head_tail size = configured_head_tail size (8 * mib) (8 * mib)

-- One constructor for each `fmt.Errorf`; `not_satisfiable` wraps ErrRangeNotSatisfiable.
pub data RangeError : Type 0 where
  size_not_positive multiple_ranges invalid_header empty_range : RangeError
  invalid_suffix invalid_start not_satisfiable invalid_end end_before_start : RangeError

abbrev pub is_empty : Text → Bool
is_empty [] = true
is_empty (c ∷ s) = false

match_right : Text → Text × Text → Option (Text × Text)
match_right left (right, []) = some (left, right)
match_right left (right, c ∷ rest) = none

match_dash : Text × Text → Option (Text × Text)
unfolding match_right
match_dash (left, []) = none
match_dash (left, c ∷ rest) = if c == b'-' then match_right left (span_digits rest) else none

-- `^bytes=(\d*)-(\d*)$`, with its two groups.
unfoldable pub match_range : Text → Option (Text × Text)
unfolding match_dash
match_range value = elim (strip_prefix (codes "bytes=") value) [
  | none ↦ none
  | some bounds ↦ match_dash (span_digits bounds)
]

-- `bytes=-n`: the last `n` bytes. `start` stops at 0, as the source's test has it.
parse_suffix : Text → ℕ → Result RangeError ByteRange
parse_suffix right size = elim (parse_unsigned right) [
  | none ↦ err invalid_suffix
  | some length ↦
      if length == 0
      then err invalid_suffix
      else ok (record { start = size - length; end = size - 1 })
]

parse_end : Text → ℕ → Result RangeError ℕ
parse_end right size =
    if is_empty right
    then ok (size - 1)
    else elim (parse_unsigned right) [ none ↦ err invalid_end | some parsed_end ↦ ok parsed_end ]

clip_end : ℕ → ℕ → Result RangeError ℕ → Result RangeError ByteRange
clip_end start size (err e) = err e
clip_end start size (ok end) =
    if ltb end start
    then err end_before_start
    else ok (record { start = start; end = if leb size end then size - 1 else end })

parse_span : Text → Text → ℕ → Result RangeError ByteRange
unfolding parse_end clip_end
parse_span left right size = elim (parse_unsigned left) [
  | none ↦ err invalid_start
  | some start ↦
      if leb size start then err not_satisfiable else clip_end start size (parse_end right size)
]

unfoldable pub parse_bounds : Text → Text → ℕ → Result RangeError ByteRange
unfolding parse_suffix parse_span
parse_bounds left right size =
    if is_empty left
    then (if is_empty right then err empty_range else parse_suffix right size)
    else parse_span left right size

unfoldable pub parse_range_header : Text → ℕ → Result RangeError ByteRange
unfolding parse_bounds
parse_range_header value size =
    if size == 0
    then err size_not_positive
    else if is_empty value
    then ok (record { start = 0; end = size - 1 })
    else if contains_byte b',' value
    then err multiple_ranges
    else elim (match_range (trim_space value)) [
      | none ↦ err invalid_header
      | some (left, right) ↦ parse_bounds left right size
    ]

-- The end of an open range that starts inside the head block.
head_response_end : ℕ → ℕ → Option ℕ → ℕ
head_response_end start head_end none = head_end - 1
head_response_end start head_end (some bytes) =
    if bytes == 0 then head_end - 1 else min (start + bytes - 1) (head_end - 1)

-- The last two branches of the source return the same range.
plan_open : ByteRange → ℕ → ℕ → ℕ → Option ℕ → ByteRange
unfolding head_response_end
plan_open r size head_bytes tail_bytes open_head_response_bytes =
    let head_end = min head_bytes size in
    if ltb r.start head_end
    then record {
      start = r.start;
      end = head_response_end r.start head_end open_head_response_bytes;
    }
    else if leb (size - tail_bytes) r.start
    then record { start = r.start; end = size - 1 }
    else record { start = r.start; end = size - 1 }

plan_match : Option (Text × Text) → ByteRange → ℕ → ℕ → ℕ → Option ℕ → ByteRange
unfolding plan_open
plan_match none r size head_bytes tail_bytes open_bytes = r
plan_match (some (left, right)) r size head_bytes tail_bytes open_bytes =
    if is_empty left
    then r
    else if is_empty right
    then plan_open r size head_bytes tail_bytes open_bytes
    else r

-- `head_bytes` is positive. `default_open_range_bytes` is not read by the source either.
unfoldable pub plan_playback_range : Text → ℕ → ℕ → ℕ → ℕ → Option ℕ → Result RangeError ByteRange
unfolding plan_match
plan_playback_range value size head_bytes tail_bytes default_open_range_bytes open_bytes =
    elim (parse_range_header value size) [
      | err e ↦ err e
      | ok r ↦
          if is_empty value
          then ok (record { start = 0; end = min head_bytes size - 1 })
          else ok
              (plan_match (match_range (trim_space value)) r size head_bytes tail_bytes open_bytes)
    ]

-- `bytes %d-%d/%d`
unfoldable pub content_range_header : ByteRange → ℕ → Text
content_range_header r size =
    codes "bytes " ++ format_int r.start ++ b'-' ∷ format_int r.end ++ b'/' ∷ format_int size
