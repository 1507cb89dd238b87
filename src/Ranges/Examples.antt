-- ===== src/Ranges/Examples.antt =====
-- Tests of the Range header's parser and planner, and their theorems at concrete requests.
use emby_range_cache_proxy.Base.{ℕ, ◌≡◌, refl, some, [], arith, ok, err}
use emby_range_cache_proxy.Base.Texts.{
  codes, strip_prefix, span_digits, contains_byte, trim_space, parse_unsigned, format_int,
}
use emby_range_cache_proxy.Model.{ByteRange, InBounds}
use emby_range_cache_proxy.Ranges.{
  empty_range, multiple_ranges, match_range, parse_range_header, plan_playback_range,
  content_range_header,
}
use emby_range_cache_proxy.Ranges.Bounds.{
  Shortens, parse_range_header-InBounds, plan_playback_range-Shortens,
}
use emby_range_cache_proxy.Ranges.RoundTrip.{range_header, plan_playback_range-open}
use emby_range_cache_proxy.Ranges.Reference.{
  between_bytes, printed, bytes_asked, parse_range_header-printed,
}

program : Unit {0}
unfolding match_range parse_range_header plan_playback_range strip_prefix span_digits contains_byte
    trim_space parse_unsigned format_int content_range_header
program = tt

abbrev range : ℕ → ℕ → ByteRange
range start end = record { start = start; end = end }

closed : parse_range_header (codes " bytes=5-99 ") 50 ≡ ok (range 5 49)
unfolding program
closed = refl

rejected :
    (parse_range_header (codes "bytes=-") 50 ≡ err empty_range)
    × (parse_range_header (codes "bytes=1-2,4-5") 50 ≡ err multiple_ranges)
unfolding program
rejected = (refl, refl)

open_in_head : plan_playback_range (codes "bytes=3-") 1000 100 100 0 (some 20) ≡ ok (range 3 22)
unfolding program
open_in_head = refl

header_printed : content_range_header (range 5 49) 50 ≡ codes "bytes 5-49/50"
unfolding program
header_printed = refl

parse_range_header-InBounds_example : InBounds 50 (range 5 49)
unfolding program
parse_range_header-InBounds_example = parse_range_header-InBounds (codes "bytes=5-99") 50 refl

plan_playback_range-Shortens_example :
    (r : ByteRange) × (parse_range_header (codes "bytes=3-") 1000 ≡ ok r)
    × Shortens (range 3 22) r
    × InBounds 1000 (range 3 22)
unfolding program
plan_playback_range-Shortens_example =
    plan_playback_range-Shortens (codes "bytes=3-") 1000 100 100 0 (some 20) (omega arith) refl

plan_playback_range-open_example :
    plan_playback_range (range_header (format_int 3) []) 1000 100 100 0 (some 20) ≡ ok (range 3 22)
plan_playback_range-open_example =
    plan_playback_range-open 1000 (omega arith) 3 100 100 0 20 (omega arith) (omega arith)
      (omega arith)

parse_range_header-printed_example :
    parse_range_header (printed (between_bytes 5 99)) 50 ≡ bytes_asked 50 (between_bytes 5 99)
parse_range_header-printed_example =
    parse_range_header-printed 50 (between_bytes 5 99) (omega arith) (omega arith, omega arith)
