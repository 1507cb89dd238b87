-- ===== src/Prefetch/Gaps/Examples.antt =====
-- Tests of the subtraction of ranges, and its theorems at a concrete list.
use emby_range_cache_proxy.Base.{ℕ, ◌≡◌, refl, ◌&&◌, not, List, [], ◌∷◌, arith}
use emby_range_cache_proxy.Model.{ByteRange}
use emby_range_cache_proxy.Model.Intervals.{has_byte, covers}
use emby_range_cache_proxy.Prefetch.Gaps.{
  subtract_ranges, Sorted, subtract_ranges-covers, Separated, subtract_ranges-Separated,
}

abbrev range : ℕ → ℕ → ByteRange
range start end = record { start = start; end = end }

-- The last entry lies inside the second.
abbrev stored : List ByteRange
stored = range 0 9 ∷ range 20 49 ∷ range 30 39 ∷ []

left : subtract_ranges (range 5 99) stored ≡ range 10 19 ∷ range 50 99 ∷ []
unfolding subtract_ranges
left = refl

stored-Sorted : Sorted 0 stored
stored-Sorted = omega arith

subtract_ranges-covers_example :
    covers (subtract_ranges (range 5 99) stored) 12
    ≡ (has_byte (range 5 99) 12 && not (covers stored 12))
subtract_ranges-covers_example = subtract_ranges-covers (range 5 99) stored 12 stored-Sorted

subtract_ranges-Separated_example : Separated 5 99 (subtract_ranges (range 5 99) stored)
subtract_ranges-Separated_example = subtract_ranges-Separated (range 5 99) stored stored-Sorted
