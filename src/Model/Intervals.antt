-- ===== src/Model/Intervals.antt =====
-- Which bytes a list of ranges names.
use emby_range_cache_proxy.Base.{
  ℕ, ◌+◌, ◌≤◌, ◌<◌, ◌≡◌, ◌↔◌, Bool, true, false, ◌&&◌, ◌||◌, List, [], ◌∷◌, arith, leb,
}
use emby_range_cache_proxy.Model.{ByteRange}

abbrev pub has_byte : ByteRange → ℕ → Bool
has_byte r b = leb r.start b && leb b r.end

unfoldable pub covers : List ByteRange → ℕ → Bool
covers [] b = false
covers (r ∷ rs) b = has_byte r b || covers rs b

-- The ranges follow one another without a gap, from `lo` up to the byte before `stop`.
abbrev pub Tiles : ℕ → ℕ → List ByteRange → Type 0
Tiles lo stop [] = lo ≡ stop
Tiles lo stop (r ∷ rs) = (r.start ≡ lo) × (r.start ≤ r.end) × Tiles (r.end + 1) stop rs

pub Tiles-le : (lo stop : ℕ) (rs : List ByteRange) → Tiles lo stop rs → lo ≤ stop
Tiles-le lo stop [] h = omega arith
Tiles-le lo stop (r ∷ rs) h = omega (arith, Tiles-le (r.end + 1) stop rs h.2)

-- Such a list names each byte from `lo` up to `stop`, and no other.
pub covers-Tiles :
    (lo stop : ℕ) (rs : List ByteRange) (b : ℕ)
    → Tiles lo stop rs
    → (covers rs b ≡ true) ↔ ((lo ≤ b) × (b < stop))
unfolding covers
covers-Tiles lo stop [] b h = ground arith
covers-Tiles lo stop (r ∷ rs) b h =
    ground (arith, covers-Tiles (r.end + 1) stop rs b h.2, Tiles-le (r.end + 1) stop rs h.2)
