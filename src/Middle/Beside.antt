-- ===== src/Middle/Beside.antt =====
-- The blocks of the middle cache beside the head and tail cache, whose directory they share.
use emby_range_cache_proxy.Base.{
  ℕ, ◌≡◌, refl, true, false, [], ◌∷◌, ◌++◌, arith, Bool-cases, inl, inr,
}
use emby_range_cache_proxy.Base.Texts.{Text, codes, format_int}
use emby_range_cache_proxy.Model.{ByteRange}
use emby_range_cache_proxy.Disk.{Disk, content_at}
use emby_range_cache_proxy.Disk.Contents.{Shrinks}
use emby_range_cache_proxy.HeadTail.{is_one_part, evict_if_needed}
use emby_range_cache_proxy.HeadTail.Evict.{evict_if_needed-IsKept, evict_if_needed-Shrinks}
use emby_range_cache_proxy.Middle.{relative_stem, paths}

separated_before : (a b : Text) → is_one_part a ≡ false → is_one_part (a ++ b) ≡ false
unfolding is_one_part
separated_before [] b h = absurd (differ h)
  where
    differ : true ≡ false → ⊥
    differ x = cc
separated_before (c ∷ a) b h = elim (Bool-cases (is_one_part a)) [
  | inl e ↦ ground (arith, h, e)
  | inr e ↦ ground (arith, separated_before a b e)
]

separated_after : (a b : Text) → is_one_part b ≡ false → is_one_part (a ++ b) ≡ false
unfolding is_one_part
separated_after [] b h = h
separated_after (c ∷ a) b h = ground (arith, separated_after a b h)

relative_stem-parts : (key : Text) (r : ByteRange) → is_one_part (relative_stem key r) ≡ false
unfolding relative_stem is_one_part
relative_stem-parts key r =
    let dir = key ++ codes "/mid/" in
    separated_before (dir ++ format_int r.start) (b'-' ∷ format_int r.end)
      (separated_before dir (format_int r.start) (separated_after key (codes "/mid/") refl))

-- EvictIfNeeded of the head and tail cache leaves both files of every middle block as they are, of
-- whatever size and age, and it neither adds a file nor changes the bytes of one.
pub evict_if_needed-beside :
    (key : Text) (r : ByteRange) (max_bytes : ℕ) (d : Disk)
    → let d' = evict_if_needed max_bytes d in
      (content_at (paths key r).0 d' ≡ content_at (paths key r).0 d)
      × (content_at (paths key r).1 d' ≡ content_at (paths key r).1 d)
      × Shrinks d' d
unfolding paths
evict_if_needed-beside key r max_bytes d =
    let kept =
      evict_if_needed-IsKept [] (relative_stem key r) (relative_stem-parts key r) max_bytes d in
    (kept.0, kept.1, evict_if_needed-Shrinks max_bytes d)
