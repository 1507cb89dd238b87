-- ===== src/Prefetch/Gaps.antt =====
-- subtractRanges: the parts of a range that no stored block and no open task has.
mod Examples
use emby_range_cache_proxy.Base.{
  ℕ, ◌+◌, ◌-◌, ◌≤◌, ◌<◌, min, ◌≡◌, refl, ap₂, ◌∙◌, Bool, true, false, not, ◌&&◌, ◌||◌, List, [],
  ◌∷◌, ◌++◌, arith, ltb, leb, if◌then◌else◌, All, Bool-cases, inl, inr,
}
use emby_range_cache_proxy.Model.{ByteRange}
use emby_range_cache_proxy.Model.Intervals.{has_byte, covers}

-- The test behind the loop: what is left from `current` on.
rest_from : ByteRange → ℕ → List ByteRange
rest_from r current = if leb current r.end then record { start = current; end = r.end } ∷ [] else []

gap_before : ByteRange → ℕ → ByteRange → List ByteRange
gap_before r current ex =
    if ltb current ex.start
    then record { start = current; end = min (ex.start - 1) r.end } ∷ []
    else []

abbrev step_past : ℕ → ByteRange → ℕ
step_past current ex = if ltb current (ex.end + 1) then ex.end + 1 else current

subtract_from : ByteRange → ℕ → List ByteRange → List ByteRange
subtract_from r current [] = rest_from r current
subtract_from r current (ex ∷ existing) =
    let skip = subtract_from r current existing in
    let next = subtract_from r (step_past current ex) existing in
    if ltb ex.end current
    then skip
    else if ltb r.end ex.start
    then rest_from r current
    else if ltb r.end (step_past current ex)
    then gap_before r current ex ++ rest_from r (step_past current ex)
    else gap_before r current ex ++ next

unfoldable pub subtract_ranges : ByteRange → List ByteRange → List ByteRange
unfolding subtract_from rest_from gap_before
subtract_ranges r existing = subtract_from r r.start existing

-- As the store returns them: each with a byte, and in the order of their starts.
abbrev pub Sorted : ℕ → List ByteRange → Type 0
Sorted lo [] = Unit {0}
Sorted lo (r ∷ rs) = (lo ≤ r.start) × (r.start ≤ r.end) × Sorted r.start rs

covers_below : (lo b : ℕ) (rs : List ByteRange) → Sorted lo rs → b < lo → covers rs b ≡ false
unfolding covers
covers_below lo b [] s h = refl
covers_below lo b (r ∷ rs) s h = ground (arith, covers_below r.start b rs s.2)

covers-append :
    (xs ys : List ByteRange) (b : ℕ) → covers (xs ++ ys) b ≡ (covers xs b || covers ys b)
unfolding covers
covers-append [] ys b = refl
covers-append (x ∷ xs) ys b = ground (arith, covers-append xs ys b)

rest_from-covers :
    (r : ByteRange) (current b : ℕ)
    → covers (rest_from r current) b ≡ (leb current b && leb b r.end)
unfolding rest_from covers
rest_from-covers r current b = ground arith

gap_before-covers :
    (r ex : ByteRange) (current b : ℕ)
    → covers (gap_before r current ex) b ≡ (leb current b && ltb b ex.start && leb b r.end)
unfolding gap_before covers
gap_before-covers r ex current b = ground arith

-- One round: what stands before the entry, and what follows it, make up what was left.
round-covers :
    (r ex : ByteRange) (current b : ℕ) (hit : Bool)
    → ex.start ≤ ex.end
    → current ≤ ex.end
    → (b < ex.start → hit ≡ false)
    → (leb current b && ltb b ex.start && leb b r.end
        || (leb (step_past current ex) b && leb b r.end && not hit))
      ≡ (leb current b && leb b r.end && not (has_byte ex b || hit))
round-covers r ex current b hit o h k = ground arith

-- The round that ends the loop, since it steps past the range's end.
last_round-covers :
    (r ex : ByteRange) (current b : ℕ) (hit : Bool)
    → ex.start ≤ ex.end
    → current ≤ ex.end
    → r.end ≤ ex.end
    → (b < ex.start → hit ≡ false)
    → (leb current b && ltb b ex.start && leb b r.end
        || (leb (step_past current ex) b && leb b r.end))
      ≡ (leb current b && leb b r.end && not (has_byte ex b || hit))
last_round-covers r ex current b hit o h e k = ground arith

subtract_from-covers :
    (r : ByteRange) (current lo b : ℕ) (existing : List ByteRange)
    → Sorted lo existing
    → covers (subtract_from r current existing) b
      ≡ (leb current b && leb b r.end && not (covers existing b))
unfolding subtract_from covers
subtract_from-covers r current lo b [] s = rw rest_from-covers (ground arith)
subtract_from-covers r current lo b (ex ∷ existing) s =
    let below = covers_below ex.start b existing s.2 in
    let skipped = subtract_from-covers r current ex.start b existing s.2 in
    let next = subtract_from-covers r (step_past current ex) ex.start b existing s.2 in
    elim (Bool-cases (ltb ex.end current)) [
      | inl e ↦ rw e (rw skipped (ground arith))
      | inr e ↦ rw e (elim (Bool-cases (ltb r.end ex.start)) [
        | inl f ↦ rw f (rw rest_from-covers (ground arith))
        | inr f ↦ rw f (elim (Bool-cases (ltb r.end (step_past current ex))) [
          | inl g ↦ rw g (
              covers-append (gap_before r current ex) (rest_from r (step_past current ex)) b
              ∙ ap₂ ◌||◌ (gap_before-covers r ex current b)
                  (rest_from-covers r (step_past current ex) b)
              ∙ last_round-covers r ex current b (covers existing b) s.1 (ground arith)
                  (ground arith) below)
          | inr g ↦ rw g (
              covers-append (gap_before r current ex)
                (subtract_from r (step_past current ex) existing) b
              ∙ ap₂ ◌||◌ (gap_before-covers r ex current b) next
              ∙ round-covers r ex current b (covers existing b) s.1 (ground arith) below)
        ])
      ])
    ]

-- For a list of entries that are not empty, in the order of their starts: a byte is named by what
-- is left exactly if the range has it and no entry does.
pub subtract_ranges-covers :
    (r : ByteRange) (existing : List ByteRange) (b : ℕ)
    → Sorted 0 existing
    → covers (subtract_ranges r existing) b ≡ (has_byte r b && not (covers existing b))
unfolding subtract_ranges
subtract_ranges-covers r existing b s = subtract_from-covers r r.start 0 b existing s ∙ ground arith

-- In order, apart from one another, each with a byte, and none beyond `hi`.
abbrev pub Separated : ℕ → ℕ → List ByteRange → Type 0
Separated lo hi [] = Unit {0}
Separated lo hi (r ∷ rs) =
    (lo ≤ r.start) × (r.start ≤ r.end) × (r.end ≤ hi) × Separated (r.end + 1) hi rs

Separated-weaken :
    (lo lo' hi : ℕ) (rs : List ByteRange) → lo ≤ lo' → Separated lo' hi rs → Separated lo hi rs
Separated-weaken lo lo' hi [] h s = tt
Separated-weaken lo lo' hi (r ∷ rs) h s = (omega arith, s.1, s.2, s.3)

rest_from-Separated : (r : ByteRange) (current : ℕ) → Separated current r.end (rest_from r current)
unfolding rest_from
rest_from-Separated r current = ground arith

gap_before-Separated :
    (r ex : ByteRange) (current next : ℕ) (rs : List ByteRange)
    → current ≤ next
    → ex.start ≤ next
    → ex.start ≤ r.end
    → Separated next r.end rs
    → Separated current r.end (gap_before r current ex ++ rs)
unfolding gap_before
gap_before-Separated r ex current next rs h k m s = elim (Bool-cases (ltb current ex.start)) [
  | inl e ↦
      rw e
        (omega arith, ground arith, omega arith, Separated-weaken _ next r.end rs (ground arith) s)
  | inr e ↦ rw e (Separated-weaken current next r.end rs h s)
]

subtract_from-Separated :
    (r : ByteRange) (current lo : ℕ) (existing : List ByteRange)
    → Sorted lo existing
    → Separated current r.end (subtract_from r current existing)
unfolding subtract_from
subtract_from-Separated r current lo [] s = rest_from-Separated r current
subtract_from-Separated r current lo (ex ∷ existing) s =
    let next = step_past current ex in
    elim (Bool-cases (ltb ex.end current)) [
      | inl e ↦ rw e (subtract_from-Separated r current ex.start existing s.2)
      | inr e ↦ rw e (elim (Bool-cases (ltb r.end ex.start)) [
        | inl f ↦ rw f (rest_from-Separated r current)
        | inr f ↦ rw f (elim (Bool-cases (ltb r.end next)) [
          | inl g ↦ rw g (
              gap_before-Separated r ex current next (rest_from r next) (ground arith)
                (ground arith) (ground arith) (rest_from-Separated r next))
          | inr g ↦ rw g (
              gap_before-Separated r ex current next (subtract_from r next existing) (ground arith)
                (ground arith) (ground arith)
                (subtract_from-Separated r next ex.start existing s.2))
        ])
      ])
    ]

-- For a list of entries that are not empty, in the order of their starts: what is left is listed in
-- order, in ranges that are not empty, do not overlap and stay inside the range.
pub subtract_ranges-Separated :
    (r : ByteRange) (existing : List ByteRange)
    → Sorted 0 existing
    → Separated r.start r.end (subtract_ranges r existing)
unfolding subtract_ranges
subtract_ranges-Separated r existing s = subtract_from-Separated r r.start 0 existing s
