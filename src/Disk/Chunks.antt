-- ===== src/Disk/Chunks.antt =====
-- The loop that streams a part of a file to a channel, as headtail's IterBlock and middle's
-- streamSpan have it: io.ReadFull of at most a buffer at a time. On fuel: each round sends a byte at
-- least, so the bytes that remain are enough.
use emby_range_cache_proxy.Base.{
  ℕ, zero, suc, ◌-◌, ◌≤◌, ◌<◌, min, ◌≡◌, refl, sym, ap, ◌∙◌, Bool, true, false, List, [], ◌∷◌, ◌++◌,
  arith, ltb, ◌==◌, if◌then◌else◌, All, Bool-cases, inl, inr, length, take, drop, length-take,
  length-drop,
}
use emby_range_cache_proxy.Base.Texts.{Text}

-- The chunks that were sent, and whether the loop reached its end; it stops where the file is short.
unfoldable pub read_chunks : ℕ → ℕ → ℕ → Text → List Text × Bool
read_chunks zero remaining chunk_bytes rest = ([], remaining == 0)
read_chunks (suc f) remaining chunk_bytes rest =
    let n = min chunk_bytes remaining in
    let (chunks, whole) = read_chunks f (remaining - n) chunk_bytes (drop n rest) in
    if remaining == 0
    then ([], true)
    else if ltb (length rest) n
    then ([], false)
    else (take n rest ∷ chunks, whole)

abbrev pub concat : List Text → Text
concat [] = []
concat (c ∷ cs) = c ++ concat cs

abbrev pub IsChunk : ℕ → Text → Type 0
IsChunk chunk_bytes c = (0 < length c) × (length c ≤ chunk_bytes)

take-take-drop : (m n : ℕ) (xs : Text) → n ≤ m → take n xs ++ take (m - n) (drop n xs) ≡ take m xs
take-take-drop m zero xs h = ap (λ k. take k xs) (omega arith)
take-take-drop zero (suc n) xs h = elim h [ ]
take-take-drop (suc m) (suc n) [] h = nil_taken (suc m - suc n)
  where
    nil_taken : (k : ℕ) → take {A = ℕ} k [] ≡ []
    nil_taken zero = refl
    nil_taken (suc k) = refl
take-take-drop (suc m) (suc n) (x ∷ xs) h =
    let e : suc m - suc n ≡ m - n = omega arith in
    rw e (ap (◌∷◌ x) (take-take-drop m n xs (omega arith)))

-- If the file holds the bytes that remain, the chunks are those bytes, in order, none of them empty
-- or larger than the buffer.
pub read_chunks-concat :
    (f remaining chunk_bytes : ℕ) (rest : Text)
    → 0 < chunk_bytes
    → remaining ≤ f
    → remaining ≤ length rest
    → let r = read_chunks f remaining chunk_bytes rest in
      (concat r.0 ≡ take remaining rest) × (r.1 ≡ true) × All (IsChunk chunk_bytes) r.0
unfolding read_chunks
read_chunks-concat zero remaining b rest pos enough h =
    let z : remaining ≡ 0 = omega arith in (sym (ap (λ k. take k rest) z), ground arith, tt)
read_chunks-concat (suc f) remaining b rest pos enough h = elim (Bool-cases (remaining == 0)) [
  | inl e ↦ let z : remaining ≡ 0 = ground arith in rw e (sym (ap (λ k. take k rest) z), refl, tt)
  | inr e ↦
      let n = min b remaining in
      let (same, whole, chunks) =
        read_chunks-concat f (remaining - n) b (drop n rest) pos (ground arith)
          (omega (arith, length-drop n rest)) in
      let long : ltb (length rest) n ≡ false = ground arith in
      rw (e, long)
        (
          ap (◌++◌ (take n rest)) same ∙ take-take-drop remaining n rest (omega arith),
          whole,
          ((ground (arith, length-take n rest), omega (arith, length-take n rest)), chunks),
        )
]
