-- ===== src/Base/Slices.antt =====
-- Parts of a list: `between lo hi xs` are the elements at the positions from `lo` to `hi`, without `hi`.
use Prim.Native.Nat.{ℕ, zero, suc, ◌+◌, ◌-◌, ◌≤◌, min}
use mathlib.Core.Path.{◌≡◌, refl, sym, ap, ap₂, subst, ◌∙◌}
use mathlib.Core.List.{List, [], ◌∷◌, ◌++◌}
use native.Mathlib.Omega.{arith}
use emby_range_cache_proxy.Base.Lists.{
  length, length-append, take, drop, take_of_length-le, length-take, length-drop,
}

suc_add : (m n : ℕ) → suc m + n ≡ suc (m + n)
suc_add m n = omega arith

min-suc : (m n : ℕ) → min (suc m) (suc n) ≡ suc (min m n)
min-suc m n = omega arith

sub_suc : (m n : ℕ) → suc m - suc n ≡ m - n
sub_suc m n = omega arith

zero_sub : (n : ℕ) → 0 ≡ 0 - n
zero_sub n = omega arith

min_zero : (n : ℕ) → 0 ≡ min n 0
min_zero n = omega arith

zero_min : (n : ℕ) → 0 ≡ min 0 n
zero_min n = omega arith

module _ {ℓ} {A : Type ℓ} where
  abbrev pub between : ℕ → ℕ → List A → List A
  between lo hi xs = take (hi - lo) (drop lo xs)

  -- The list starts with these elements.
  abbrev pub IsPrefix : List A → List A → Type ℓ
  IsPrefix p xs = p ≡ take (length p) xs

  pub take_nil : (n : ℕ) → take {A = A} n [] ≡ []
  take_nil zero = refl
  take_nil (suc n) = refl

  pub drop_nil : (n : ℕ) → drop {A = A} n [] ≡ []
  drop_nil zero = refl
  drop_nil (suc n) = refl

  pub take_add : (m n : ℕ) (xs : List A) → take (m + n) xs ≡ take m xs ++ take n (drop m xs)
  take_add zero n xs = ap (λ k. take k xs) (omega arith)
  take_add (suc m) n [] = take_nil (suc m + n) ∙ sym (take_nil n)
  take_add (suc m) n (x ∷ xs) =
      ap (λ k. take k (x ∷ xs)) (suc_add m n) ∙ ap (◌∷◌ x) (take_add m n xs)

  pub drop-drop : (m n : ℕ) (xs : List A) → drop m (drop n xs) ≡ drop (n + m) xs
  drop-drop m zero xs = ap (λ k. drop k xs) (omega arith)
  drop-drop m (suc n) [] = drop_nil m ∙ sym (drop_nil (suc n + m))
  drop-drop m (suc n) (x ∷ xs) = drop-drop m n xs ∙ sym (ap (λ k. drop k (x ∷ xs)) (suc_add n m))

  pub take-length-append : (xs ys : List A) → take (length xs) (xs ++ ys) ≡ xs
  take-length-append [] ys = refl
  take-length-append (x ∷ xs) ys = ap (◌∷◌ x) (take-length-append xs ys)

  pub drop-length-append : (xs ys : List A) → drop (length xs) (xs ++ ys) ≡ ys
  drop-length-append [] ys = refl
  drop-length-append (x ∷ xs) ys = drop-length-append xs ys

  pub take-take : (m n : ℕ) (xs : List A) → take m (take n xs) ≡ take (min m n) xs
  take-take zero n xs = ap (λ k. take k xs) (zero_min n)
  take-take (suc m) zero xs = ap (λ k. take k xs) (min_zero (suc m))
  take-take (suc m) (suc n) [] = sym (take_nil (min (suc m) (suc n)))
  take-take (suc m) (suc n) (x ∷ xs) =
      ap (◌∷◌ x) (take-take m n xs) ∙ sym (ap (λ k. take k (x ∷ xs)) (min-suc m n))

  pub drop-take : (m n : ℕ) (xs : List A) → drop m (take n xs) ≡ take (n - m) (drop m xs)
  drop-take zero n xs = ap (λ k. take k xs) (omega arith)
  drop-take (suc m) zero xs = ap (λ k. take k (drop (suc m) xs)) (zero_sub (suc m))
  drop-take (suc m) (suc n) [] = sym (take_nil (suc n - suc m))
  drop-take (suc m) (suc n) (x ∷ xs) =
      drop-take m n xs ∙ ap (λ k. take k (drop m xs)) (sym (sub_suc n m))

  pub length-between :
      (lo hi : ℕ) (xs : List A) → hi ≤ length xs → length (between lo hi xs) ≡ hi - lo
  length-between lo hi xs h =
      length-take (hi - lo) (drop lo xs) ∙ (omega (arith, length-drop lo xs))

  -- A part and the part that follows it.
  pub between-append :
      (lo mid hi : ℕ) (xs : List A)
      → lo ≤ mid
      → mid ≤ hi
      → between lo mid xs ++ between mid hi xs ≡ between lo hi xs
  between-append lo mid hi xs h k =
      let shifted : drop (mid - lo) (drop lo xs) ≡ drop mid xs =
        drop-drop (mid - lo) lo xs ∙ ap (λ n. drop n xs) (omega arith) in
      ap (λ ys. between lo mid xs ++ take (hi - mid) ys) (sym shifted)
      ∙ sym (take_add (mid - lo) (hi - mid) (drop lo xs))
      ∙ ap (λ n. take n (drop lo xs)) (omega arith)

  -- A part of a part.
  pub between-between :
      (i j lo hi : ℕ) (xs : List A)
      → lo + j ≤ hi
      → between i j (between lo hi xs) ≡ between (lo + i) (lo + j) xs
  between-between i j lo hi xs h =
      ap (take (j - i)) (drop-take i (hi - lo) (drop lo xs))
      ∙ take-take (j - i) (hi - lo - i) (drop i (drop lo xs))
      ∙ ap (λ n. take n (drop i (drop lo xs))) (omega arith)
      ∙ ap (take ((lo + j) - (lo + i))) (drop-drop i lo xs)

  -- What starts a list also starts it with something cut off in front of both.
  pub IsPrefix-drop : (n : ℕ) (p xs : List A) → IsPrefix p xs → IsPrefix (drop n p) (drop n xs)
  IsPrefix-drop n p xs h =
      ap (drop n) h
      ∙ drop-take n (length p) xs
      ∙ ap (λ k. take k (drop n xs)) (sym (length-drop n p))

  pub IsPrefix-take : (n : ℕ) (p xs : List A) → n ≤ length p → IsPrefix p xs → take n p ≡ take n xs
  IsPrefix-take n p xs k h =
      ap (take n) h ∙ take-take n (length p) xs ∙ ap (λ i. take i xs) (omega arith)

  -- Both cut off after `n` elements.
  pub IsPrefix-cut : (n : ℕ) (p xs : List A) → IsPrefix p xs → IsPrefix (take n p) (take n xs)
  IsPrefix-cut n p xs h =
      let size = length-take n p in
      ap (take n) h
      ∙ take-take n (length p) xs
      ∙ ap (λ i. take i xs) (omega (arith, size))
      ∙ sym (take-take (length (take n p)) n xs)

  pub take-append-ge :
      (n : ℕ) (xs ys : List A) → length xs ≤ n → take n (xs ++ ys) ≡ xs ++ take (n - length xs) ys
  take-append-ge n xs ys h =
      ap (λ k. take k (xs ++ ys)) (omega arith)
      ∙ take_add (length xs) (n - length xs) (xs ++ ys)
      ∙ ap₂ (λ a b. a ++ take (n - length xs) b) (take-length-append xs ys)
          (drop-length-append xs ys)

  -- The front of a prefix is a prefix.
  pub IsPrefix-front : (xs rest zs : List A) → IsPrefix (xs ++ rest) zs → IsPrefix xs zs
  IsPrefix-front xs rest zs h =
      sym (take-length-append xs rest)
      ∙ IsPrefix-take (length xs) (xs ++ rest) zs (omega (arith, length-append xs rest)) h

  pub drop-between :
      (n lo hi : ℕ) (xs : List A) → drop n (between lo hi xs) ≡ between (lo + n) hi xs
  drop-between n lo hi xs =
      drop-take n (hi - lo) (drop lo xs)
      ∙ ap (λ k. take k (drop n (drop lo xs))) (omega arith)
      ∙ ap (take (hi - (lo + n))) (drop-drop n lo xs)

  -- The start of a part is the part with this length.
  pub IsPrefix-between :
      (p : List A) (lo hi : ℕ) (xs : List A)
      → IsPrefix p (between lo hi xs)
      → (p ≡ between lo (lo + length p) xs) × (length p ≤ hi - lo)
  IsPrefix-between p lo hi xs h =
      let short : length p ≤ hi - lo = omega (
        arith,
        ap length h,
        length-take (length p) (between lo hi xs),
        length-take (hi - lo) (drop lo xs),
      ) in
      (
        h
            ∙ take-take (length p) (hi - lo) (drop lo xs)
            ∙ ap (λ k. take k (drop lo xs)) (omega arith),
        short,
      )

  pub IsPrefix-rest :
      (p rest : List A) (lo hi : ℕ) (xs : List A)
      → IsPrefix (p ++ rest) (between lo hi xs)
      → IsPrefix rest (between (lo + length p) hi xs)
  IsPrefix-rest p rest lo hi xs h =
      subst (λ ys. IsPrefix ys (between (lo + length p) hi xs)) (drop-length-append p rest)
        (subst (IsPrefix (drop (length p) (p ++ rest))) (drop-between (length p) lo hi xs)
          (IsPrefix-drop (length p) (p ++ rest) (between lo hi xs) h))

  pub IsPrefix-all : (xs ys : List A) → xs ≡ ys → IsPrefix xs ys
  IsPrefix-all xs ys e = e ∙ sym (take_of_length-le (length xs) ys (omega (arith, ap length e)))
