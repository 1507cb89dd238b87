-- ===== src/App/Access/Equality.antt =====
-- subtleEqual decides equality.
use Prim.Native.Nat.{bit_or, bit_xor, bit_or-bitwise, bit_xor-bitwise, digits, differ}
use emby_range_cache_proxy.Base.{
  ℕ, zero, suc, ◌/◌, ◌%◌, ◌≤◌, max, ◌≡◌, refl, ap, ap₂, sym, ◌∙◌, true, false, not, [], ◌∷◌, ◌==◌,
  ◌↔◌, if◌then◌else◌, length, arith, Bool-cases, inl, inr,
}
use emby_range_cache_proxy.Base.Texts.{Text, same_text, same_text_refl, eq_of_same_text}
use emby_range_cache_proxy.App.Access.{difference, subtle_equal}

differ-zero : (x y : ℕ) → differ x y ≡ 0 → x ≡ y
differ-zero zero y h = sym h
differ-zero (suc x) zero h = h
differ-zero (suc x) (suc y) h = ap suc (differ-zero x y h)

differ_self : (x : ℕ) → differ x x ≡ 0
differ_self zero = refl
differ_self (suc x) = differ_self x

xor_digits : (n a b : ℕ) → a ≤ n → digits (λ b. b) differ n a b ≡ 0 → a ≡ b
xor_digits zero a b h e = omega (arith, e)
xor_digits (suc n) zero b h e = sym e
xor_digits (suc n) (suc a) b h e =
    let low = differ-zero (suc a % 2) (b % 2) (omega (arith, e)) in
    let high = xor_digits n (suc a / 2) (b / 2) (omega arith) (omega (arith, e)) in
    omega (arith, low, high)

xor_digits_self : (n a : ℕ) → a ≤ n → digits (λ b. b) differ n a a ≡ 0
xor_digits_self zero a h = omega arith
xor_digits_self (suc n) zero h = refl
xor_digits_self (suc n) (suc a) h =
    omega (arith, xor_digits_self n (suc a / 2) (omega arith), differ_self (suc a % 2))

or_digits : (n a b : ℕ) → a ≤ n → digits (λ b. b) max n a b ≡ 0 → (a ≡ 0) × (b ≡ 0)
or_digits zero a b h e = (omega arith, e)
or_digits (suc n) zero b h e = (refl, e)
or_digits (suc n) (suc a) b h e =
    let (low, high) = or_digits n (suc a / 2) (b / 2) (omega arith) (omega (arith, e)) in
    (omega (arith, low, e), omega (arith, high, e))

le_self : (n : ℕ) → n ≤ n
le_self n = omega arith

bit_xor-zero : (a b : ℕ) → (bit_xor a b ≡ 0) ↔ (a ≡ b)
bit_xor-zero a b = (
  λ e. xor_digits a a b (le_self a) (sym (bit_xor-bitwise a b) ∙ e),
  λ e.
      bit_xor-bitwise a b
      ∙ ap (digits (λ b. b) differ a a) (sym e)
      ∙ xor_digits_self a a (le_self a),
)

bit_or-zero : (a b : ℕ) → bit_or a b ≡ 0 → (a ≡ 0) × (b ≡ 0)
bit_or-zero a b e = or_digits a a b (le_self a) (sym (bit_or-bitwise a b) ∙ e)

-- With nothing found before and as many bytes in both, nothing is found exactly in equal texts.
difference-zero :
    (out : ℕ) (s t : Text) → length s ≡ length t → difference out s t ≡ 0 → (out ≡ 0) × (s ≡ t)
difference-zero out [] [] h e = (e, refl)
difference-zero out [] (d ∷ t) h e = absurd (omega arith)
difference-zero out (c ∷ s) [] h e = absurd (omega arith)
difference-zero out (c ∷ s) (d ∷ t) h e =
    let (found, rest) = difference-zero (bit_or out (bit_xor c d)) s t (omega arith) e in
    let (before, here) = bit_or-zero out (bit_xor c d) found in
    (before, ap₂ ◌∷◌ ((bit_xor-zero c d).0 here) rest)

difference_self : (s : Text) → difference 0 s s ≡ 0
difference_self [] = refl
difference_self (c ∷ s) =
    ap (λ k. difference (bit_or 0 k) s s) ((bit_xor-zero c c).1 refl)
    ∙ ap (λ k. difference k s s) (bit_or-bitwise 0 0)
    ∙ difference_self s

-- The comparison that looks at every byte answers as an ordinary one does.
pub subtle_equal-same_text : (a b : Text) → subtle_equal a b ≡ same_text a b
unfolding subtle_equal
subtle_equal-same_text a b = elim (Bool-cases (same_text a b)) [
  | inl e ↦ let same = eq_of_same_text a b e in rw (e, sym same) (equal_self a)
  | inr e ↦ elim (Bool-cases (length a == length b)) [
    | inr f ↦ rw (e, f) refl
    | inl f ↦ elim (Bool-cases (difference 0 a b == 0)) [
      | inr g ↦ rw (e, f, g) refl
      | inl g ↦
          let same = (difference-zero 0 a b (ground arith) (ground arith)).1 in
          absurd (differ_from e (ap (same_text a) (sym same) ∙ same_text_refl a))
    ]
  ]
]
  where
    differ_from : same_text a b ≡ false → same_text a b ≡ true → ⊥
    differ_from e f = cc

    equal_self :
        (a : Text) → (if not (length a == length a) then false else difference 0 a a == 0) ≡ true
    equal_self a = ground (arith, difference_self a)
