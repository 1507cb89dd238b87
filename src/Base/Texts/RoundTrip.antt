-- ===== src/Base/Texts/RoundTrip.antt =====
-- Printing a number and reading it back.
use Prim.Native.Nat.{ℕ, zero, suc, ◌+◌, ◌/◌, ◌%◌, ◌≤◌, ◌<◌}
use mathlib.Core.Path.{◌≡◌, refl, ◌∙◌}
use mathlib.Core.Logic.{inl, inr}
use mathlib.Core.Bool.{false}
use mathlib.Core.Option.{some}
use mathlib.Core.List.{[], ◌∷◌, ◌++◌}
use native.Mathlib.Omega.{arith}
use emby_range_cache_proxy.Base.Tests.{ltb, Bool-cases}
use emby_range_cache_proxy.Base.Texts.{
  Text, is_digit, is_space, trim_left, trim_cons, trim_right, trim_space, contains_byte,
  strip_prefix, span_digits, digits_value, max_int64, parse_unsigned, digits, format_int, AllDigits,
  NoSpace,
}

digits_value-digits :
    (f n : ℕ) (out : Text) → n < f → digits_value 0 (digits f n out) ≡ digits_value n out
unfolding digits digits_value
digits_value-digits zero n out h = elim h [ ]
digits_value-digits (suc f) n out h = elim (Bool-cases (ltb n 10)) [
  | inl e ↦ rw e (ground arith)
  | inr e ↦
      rw e (digits_value-digits f (n / 10) ((48 + n % 10) ∷ out) (ground arith) ∙ ground arith)
]

digits-AllDigits : (f n : ℕ) (out : Text) → AllDigits out → AllDigits (digits f n out)
unfolding digits
digits-AllDigits zero n out h = h
digits-AllDigits (suc f) n out h = elim (Bool-cases (ltb n 10)) [
  | inl e ↦ rw e (ground arith, h)
  | inr e ↦ rw e (digits-AllDigits f (n / 10) _ (ground arith, h))
]

pub format_int-AllDigits : (n : ℕ) → AllDigits (format_int n)
unfolding format_int
format_int-AllDigits n = digits-AllDigits (suc n) n [] tt

pub AllDigits-NoSpace : (s : Text) → AllDigits s → NoSpace s
AllDigits-NoSpace [] h = tt
AllDigits-NoSpace (c ∷ s) h = (ground arith, AllDigits-NoSpace s h.1)

pub format_int-NoSpace : (n : ℕ) → NoSpace (format_int n)
format_int-NoSpace n = AllDigits-NoSpace (format_int n) (format_int-AllDigits n)

digits-cons : (f n : ℕ) (out : Text) → n < f → (c : ℕ) × (s : Text) × (digits f n out ≡ c ∷ s)
unfolding digits
digits-cons zero n out h = elim h [ ]
digits-cons (suc f) n out h = elim (Bool-cases (ltb n 10)) [
  | inl e ↦ rw e (48 + n, out, refl)
  | inr e ↦ rw e (digits-cons f (n / 10) _ (ground arith))
]

pub format_int-cons : (n : ℕ) → (c : ℕ) × (s : Text) × (format_int n ≡ c ∷ s)
unfolding format_int
format_int-cons n = digits-cons (suc n) n [] (omega arith)

pub digits_value-format_int : (n : ℕ) → digits_value 0 (format_int n) ≡ some n
unfolding format_int digits_value
digits_value-format_int n = digits_value-digits (suc n) n [] (omega arith)

-- Reading back what was printed gives the number, up to the largest int64.
pub parse_unsigned-format_int : (n : ℕ) → n ≤ max_int64 → parse_unsigned (format_int n) ≡ some n
unfolding parse_unsigned
parse_unsigned-format_int n h =
    let (c, s, e) = format_int-cons n in
    let v = digits_value-format_int n in rw e (rw (rw e at v, parse_unsigned) (ground arith))

-- A number that was read is no larger than the largest int64.
pub parse_unsigned-le : (s : Text) (n : ℕ) → parse_unsigned s ≡ some n → n ≤ max_int64
unfolding parse_unsigned
parse_unsigned-le [] n h = cc
parse_unsigned-le (c ∷ s) n h = ground arith

pub span_digits-append :
    (s : Text) (c : ℕ) (rest : Text)
    → AllDigits s
    → is_digit c ≡ false
    → span_digits (s ++ c ∷ rest) ≡ (s, c ∷ rest)
unfolding span_digits
span_digits-append [] c rest h k = rw k
span_digits-append (d ∷ s) c rest h k = rw (span_digits-append s c rest h.1 k, h.0)

pub span_digits-AllDigits : (s : Text) → AllDigits s → span_digits s ≡ (s, [])
unfolding span_digits
span_digits-AllDigits [] h = refl
span_digits-AllDigits (d ∷ s) h = rw (span_digits-AllDigits s h.1, h.0)

trim_left-NoSpace : (s : Text) → NoSpace s → trim_left s ≡ s
unfolding trim_left
trim_left-NoSpace [] h = refl
trim_left-NoSpace (c ∷ s) h = rw h.0

trim_cons-NoSpace : (c : ℕ) (s : Text) → is_space c ≡ false → trim_cons c s ≡ c ∷ s
trim_cons-NoSpace c [] h = rw h
trim_cons-NoSpace c (d ∷ s) h = refl

trim_right-NoSpace : (s : Text) → NoSpace s → trim_right s ≡ s
unfolding trim_right
trim_right-NoSpace [] h = refl
trim_right-NoSpace (c ∷ s) h = rw (trim_right-NoSpace s h.1) (trim_cons-NoSpace c s h.0)

pub trim_space-NoSpace : (s : Text) → NoSpace s → trim_space s ≡ s
unfolding trim_space
trim_space-NoSpace s h = rw (trim_left-NoSpace s h) (trim_right-NoSpace s h)

pub contains_byte-append :
    (b : ℕ) (s t : Text)
    → contains_byte b s ≡ false
    → contains_byte b t ≡ false
    → contains_byte b (s ++ t) ≡ false
unfolding contains_byte
contains_byte-append b [] t h k = k
contains_byte-append b (c ∷ s) t h k = ground (arith, contains_byte-append b s t)

pub AllDigits-contains_byte :
    (b : ℕ) (s : Text) → AllDigits s → is_digit b ≡ false → contains_byte b s ≡ false
unfolding contains_byte
AllDigits-contains_byte b [] h k = refl
AllDigits-contains_byte b (c ∷ s) h k = ground (arith, AllDigits-contains_byte b s h.1)

pub strip_prefix-append : (p s : Text) → strip_prefix p (p ++ s) ≡ some s
unfolding strip_prefix
strip_prefix-append [] s = refl
strip_prefix-append (c ∷ p) s = ground (arith, strip_prefix-append p s)
