-- ===== src/Base/Tables.antt =====
-- SQL statements on a table that is a list of rows, in the order of their insertion: SELECT with
-- WHERE, ORDER BY and LIMIT, UPDATE, DELETE, COUNT and SUM.
use Prim.Native.Nat.{ℕ, suc, ◌+◌}
use mathlib.Core.Path.{◌≡◌, refl, sym, ap, ◌∙◌}
use mathlib.Core.Logic.{inl, inr}
use mathlib.Core.Bool.{Bool, true, false, ◌||◌}
use mathlib.Core.Option.{Option, none, some}
use mathlib.Core.List.{List, [], ◌∷◌, Perm, Memᴰ}
use mathlib.Core.List.Perm
use emby_range_cache_proxy.Base.Tests.{if◌then◌else◌, Bool-cases}
use emby_range_cache_proxy.Base.Lists.{All, All-weaken}

module _ {ℓ} {A : Type ℓ} where
  abbrev pub select_where : (A → Bool) → List A → List A
  select_where p [] = []
  select_where p (x ∷ xs) = if p x then x ∷ select_where p xs else select_where p xs

  abbrev pub update_where : (A → Bool) → (A → A) → List A → List A
  update_where p f [] = []
  update_where p f (x ∷ xs) = (if p x then f x else x) ∷ update_where p f xs

  abbrev pub delete_where : (A → Bool) → List A → List A
  delete_where p [] = []
  delete_where p (x ∷ xs) = if p x then delete_where p xs else x ∷ delete_where p xs

  abbrev pub count_where : (A → Bool) → List A → ℕ
  count_where p [] = 0
  count_where p (x ∷ xs) = if p x then suc (count_where p xs) else count_where p xs

  abbrev pub exists_where : (A → Bool) → List A → Bool
  exists_where p [] = false
  exists_where p (x ∷ xs) = p x || exists_where p xs

  -- LIMIT 1
  abbrev pub first_where : (A → Bool) → List A → Option A
  first_where p [] = none
  first_where p (x ∷ xs) = if p x then some x else first_where p xs

  abbrev pub sum_of : (A → ℕ) → List A → ℕ
  sum_of f [] = 0
  sum_of f (x ∷ xs) = f x + sum_of f xs

  -- ORDER BY; `before x y` says that `x` is listed before `y`.
  unfoldable pub insert_by : (A → A → Bool) → A → List A → List A
  insert_by before x [] = x ∷ []
  insert_by before x (y ∷ ys) = if before y x then y ∷ insert_by before x ys else x ∷ y ∷ ys

  unfoldable pub order_by : (A → A → Bool) → List A → List A
  unfolding insert_by
  order_by before [] = []
  order_by before (x ∷ xs) = insert_by before x (order_by before xs)

  pub All-select_where {κ} :
      (P : A → Type κ) (p : A → Bool) (xs : List A) → All P xs → All P (select_where p xs)
  All-select_where P p [] h = tt
  All-select_where P p (x ∷ xs) h = elim (Bool-cases (p x)) [
    | inl e ↦ rw e (h.0, All-select_where P p xs h.1)
    | inr e ↦ rw e (All-select_where P p xs h.1)
  ]

  -- What a query selects passes its test.
  pub select_where-passes : (p : A → Bool) (xs : List A) → All (λ x. p x ≡ true) (select_where p xs)
  select_where-passes p [] = tt
  select_where-passes p (x ∷ xs) = elim (Bool-cases (p x)) [
    | inl e ↦ rw e (e, select_where-passes p xs)
    | inr e ↦ rw e (select_where-passes p xs)
  ]

  insert_by-perm :
      (before : A → A → Bool) (x : A) (ys : List A) → Perm (insert_by before x ys) (x ∷ ys)
  unfolding insert_by
  insert_by-perm before x [] = Perm.refl _
  insert_by-perm before x (y ∷ ys) = elim (Bool-cases (before y x)) [
    | inl e ↦ rw e (Perm.trans (Perm.cons y (insert_by-perm before x ys)) (Perm.swap x y ys))
    | inr e ↦ rw e (Perm.refl _)
  ]

  -- Ordering loses no row and makes none up.
  pub order_by-perm : (before : A → A → Bool) (xs : List A) → Perm (order_by before xs) xs
  unfolding order_by
  order_by-perm before [] = Perm.refl _
  order_by-perm before (x ∷ xs) =
      Perm.trans (insert_by-perm before x _) (Perm.cons x (order_by-perm before xs))

  All-insert_by {κ} :
      (P : A → Type κ) (before : A → A → Bool) (x : A) (ys : List A)
      → P x
      → All P ys
      → All P (insert_by before x ys)
  unfolding insert_by
  All-insert_by P before x [] h k = (h, tt)
  All-insert_by P before x (y ∷ ys) h k = elim (Bool-cases (before y x)) [
    | inl e ↦ rw e (k.0, All-insert_by P before x ys h k.1)
    | inr e ↦ rw e (h, k)
  ]

  Memᴰ-insert_by :
      (before : A → A → Bool) (y x : A) (xs : List A)
      → Memᴰ y (x ∷ xs)
      → Memᴰ y (insert_by before x xs)
  unfolding insert_by
  Memᴰ-insert_by before y x [] m = m
  Memᴰ-insert_by before y x (z ∷ xs) m = elim (Bool-cases (before z x)) [
    | inr e ↦ rw e m
    | inl e ↦ rw e (behind (Memᴰ-insert_by before y x xs) m)
  ]
    where
      behind :
          (Memᴰ y (x ∷ xs) → Memᴰ y (insert_by before x xs))
          → Memᴰ y (x ∷ z ∷ xs)
          → Memᴰ y (z ∷ insert_by before x xs)
      behind put (Memᴰ.head k) = Memᴰ.tail (put (Memᴰ.head k))
      behind put (Memᴰ.tail (Memᴰ.head k)) = Memᴰ.head k
      behind put (Memᴰ.tail (Memᴰ.tail k)) = Memᴰ.tail (put (Memᴰ.tail k))

  pub Memᴰ-order_by :
      (before : A → A → Bool) (y : A) (xs : List A) → Memᴰ y xs → Memᴰ y (order_by before xs)
  unfolding order_by
  Memᴰ-order_by before y [] m = m
  Memᴰ-order_by before y (x ∷ xs) (Memᴰ.head e) = Memᴰ-insert_by before y x _ (Memᴰ.head e)
  Memᴰ-order_by before y (x ∷ xs) (Memᴰ.tail m) =
      Memᴰ-insert_by before y x _ (Memᴰ.tail (Memᴰ-order_by before y xs m))

  pub Memᴰ-select_where :
      (p : A → Bool) (y : A) (xs : List A) → p y ≡ true → Memᴰ y xs → Memᴰ y (select_where p xs)
  Memᴰ-select_where p y [] h m = m
  Memᴰ-select_where p y (x ∷ xs) h (Memᴰ.head e) =
      let passes : p x ≡ true = ap p (sym e) ∙ h in rw passes (Memᴰ.head e)
  Memᴰ-select_where p y (x ∷ xs) h (Memᴰ.tail m) = elim (Bool-cases (p x)) [
    | inl e ↦ rw e (Memᴰ.tail (Memᴰ-select_where p y xs h m))
    | inr e ↦ rw e (Memᴰ-select_where p y xs h m)
  ]

  pub All-order_by {κ} :
      (P : A → Type κ) (before : A → A → Bool) (xs : List A) → All P xs → All P (order_by before xs)
  unfolding order_by
  All-order_by P before [] h = tt
  All-order_by P before (x ∷ xs) h = All-insert_by P before x _ h.0 (All-order_by P before xs h.1)

  pub All-update_where {κ} :
      (P : A → Type κ) (p : A → Bool) (f : A → A) (xs : List A)
      → ((x : A) → P x → P (f x))
      → All P xs
      → All P (update_where p f xs)
  All-update_where P p f [] keep h = tt
  All-update_where P p f (x ∷ xs) keep h = elim (Bool-cases (p x)) [
    | inl e ↦ rw e (keep x h.0, All-update_where P p f xs keep h.1)
    | inr e ↦ rw e (h.0, All-update_where P p f xs keep h.1)
  ]

  pub All-delete_where {κ} :
      (P : A → Type κ) (p : A → Bool) (xs : List A) → All P xs → All P (delete_where p xs)
  All-delete_where P p [] h = tt
  All-delete_where P p (x ∷ xs) h = elim (Bool-cases (p x)) [
    | inl e ↦ rw e (All-delete_where P p xs h.1)
    | inr e ↦ rw e (h.0, All-delete_where P p xs h.1)
  ]

  -- An update that no row asks for changes nothing.
  pub update_where_none :
      (p : A → Bool) (f : A → A) (xs : List A)
      → All (λ x. p x ≡ false) xs
      → update_where p f xs ≡ xs
  update_where_none p f [] h = refl
  update_where_none p f (x ∷ xs) h = rw (h.0, update_where_none p f xs h.1)

-- Each pair of rows, the earlier one first.
abbrev pub Pairs {ℓ κ} : {A : Type ℓ} → (A → A → Type κ) → List A → Type κ
Pairs R [] = Unit
Pairs R (x ∷ xs) = All (R x) xs × Pairs R xs

-- Where a test orders any two rows by a transitive relation, ORDER BY leaves the rows in that order.
module _ {ℓ κ} {A : Type ℓ} (before : A → A → Bool) (R : A → A → Type κ)
    (first : (x y : A) → before x y ≡ true → R x y) (last : (x y : A) → before x y ≡ false → R y x)
    (trans : (x y z : A) → R x y → R y z → R x z) where
  insert_by-Pairs : (x : A) (ys : List A) → Pairs R ys → Pairs R (insert_by before x ys)
  unfolding insert_by
  insert_by-Pairs x [] h = (tt, tt)
  insert_by-Pairs x (y ∷ ys) h = elim (Bool-cases (before y x)) [
    | inl e ↦ rw e (All-insert_by (R y) before x ys (first y x e) h.0, insert_by-Pairs x ys h.1)
    | inr e ↦
        let k = last y x e in rw e ((k, All-weaken (R y) (R x) ys (λ z. trans x y z k) h.0), h)
  ]

  pub order_by-Pairs : (xs : List A) → Pairs R (order_by before xs)
  unfolding order_by
  order_by-Pairs [] = tt
  order_by-Pairs (x ∷ xs) = insert_by-Pairs x _ (order_by-Pairs xs)
