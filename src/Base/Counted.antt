-- ===== src/Base/Counted.antt =====
-- Lists whose elements have places: what stands at a place, putting something there, and counting.
use Prim.Native.Nat.{ℕ, zero, suc, ◌+◌, ◌≤◌, ◌<◌}
use mathlib.Core.Path.{◌≡◌, refl}
use mathlib.Core.Bool.{Bool, true, false}
use mathlib.Core.Logic.{◌⊎◌, inl, inr}
use mathlib.Core.Option.{Option, none, some}
use mathlib.Core.List.{List, [], ◌∷◌, ◌++◌}
use native.Mathlib.Omega.{arith}
use apt_cacher_ultra.Base.Lists.{length}
use apt_cacher_ultra.Base.Tests.{if◌then◌else◌, Bool-cases}

module _ {ℓ} {A : Type ℓ} where
  unfoldable pub elem_at : ℕ → List A → Option A
  elem_at i [] = none
  elem_at zero (x ∷ xs) = some x
  elem_at (suc i) (x ∷ xs) = elem_at i xs

  unfoldable pub put_at : ℕ → A → List A → List A
  put_at i y [] = []
  put_at zero y (x ∷ xs) = y ∷ xs
  put_at (suc i) y (x ∷ xs) = x ∷ put_at i y xs

  -- How many elements pass a test.
  unfoldable pub count_if : (A → Bool) → List A → ℕ
  count_if p [] = 0
  count_if p (x ∷ xs) = (if p x then 1 else 0) + count_if p xs

  pub count_if-append :
      (p : A → Bool) (xs : List A) (y : A)
      → count_if p (xs ++ (y ∷ [])) ≡ count_if p xs + (if p y then 1 else 0)
  unfolding count_if
  count_if-append p [] y = ground arith
  count_if-append p (x ∷ xs) y = ground (arith, count_if-append p xs y)

  pub count_if-put_at :
      (p : A → Bool) (i : ℕ) (xs : List A) (x y : A)
      → elem_at i xs ≡ some x
      → count_if p (put_at i y xs) + (if p x then 1 else 0) ≡ count_if p xs + (if p y then 1 else 0)
  unfolding count_if put_at elem_at
  count_if-put_at p i [] x y e = cc
  count_if-put_at p zero (z ∷ xs) x y e = ground arith
  count_if-put_at p (suc i) (z ∷ xs) x y e = ground (arith, count_if-put_at p i xs x y e)

  -- What stands in a list with a new element at one place.
  pub elem_at-put_at :
      (i j : ℕ) (xs : List A) (y z : A)
      → elem_at j (put_at i y xs) ≡ some z
      → (z ≡ y) ⊎ (elem_at j xs ≡ some z)
  unfolding put_at elem_at
  elem_at-put_at i j [] y z e = inr e
  elem_at-put_at zero zero (x ∷ xs) y z e = inl (cc e)
  elem_at-put_at zero (suc j) (x ∷ xs) y z e = inr e
  elem_at-put_at (suc i) zero (x ∷ xs) y z e = inr e
  elem_at-put_at (suc i) (suc j) (x ∷ xs) y z e = elem_at-put_at i j xs y z e

  pub elem_at-put_at_self :
      (i : ℕ) (xs : List A) (x y : A) → elem_at i xs ≡ some x → elem_at i (put_at i y xs) ≡ some y
  unfolding put_at elem_at
  elem_at-put_at_self i [] x y e = cc e
  elem_at-put_at_self zero (z ∷ xs) x y e = refl
  elem_at-put_at_self (suc i) (z ∷ xs) x y e = elem_at-put_at_self i xs x y e

  pub elem_at-append :
      (j : ℕ) (xs : List A) (y z : A)
      → elem_at j (xs ++ (y ∷ [])) ≡ some z
      → (z ≡ y) ⊎ (elem_at j xs ≡ some z)
  unfolding elem_at
  elem_at-append zero [] y z e = inl (cc e)
  elem_at-append (suc j) [] y z e = cc e
  elem_at-append zero (x ∷ xs) y z e = inr e
  elem_at-append (suc j) (x ∷ xs) y z e = elem_at-append j xs y z e

  -- A test that implies another passes no more elements.
  pub count_if_le :
      (p q : A → Bool) (xs : List A)
      → ((i : ℕ) (x : A) → elem_at i xs ≡ some x → p x ≡ true → q x ≡ true)
      → count_if p xs ≤ count_if q xs
  unfolding count_if elem_at
  count_if_le p q [] h = omega arith
  count_if_le p q (x ∷ xs) h =
      let rest = count_if_le p q xs (λ i y e. h (suc i) y e) in
      elim (Bool-cases (p x)) [
        | inl a ↦ rw (a, h 0 x refl a) (omega (arith, rest))
        | inr a ↦ rw a (ground (arith, rest))
      ]

  pub count_if_zero :
      (p : A → Bool) (xs : List A)
      → ((i : ℕ) (x : A) → elem_at i xs ≡ some x → p x ≡ false)
      → count_if p xs ≡ 0
  unfolding count_if elem_at
  count_if_zero p [] h = refl
  count_if_zero p (x ∷ xs) h =
      rw (h 0 x refl) (omega (arith, count_if_zero p xs (λ i y e. h (suc i) y e)))

  -- An element that passes is counted.
  pub count_if_pos :
      (p : A → Bool) (i : ℕ) (xs : List A) (x : A)
      → elem_at i xs ≡ some x
      → p x ≡ true
      → 1 ≤ count_if p xs
  unfolding count_if elem_at
  count_if_pos p i [] x e a = cc e
  count_if_pos p zero (y ∷ xs) x e a = ground arith
  count_if_pos p (suc i) (y ∷ xs) x e a = ground (arith, count_if_pos p i xs x e a)

  pub count_if-some :
      (p : A → Bool) (xs : List A)
      → 1 ≤ count_if p xs
      → (i : ℕ) × (x : A) × (elem_at i xs ≡ some x) × (p x ≡ true)
  unfolding count_if elem_at
  count_if-some p [] h = absurd (omega arith)
  count_if-some p (x ∷ xs) h = elim (Bool-cases (p x)) [
    | inl a ↦ (0, x, refl, a)
    | inr a ↦ let (i, y, e, b) = count_if-some p xs (ground (arith, rw a at h)) in (suc i, y, e, b)
  ]

  -- What the elements weigh together.
  unfoldable pub sum_of : (A → ℕ) → List A → ℕ
  sum_of w [] = 0
  sum_of w (x ∷ xs) = w x + sum_of w xs

  pub sum_of-append :
      (w : A → ℕ) (xs : List A) (y : A) → sum_of w (xs ++ (y ∷ [])) ≡ sum_of w xs + w y
  unfolding sum_of
  sum_of-append w [] y = omega arith
  sum_of-append w (x ∷ xs) y = omega (arith, sum_of-append w xs y)

  pub sum_of-put_at :
      (w : A → ℕ) (i : ℕ) (xs : List A) (x y : A)
      → elem_at i xs ≡ some x
      → sum_of w (put_at i y xs) + w x ≡ sum_of w xs + w y
  unfolding sum_of put_at elem_at
  sum_of-put_at w i [] x y e = cc e
  sum_of-put_at w zero (z ∷ xs) x y e = ground arith
  sum_of-put_at w (suc i) (z ∷ xs) x y e = omega (arith, sum_of-put_at w i xs x y e)

  pub sum_of-at :
      (w : A → ℕ) (i : ℕ) (xs : List A) (x : A) → elem_at i xs ≡ some x → w x ≤ sum_of w xs
  unfolding sum_of elem_at
  sum_of-at w i [] x e = cc e
  sum_of-at w zero (y ∷ xs) x e = ground arith
  sum_of-at w (suc i) (y ∷ xs) x e = omega (arith, sum_of-at w i xs x e)

  -- The list without the element at a place.
  unfoldable pub drop_at : ℕ → List A → List A
  drop_at i [] = []
  drop_at zero (x ∷ xs) = xs
  drop_at (suc i) (x ∷ xs) = x ∷ drop_at i xs

  pub count_if-drop_at :
      (p : A → Bool) (i : ℕ) (xs : List A) (x : A)
      → elem_at i xs ≡ some x
      → count_if p (drop_at i xs) + (if p x then 1 else 0) ≡ count_if p xs
  unfolding count_if drop_at elem_at
  count_if-drop_at p i [] x e = cc e
  count_if-drop_at p zero (z ∷ xs) x e = ground arith
  count_if-drop_at p (suc i) (z ∷ xs) x e = omega (arith, count_if-drop_at p i xs x e)

  pub length-drop_at :
      (i : ℕ) (xs : List A) (x : A) → elem_at i xs ≡ some x → length (drop_at i xs) + 1 ≡ length xs
  unfolding drop_at elem_at
  length-drop_at i [] x e = cc e
  length-drop_at zero (z ∷ xs) x e = omega arith
  length-drop_at (suc i) (z ∷ xs) x e = omega (arith, length-drop_at i xs x e)

  pub elem_at-length : (i : ℕ) (xs : List A) (x : A) → elem_at i xs ≡ some x → i < length xs
  unfolding elem_at
  elem_at-length i [] x e = cc e
  elem_at-length zero (z ∷ xs) x e = omega arith
  elem_at-length (suc i) (z ∷ xs) x e = omega (arith, elem_at-length i xs x e)
