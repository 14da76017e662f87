-- ===== src/Cache/Newest/Sorted.antt =====
-- The distinct versions in order: the same versions, none in front of a newer one.
use apt_cacher_ultra.Base.{
  bytes_lt, zero, suc, ◌≡◌, refl, sym, ap, ◌∙◌, ◌⊎◌, inl, inr, Bool, true, false, not, ◌||◌, List,
  [], ◌∷◌, if◌then◌else◌, arith, Bool-cases, Bytes, bytes_eq, bytes_eq_iff, ℤ, pos, negsuc, neg,
  is_zero, subst,
}
use apt_cacher_ultra.Cache.Newest.{
  Cmp, is_in, distinct, is_positive, newer_first, insert_version, sort_versions,
}
use apt_cacher_ultra.Cache.Newest.Versions.{nonneg, VersionOrder, ge}

pub is_in-cases :
    (w x : Bytes) (xs : List Bytes) → is_in w (x ∷ xs) ≡ true → (x ≡ w) ⊎ (is_in w xs ≡ true)
unfolding is_in
is_in-cases w x xs e = elim (Bool-cases (bytes_eq x w)) [
  | inl a ↦ inl ((bytes_eq_iff x w).0 a)
  | inr a ↦ inr (rw a at e)
]

pub is_in-first : (w : Bytes) (xs : List Bytes) → is_in w (w ∷ xs) ≡ true
unfolding is_in
is_in-first w xs = rw ((bytes_eq_iff w w).1 refl) refl

pub is_in-later : (w x : Bytes) (xs : List Bytes) → is_in w xs ≡ true → is_in w (x ∷ xs) ≡ true
unfolding is_in
is_in-later w x xs e = ground arith

distinct_sound :
    (seen vs : List Bytes) (w : Bytes) → is_in w (distinct seen vs) ≡ true → is_in w vs ≡ true
unfolding distinct is_in
distinct_sound seen [] w e = e
distinct_sound seen (v ∷ vs) w e =
    ground (arith, distinct_sound seen vs w, distinct_sound (v ∷ seen) vs w)

distinct_complete :
    (seen vs : List Bytes) (w : Bytes)
    → is_in w vs ≡ true
    → (is_in w seen || is_in w (distinct seen vs)) ≡ true
unfolding distinct is_in
distinct_complete seen [] w e = cc e
distinct_complete seen (v ∷ vs) w e = elim (Bool-cases (is_in v seen)) [
  | inl a ↦ rw a (ground (arith, a, distinct_complete seen vs w, bytes_eq_iff v w))
  | inr a ↦ rw a (ground (arith, distinct_complete (v ∷ seen) vs w))
]

is_in-insert_version :
    (cmp : Cmp) (v : Bytes) (xs : List Bytes) (w : Bytes)
    → is_in w (insert_version cmp v xs) ≡ (bytes_eq v w || is_in w xs)
unfolding insert_version is_in
is_in-insert_version cmp v [] w = refl
is_in-insert_version cmp v (x ∷ xs) w = ground (arith, is_in-insert_version cmp v xs w)

pub is_in-sort_versions :
    (cmp : Cmp) (vs : List Bytes) (w : Bytes) → is_in w (sort_versions cmp vs) ≡ is_in w vs
unfolding sort_versions is_in
is_in-sort_versions cmp [] w = refl
is_in-sort_versions cmp (v ∷ vs) w =
    is_in-insert_version cmp v (sort_versions cmp vs) w
    ∙ ap (λ b. bytes_eq v w || b) (is_in-sort_versions cmp vs w)

-- The versions that the loop sees are those that were given.
pub is_in-sorted :
    (cmp : Cmp) (vs : List Bytes) (w : Bytes)
    → is_in w (sort_versions cmp (distinct [] vs)) ≡ is_in w vs
unfolding is_in
is_in-sorted cmp vs w =
    is_in-sort_versions cmp (distinct [] vs) w
    ∙ both_ways (is_in w (distinct [] vs)) (is_in w vs) (distinct_sound [] vs w)
        (distinct_complete [] vs w)
  where
    both_ways : (a b : Bool) → (a ≡ true → b ≡ true) → (b ≡ true → a ≡ true) → a ≡ b
    both_ways true b f g = sym (f refl)
    both_ways false true f g = cc (g refl)
    both_ways false false f g = refl

first_ge :
    (z : ℤ) (b : Bool) → (if not (is_zero z) then is_positive z else b) ≡ true → nonneg z ≡ true
first_ge (pos n) b e = refl
first_ge (negsuc n) b e = cc e

first_le :
    (z : ℤ) (b : Bool)
    → (if not (is_zero z) then is_positive z else b) ≡ false
    → nonneg (neg z) ≡ true
first_le (pos zero) b e = refl
first_le (pos (suc n)) b e = ground arith
first_le (negsuc n) b e = refl

module _ (o : VersionOrder) where
  abbrev pub AreGood : List Bytes → Type 0
  AreGood vs = (v : Bytes) → is_in v vs ≡ true → o.IsGood v

  -- No version is older than one behind it.
  abbrev pub IsSorted : List Bytes → Type 0
  IsSorted [] = Unit {0}
  IsSorted (v ∷ vs) = ((w : Bytes) → is_in w vs ≡ true → ge o v w ≡ true) × IsSorted vs

  insert_version-IsSorted :
      (v : Bytes) (xs : List Bytes)
      → o.IsGood v
      → AreGood xs
      → IsSorted xs
      → IsSorted (insert_version o.cmp v xs)
  unfolding insert_version
  insert_version-IsSorted v [] u g s = ((λ w e. unfold is_in in cc e), tt)
  insert_version-IsSorted v (x ∷ xs) u g s =
      let good_x = g x (is_in-first x xs) in
      let good_xs : AreGood xs = λ w e. g w (is_in-later w x xs e) in
      elim (Bool-cases (newer_first o.cmp v x)) [
        | inl a ↦ rw a ((λ w e. before w e (ahead a)), s)
        | inr a ↦ rw a ((λ w e. after w e (behind a)), insert_version-IsSorted v xs u good_xs s.1)
      ]
    where
      ahead : newer_first o.cmp v x ≡ true → ge o v x ≡ true
      ahead a = unfold newer_first in first_ge (o.cmp v x) (bytes_lt v x) a

      behind : newer_first o.cmp v x ≡ false → ge o x v ≡ true
      behind a =
          unfold newer_first in
          (ap nonneg (o.swap v x u (g x (is_in-first x xs)))
            ∙ first_le (o.cmp v x) (bytes_lt v x) a)

      before : (w : Bytes) → is_in w (x ∷ xs) ≡ true → ge o v x ≡ true → ge o v w ≡ true
      before w e a = elim (is_in-cases w x xs e) [
        | inl same ↦ subst (λ y. ge o v y ≡ true) same a
        | inr later ↦ o.trans v x w u (g x (is_in-first x xs)) (g w e) a (s.0 w later)
      ]

      after :
          (w : Bytes)
          → is_in w (insert_version o.cmp v xs) ≡ true
          → ge o x v ≡ true
          → ge o x w ≡ true
      after w e a =
          elim (is_in-cases w v xs (unfold is_in in sym (is_in-insert_version o.cmp v xs w) ∙ e)) [
            | inl same ↦ subst (λ y. ge o x y ≡ true) same a
            | inr later ↦ s.0 w later
          ]

  pub sort_versions-IsSorted : (vs : List Bytes) → AreGood vs → IsSorted (sort_versions o.cmp vs)
  unfolding sort_versions
  sort_versions-IsSorted [] g = tt
  sort_versions-IsSorted (v ∷ vs) g =
      insert_version-IsSorted v (sort_versions o.cmp vs) (g v (is_in-first v vs))
        (λ w e. g w (is_in-later w v vs (sym (is_in-sort_versions o.cmp vs w) ∙ e)))
        (sort_versions-IsSorted vs (λ w e. g w (is_in-later w v vs e)))
