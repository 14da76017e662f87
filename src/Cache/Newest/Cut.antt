-- ===== src/Cache/Newest/Cut.antt =====
-- What the last loop has done where it stops, and the order of a sorted list.
use apt_cacher_ultra.Base.{
  ℕ, ◌+◌, ◌<◌, ◌≡◌, refl, ap, ◌∙◌, inl, inr, true, false, ◌||◌, List, [], ◌∷◌, ◌++◌, arith, length,
  Bool-cases, Bytes, is_zero,
}
use apt_cacher_ultra.Cache.Newest.{is_in}
use apt_cacher_ultra.Cache.Newest.Versions.{VersionOrder, ge, ge_refl, is_zero-cmp}

pub is_in-append :
    (w : Bytes) (xs ys : List Bytes) → is_in w (xs ++ ys) ≡ (is_in w xs || is_in w ys)
unfolding is_in
is_in-append w [] ys = refl
is_in-append w (x ∷ xs) ys = ground (arith, is_in-append w xs ys)

pub in_front :
    (w : Bytes) (vs xs ys : List Bytes) → vs ≡ xs ++ ys → is_in w xs ≡ true → is_in w vs ≡ true
in_front w vs xs ys e i = ap (is_in w) e ∙ (is_in-append w xs ys ∙ ap (λ b. b || is_in w ys) i)

pub in_rest :
    (w : Bytes) (vs xs ys : List Bytes) → vs ≡ xs ++ ys → is_in w ys ≡ true → is_in w vs ≡ true
in_rest w vs xs ys e i = ap (is_in w) e ∙ (is_in-append w xs ys ∙ ground (arith, i))

module _ (o : VersionOrder) where
  -- Each version is newer than all behind it.
  abbrev pub IsFalling : List Bytes → Type 0
  IsFalling [] = Unit {0}
  IsFalling (r ∷ rs) = ((q : Bytes) → is_in q rs ≡ true → ge o q r ≡ false) × IsFalling rs

  -- What the loop does behind the version `p` and `k` crossings: it keeps the front of its versions, all
  -- newer than the rest, in the class of `p` and those of `reps`, and stops when there are `m` classes.
  pub record IsCut (m k : ℕ) (p : Bytes) (vs out : List Bytes) : Type 0 where
    pub rest : List Bytes
    pub reps : List Bytes
    pub parts : vs ≡ out ++ rest
    pub older : (w v : Bytes) → is_in w rest ≡ true → is_in v (p ∷ out) ≡ true → ge o w v ≡ false
    pub falling : IsFalling (p ∷ reps)
    pub taken : (r : Bytes) → is_in r reps ≡ true → is_in r out ≡ true
    pub covered :
        (v : Bytes)
        → is_in v out ≡ true
        → (r : Bytes) × (is_in r (p ∷ reps) ≡ true) × (is_zero (o.cmp r v) ≡ true)
    pub few : length reps + k < m
    pub many : (w : Bytes) → is_in w rest ≡ true → length reps + k + 1 ≡ m

  -- A version that is not as new as `v` is not as new as a newer one.
  pub lower :
      (q p v : Bytes)
      → o.IsGood q
      → o.IsGood p
      → o.IsGood v
      → ge o p v ≡ true
      → ge o q v ≡ false
      → ge o q p ≡ false
  lower q p v x y z pv qv = elim (Bool-cases (ge o q p)) [
    | inr e ↦ e
    | inl e ↦ cc (qv, o.trans q p v x y z e pv)
  ]

  equal_sides :
      (p v : Bytes)
      → o.IsGood p
      → o.IsGood v
      → is_zero (o.cmp p v) ≡ true
      → (ge o p v ≡ true) × (ge o v p ≡ true)
  equal_sides p v x y e = ground (arith, is_zero-cmp o p v x y)

  pub equal_trans :
      (p v w : Bytes)
      → o.IsGood p
      → o.IsGood v
      → o.IsGood w
      → is_zero (o.cmp p v) ≡ true
      → is_zero (o.cmp v w) ≡ true
      → is_zero (o.cmp p w) ≡ true
  equal_trans p v w x y z e f =
      let (a, b) = equal_sides p v x y e in
      let (c, d) = equal_sides v w y z f in
      is_zero-cmp o p w x z ∙ rw (o.trans p v w x y z a c, o.trans w v p z y x d b) refl

  pub equal_refl : (v : Bytes) → o.IsGood v → is_zero (o.cmp v v) ≡ true
  equal_refl v x = is_zero-cmp o v v x x ∙ rw (ge_refl o v x) refl

  -- Crossing into another class of a sorted list.
  pub newer_cross :
      (p v : Bytes)
      → o.IsGood p
      → o.IsGood v
      → ge o p v ≡ true
      → is_zero (o.cmp p v) ≡ false
      → ge o v p ≡ false
  newer_cross p v x y e f = ground (arith, is_zero-cmp o p v x y)
