-- ===== src/Cache/Newest/Loop.antt =====
-- The last loop keeps the first classes of equal versions.
use apt_cacher_ultra.Base.{
  ℕ, ◌+◌, ◌≤◌, ◌<◌, ◌≡◌, refl, sym, ap, ◌⊎◌, inl, inr, true, false, some, List, [], ◌∷◌, ◌++◌, leb,
  arith, Bool-cases, Bytes, is_zero, subst,
}
use apt_cacher_ultra.Cache.Newest.{is_in, crossed, keep_loop}
use apt_cacher_ultra.Cache.Newest.Versions.{VersionOrder, ge}
use apt_cacher_ultra.Cache.Newest.Sorted.{is_in-cases, is_in-first, is_in-later, AreGood, IsSorted}
use apt_cacher_ultra.Cache.Newest.Cut.{
  in_front, in_rest, IsCut, lower, equal_trans, equal_refl, newer_cross,
}

module _ (o : VersionOrder) where
  module _ (m k : ℕ) (p v : Bytes) (vs out : List Bytes) (x : o.IsGood p) (g : AreGood o (v ∷ vs))
      (pv : ge o p v ≡ true) where
    mine-IsGood : o.IsGood v
    mine-IsGood = g v (is_in-first v vs)

    later-IsGood : (w : Bytes) → is_in w vs ≡ true → o.IsGood w
    later-IsGood w e = g w (is_in-later w v vs e)

    -- What is below the next version is below this one.
    below_both :
        (rest : List Bytes) (q : Bytes)
        → vs ≡ out ++ rest
        → (is_in q out ≡ true) ⊎ (is_in q rest ≡ true)
        → ge o q v ≡ false
        → ge o q p ≡ false
    below_both rest q e (inl i) l =
        lower o q p v (later-IsGood q (in_front q vs out rest e i)) x mine-IsGood pv l
    below_both rest q e (inr i) l =
        lower o q p v (later-IsGood q (in_rest q vs out rest e i)) x mine-IsGood pv l

    older_too :
        (j : ℕ) (c : IsCut o m j v vs out) (w u : Bytes)
        → is_in w c.rest ≡ true
        → is_in u (p ∷ v ∷ out) ≡ true
        → ge o w u ≡ false
    older_too j c w u i e = elim (is_in-cases u p (v ∷ out) e) [
      | inl same ↦
          subst (λ y. ge o w y ≡ false) same
            (below_both c.rest w c.parts (inr i) (c.older w v i (is_in-first v out)))
      | inr later ↦ c.older w u i later
    ]

    falling_too :
        (j : ℕ) (c : IsCut o m j v vs out) (q : Bytes) → is_in q c.reps ≡ true → ge o q p ≡ false
    falling_too j c q i = below_both c.rest q c.parts (inl (c.taken q i)) (c.falling.0 q i)

    -- The next version is in the class of the last one.
    same-IsCut :
        is_zero (o.cmp p v) ≡ true → IsCut o m k v vs out → IsCut o m k p (v ∷ vs) (v ∷ out)
    same-IsCut same c = record {
      rest = c.rest;
      reps = c.reps;
      parts = ap (◌∷◌ v) c.parts;
      older = older_too k c;
      falling = (falling_too k c, c.falling.1);
      taken = λ r i. is_in-later r v out (c.taken r i);
      covered = λ u i. elim (is_in-cases u v out i) [
        | inl here ↦ (p, is_in-first p c.reps, subst (λ y. is_zero (o.cmp p y) ≡ true) here same)
        | inr later ↦ covered_same c u later
      ];
      few = c.few;
      many = c.many;
    }
      where
        covered_same :
            (d : IsCut o m k v vs out) (u : Bytes)
            → is_in u out ≡ true
            → (r : Bytes) × (is_in r (p ∷ d.reps) ≡ true) × (is_zero (o.cmp r u) ≡ true)
        covered_same d u i =
            let (r, j, e) = d.covered u i in
            elim (is_in-cases r v d.reps j) [
              | inl first ↦ (
                p,
                is_in-first p d.reps,
                equal_trans o p v u x mine-IsGood
                    (later-IsGood u (in_front u vs out d.rest d.parts i)) same
                    (subst (λ y. is_zero (o.cmp y u) ≡ true) (sym first) e),
              )
              | inr later ↦ (r, is_in-later r p d.reps later, e)
            ]

    next-IsCut :
        is_zero (o.cmp p v) ≡ false → IsCut o m (k + 1) v vs out → IsCut o m k p (v ∷ vs) (v ∷ out)
    next-IsCut other c = record {
      rest = c.rest;
      reps = v ∷ c.reps;
      parts = ap (◌∷◌ v) c.parts;
      older = older_too (k + 1) c;
      falling = (
        λ q i. elim (is_in-cases q v c.reps i) [
          | inl here ↦ subst (λ y. ge o y p ≡ false) here (newer_cross o p v x mine-IsGood pv other)
          | inr later ↦ falling_too (k + 1) c q later
        ],
        c.falling,
      );
      taken = λ r i. elim (is_in-cases r v c.reps i) [
        | inl here ↦ subst (λ y. is_in y (v ∷ out) ≡ true) here (is_in-first v out)
        | inr later ↦ is_in-later r v out (c.taken r later)
      ];
      covered = λ u i. elim (is_in-cases u v out i) [
        | inl here ↦ (
          v,
          is_in-later v p (v ∷ c.reps) (is_in-first v c.reps),
          subst (λ y. is_zero (o.cmp v y) ≡ true) here (equal_refl o v mine-IsGood),
        )
        | inr later ↦ let (r, j, e) = c.covered u later in (r, is_in-later r p (v ∷ c.reps) j, e)
      ];
      few = omega (arith, c.few);
      many = λ w i. omega (arith, c.many w i);
    }

    here-IsCut :
        is_zero (o.cmp p v) ≡ false
        → IsSorted o (v ∷ vs)
        → k < m
        → m ≤ k + 1
        → IsCut o m k p (v ∷ vs) []
    here-IsCut other s l full =
        let under : ge o v p ≡ false = newer_cross o p v x mine-IsGood pv other in
        record {
          rest = v ∷ vs;
          reps = [];
          parts = refl;
          older = λ w u i e. elim (is_in-cases u p [] e) [
            | inr none_there ↦ unfold is_in in cc none_there
            | inl same ↦ subst (λ y. ge o w y ≡ false) same (under_all w i under)
          ];
          falling = ((λ q i. unfold is_in in cc i), tt);
          taken = λ r i. unfold is_in in cc i;
          covered = λ u i. unfold is_in in cc i;
          few = omega arith;
          many = λ w i. omega arith;
        }
      where
        under_all : (w : Bytes) → is_in w (v ∷ vs) ≡ true → ge o v p ≡ false → ge o w p ≡ false
        under_all w i under = elim (is_in-cases w v vs i) [
          | inl same ↦ subst (λ y. ge o y p ≡ false) same under
          | inr later ↦ elim (Bool-cases (ge o w p)) [
            | inr e ↦ e
            | inl e ↦ cc (under, o.trans v w p mine-IsGood (later-IsGood w later) x (s.0 w later) e)
          ]
        ]

  pub keep_loop-IsCut :
      (m k : ℕ) (p : Bytes) (vs : List Bytes)
      → k < m
      → o.IsGood p
      → AreGood o vs
      → ((w : Bytes) → is_in w vs ≡ true → ge o p w ≡ true)
      → IsSorted o vs
      → IsCut o m k p vs (keep_loop o.cmp m k (some p) vs)
  unfolding keep_loop crossed
  keep_loop-IsCut m k p [] l x g pv s = record {
    rest = [];
    reps = [];
    parts = refl;
    older = λ w u i e. unfold is_in in cc i;
    falling = ((λ q i. unfold is_in in cc i), tt);
    taken = λ r i. unfold is_in in cc i;
    covered = λ u i. unfold is_in in cc i;
    few = omega arith;
    many = λ w i. unfold is_in in cc i;
  }
  keep_loop-IsCut m k p (v ∷ vs) l x g pv s =
      let newer = pv v (is_in-first v vs) in
      let good_vs : AreGood o vs = λ w e. g w (is_in-later w v vs e) in
      let good = g v (is_in-first v vs) in
      elim (Bool-cases (is_zero (o.cmp p v))) [
        | inl a ↦
            let more : leb m k ≡ false = ground arith in
            rw (a, more)
              (same-IsCut m k p v vs (keep_loop o.cmp m k (some v) vs) x g newer a
                (keep_loop-IsCut m k v vs l good good_vs s.0 s.1))
        | inr a ↦ elim (Bool-cases (leb m (k + 1))) [
          | inl b ↦ rw (a, b) (here-IsCut m k p v vs [] x g newer a s l (ground arith))
          | inr b ↦
              rw (a, b)
                (next-IsCut m k p v vs (keep_loop o.cmp m (k + 1) (some v) vs) x g newer a
                  (keep_loop-IsCut m (k + 1) v vs (ground arith) good good_vs s.0 s.1))
        ]
      ]
