-- ===== src/Cache/Newest/Versions.antt =====
-- What the retention asks of the order of versions.
use apt_cacher_ultra.Base.{
  zero, suc, ◌≡◌, refl, sym, ap, ◌∙◌, Bool, true, false, ◌&&◌, Bytes, ℤ, pos, negsuc, neg, is_zero,
  arith,
}
use apt_cacher_ultra.Cache.Newest.{Cmp}

-- A result that says "not older".
abbrev pub nonneg : ℤ → Bool
nonneg (pos n) = true
nonneg (negsuc n) = false

-- Comparing good versions the other way round negates the result, and "not older" is transitive.
pub record VersionOrder : Type 1 where
  pub IsGood : Bytes → Type 0
  pub cmp : Cmp
  pub swap : (a b : Bytes) → IsGood a → IsGood b → cmp b a ≡ neg (cmp a b)
  pub trans :
      (a b c : Bytes)
      → IsGood a
      → IsGood b
      → IsGood c
      → nonneg (cmp a b) ≡ true
      → nonneg (cmp b c) ≡ true
      → nonneg (cmp a c) ≡ true

zero_sides : (z : ℤ) → is_zero z ≡ (nonneg z && nonneg (neg z))
zero_sides (pos zero) = refl
zero_sides (pos (suc n)) = ground arith
zero_sides (negsuc n) = refl

one_side : (z : ℤ) → nonneg z ≡ false → nonneg (neg z) ≡ true
one_side (pos n) e = cc e
one_side (negsuc n) e = refl

same_sides : (z : ℤ) → z ≡ neg z → nonneg z ≡ true
same_sides (pos n) e = refl
same_sides (negsuc n) e = cc e

module _ (o : VersionOrder) where
  abbrev pub ge : Bytes → Bytes → Bool
  ge a b = nonneg (o.cmp a b)

  pub ge_total : (a b : Bytes) → o.IsGood a → o.IsGood b → ge a b ≡ false → ge b a ≡ true
  ge_total a b u v e = ap nonneg (o.swap a b u v) ∙ one_side (o.cmp a b) e

  pub ge_refl : (a : Bytes) → o.IsGood a → ge a a ≡ true
  ge_refl a u = same_sides (o.cmp a a) (o.swap a a u u)

  -- Equal versions are those of which neither is older.
  pub is_zero-cmp :
      (a b : Bytes) → o.IsGood a → o.IsGood b → is_zero (o.cmp a b) ≡ (ge a b && ge b a)
  is_zero-cmp a b u v = zero_sides (o.cmp a b) ∙ ap (λ z. ge a b && nonneg z) (sym (o.swap a b u v))
