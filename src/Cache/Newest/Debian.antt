-- ===== src/Cache/Newest/Debian.antt =====
-- The order of Debian versions is an order as the retention asks for.
use apt_cacher_ultra.Base.{
  zero, suc, ◌≡◌, ◌≢◌, refl, ap, ◌∙◌, inl, inr, true, some, pos_part, arith, Bool-cases, Bytes, ℤ,
  pos, negsuc, neg, is_zero, if◌then◌else◌, Option-cases,
}
use apt_cacher_ultra.Debversion.{compare}
use apt_cacher_ultra.Debversion.Digits.{NoNul}
use apt_cacher_ultra.Debversion.Compare.{compare-version_order, compare_swap, compare_trans}
use apt_cacher_ultra.Cache.Newest.{result_of, version_cmp}
use apt_cacher_ultra.Cache.Newest.Versions.{nonneg, VersionOrder}

-- Compare has a result.
pub compared : (a b : Bytes) → NoNul a → NoNul b → compare a b ≡ some (version_cmp a b)
unfolding version_cmp result_of
compared a b u v = elim (Option-cases (compare a b)) [
  | inl e ↦ cc (compare-version_order a b u v)
  | inr (z, e) ↦ rw e refl
]

pub cmp_swap : (a b : Bytes) → NoNul a → NoNul b → version_cmp b a ≡ neg (version_cmp a b)
cmp_swap a b u v = cc (compared b a v u, compare_swap a b u v (compared a b u v))

not_older : (z : ℤ) → nonneg z ≡ true → neg z ≢ pos 1
not_older (pos zero) e q = ground (arith, ap pos_part q)
not_older (pos (suc n)) e q = cc q
not_older (negsuc n) e q = cc e

neg_twice : (z : ℤ) → neg (neg z) ≡ z
neg_twice (pos zero) = refl
neg_twice (pos (suc n)) = refl
neg_twice (negsuc n) = refl

joined :
    (r s : ℤ)
    → nonneg r ≡ true
    → nonneg s ≡ true
    → nonneg (neg (if is_zero (neg s) then neg r else neg s)) ≡ true
joined r s e f = elim (Bool-cases (is_zero (neg s))) [
  | inl a ↦ rw (a, neg_twice r) e
  | inr a ↦ rw (a, neg_twice s) f
]

pub cmp_trans :
    (a b c : Bytes)
    → NoNul a
    → NoNul b
    → NoNul c
    → nonneg (version_cmp a b) ≡ true
    → nonneg (version_cmp b c) ≡ true
    → nonneg (version_cmp a c) ≡ true
cmp_trans a b c u v w e f =
    let cb = compared c b w v ∙ ap some (cmp_swap b c v w) in
    let ba = compared b a v u ∙ ap some (cmp_swap a b u v) in
    let ca =
      compare_trans c b a w v u cb ba (not_older (version_cmp b c) f)
        (not_older (version_cmp a b) e) in
    let same : version_cmp c a ≡ (
        if is_zero (neg (version_cmp b c)) then neg (version_cmp a b) else neg (version_cmp b c)) =
      cc (compared c a w u, ca) in
    ap nonneg (cmp_swap c a w u ∙ ap neg same) ∙ joined (version_cmp a b) (version_cmp b c) e f

unfoldable pub debian : VersionOrder
debian = record { IsGood = NoNul; cmp = version_cmp; swap = cmp_swap; trans = cmp_trans }
