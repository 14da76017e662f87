-- ===== src/Cache/Newest/Classes.antt =====
-- keepNewestNVersionSet keeps the newest versions, class by class.
use apt_cacher_ultra.Base.{
  ℕ, zero, suc, ◌≤◌, ◌<◌, ◌≡◌, ◌⊎◌, refl, sym, ap, ◌∙◌, inl, inr, Bool, true, false, ◌||◌, none,
  some, List, [], ◌∷◌, ◌++◌, All, leb, arith, length, Bytes, ℤ, pos, negsuc, is_zero, subst,
}
use apt_cacher_ultra.Debversion.Digits.{NoNul}
use apt_cacher_ultra.Cache.Newest.{
  version_cmp, clamp_versions, default_max_versions, is_in, distinct, sort_versions, crossed,
  keep_loop, keep_newest, keep_newest_n_version_set,
}
use apt_cacher_ultra.Cache.Newest.Versions.{nonneg}
use apt_cacher_ultra.Cache.Newest.Sorted.{
  is_in-first, is_in-later, is_in-cases, is_in-sorted, is_in-sort_versions, AreGood, IsSorted,
  sort_versions-IsSorted,
}
use apt_cacher_ultra.Cache.Newest.Cut.{IsFalling, IsCut, equal_refl, is_in-append, in_front}
use apt_cacher_ultra.Cache.Newest.Loop.{keep_loop-IsCut}
use apt_cacher_ultra.Cache.Newest.Debian.{debian}

from_in :
    (P : Bytes → Type 0) (vs : List Bytes) → ((v : Bytes) → is_in v vs ≡ true → P v) → All P vs
from_in P [] h = tt
from_in P (v ∷ vs) h = (h v (is_in-first v vs), from_in P vs (λ w i. h w (is_in-later w v vs i)))

to_in : (P : Bytes → Type 0) (vs : List Bytes) → All P vs → (v : Bytes) → is_in v vs ≡ true → P v
to_in P [] a v i = unfold is_in in cc i
to_in P (x ∷ vs) a v i = elim (is_in-cases v x vs i) [
  | inl same ↦ subst P same a.0
  | inr later ↦ to_in P vs a.1 v later
]

-- Versions of which each is newer than all behind it.
abbrev pub IsStrict : List Bytes → Type 0
IsStrict [] = Unit {0}
IsStrict (r ∷ rs) = All (λ q. nonneg (version_cmp q r) ≡ false) rs × IsStrict rs

-- A version that is equal to one of a list, by Compare.
unfoldable pub has_equal : List Bytes → Bytes → Bool
has_equal [] v = false
has_equal (r ∷ rs) v = is_zero (version_cmp r v) || has_equal rs v

has_equal-is_in :
    (rs : List Bytes) (v r : Bytes)
    → is_in r rs ≡ true
    → is_zero (version_cmp r v) ≡ true
    → has_equal rs v ≡ true
unfolding has_equal
has_equal-is_in [] v r i e = unfold is_in in cc i
has_equal-is_in (x ∷ rs) v r i e = elim (is_in-cases r x rs i) [
  | inl same ↦ rw (subst (λ y. is_zero (version_cmp y v) ≡ true) (sym same) e) refl
  | inr later ↦ ground (arith, has_equal-is_in rs v r later e)
]

falling-IsStrict : (rs : List Bytes) → IsFalling debian rs → IsStrict rs
unfolding debian
falling-IsStrict [] f = tt
falling-IsStrict (r ∷ rs) f =
    (from_in (λ q. nonneg (version_cmp q r) ≡ false) rs f.0, falling-IsStrict rs f.1)

-- The whole loop on a sorted list: as behind the first version, which is in the first class.
record IsNewest (m : ℕ) (vs out : List Bytes) : Type 0 where
  rest : List Bytes
  reps : List Bytes
  parts : vs ≡ out ++ rest
  older :
      (w v : Bytes) → is_in w rest ≡ true → is_in v out ≡ true → nonneg (version_cmp w v) ≡ false
  falling : IsStrict reps
  taken : (r : Bytes) → is_in r reps ≡ true → is_in r out ≡ true
  covered : (v : Bytes) → is_in v out ≡ true → has_equal reps v ≡ true
  few : length reps ≤ m
  many : (w : Bytes) → is_in w rest ≡ true → length reps ≡ m

loop-IsNewest :
    (m : ℕ) (vs : List Bytes)
    → 0 < m
    → AreGood debian vs
    → IsSorted debian vs
    → IsNewest m vs (keep_loop version_cmp m 0 none vs)
unfolding keep_loop crossed debian
loop-IsNewest m [] l g s = record {
  rest = [];
  reps = [];
  parts = refl;
  older = λ w v i j. unfold is_in in cc i;
  falling = tt;
  taken = λ r i. unfold is_in in cc i;
  covered = λ v i. unfold is_in in cc i;
  few = omega arith;
  many = λ w i. unfold is_in in cc i;
}
loop-IsNewest m (v ∷ vs) l g s =
    let more : leb m 0 ≡ false = ground arith in
    rw more (
      first_class (keep_loop version_cmp m 0 (some v) vs) (
        keep_loop-IsCut debian m 0 v vs l (g v (is_in-first v vs))
          (λ w i. g w (is_in-later w v vs i)) s.0 s.1))
  where
    first_class : (out : List Bytes) → IsCut debian m 0 v vs out → IsNewest m (v ∷ vs) (v ∷ out)
    first_class out c = record {
      rest = c.rest;
      reps = v ∷ c.reps;
      parts = ap (◌∷◌ v) c.parts;
      older = c.older;
      falling = falling-IsStrict (v ∷ c.reps) c.falling;
      taken = λ r i. elim (is_in-cases r v c.reps i) [
        | inl same ↦ subst (λ y. is_in y (v ∷ out) ≡ true) same (is_in-first v out)
        | inr later ↦ is_in-later r v out (c.taken r later)
      ];
      covered = λ u i. elim (is_in-cases u v out i) [
        | inl here ↦ has_equal-is_in (v ∷ c.reps) u v (is_in-first v c.reps) (
            subst (λ y. is_zero (version_cmp v y) ≡ true) here
              (equal_refl debian v (g v (is_in-first v vs))))
        | inr later ↦ let (r, j, e) = c.covered u later in has_equal-is_in (v ∷ c.reps) u r j e
      ];
      few = omega (arith, c.few);
      many = λ w i. omega (arith, c.many w i);
    }

clamp_versions_pos : (n : ℤ) → 0 < clamp_versions n
unfolding clamp_versions default_max_versions
clamp_versions_pos (pos zero) = omega arith
clamp_versions_pos (pos (suc n)) = omega arith
clamp_versions_pos (negsuc n) = omega arith

sorted-IsGood :
    (vs : List Bytes)
    → All NoNul vs
    → (w : Bytes) → is_in w (sort_versions version_cmp (distinct [] vs)) ≡ true
    → NoNul w
sorted-IsGood vs a w i = to_in NoNul vs a w (sym (is_in-sorted version_cmp vs w) ∙ i)

kept-IsNewest :
    (vs : List Bytes) (n : ℤ)
    → All NoNul vs
    → IsNewest
        (clamp_versions n)
        (sort_versions version_cmp (distinct [] vs))
        (keep_newest_n_version_set vs n)
unfolding keep_newest_n_version_set keep_newest debian
kept-IsNewest vs n a =
    let sorted = sort_versions version_cmp (distinct [] vs) in
    loop-IsNewest (clamp_versions n) sorted (clamp_versions_pos n) (sorted-IsGood vs a) (
      sort_versions-IsSorted debian (distinct [] vs)
        (λ w i. sorted-IsGood vs a w (is_in-sort_versions version_cmp (distinct [] vs) w ∙ i)))

-- Where a version is in the list: in front of the cut or behind it.
given_parts :
    (vs out : List Bytes) (m : ℕ) (c : IsNewest m (sort_versions version_cmp (distinct [] vs)) out)
    (w : Bytes)
    → is_in w vs ≡ true
    → (is_in w out ≡ true) ⊎ (is_in w c.rest ≡ true)
given_parts vs out m c w i =
    let here =
      sym (is_in-append w out c.rest)
      ∙ (sym (ap (is_in w) c.parts) ∙ (is_in-sorted version_cmp vs w ∙ i)) in
    one_of (is_in w out) (is_in w c.rest) here
  where
    one_of : (a b : Bool) → (a || b) ≡ true → (a ≡ true) ⊎ (b ≡ true)
    one_of true b e = inl refl
    one_of false b e = inr e

-- Of versions with no NUL byte, keepNewestNVersionSet keeps with each version all those that
-- Compare finds equal to it or newer.
pub keep_newest_upward :
    (versions : List Bytes) (n : ℤ) (v w : Bytes)
    → All NoNul versions
    → is_in v (keep_newest_n_version_set versions n) ≡ true
    → is_in w versions ≡ true
    → nonneg (version_cmp w v) ≡ true
    → is_in w (keep_newest_n_version_set versions n) ≡ true
keep_newest_upward versions n v w a kept given newer =
    let c = kept-IsNewest versions n a in
    elim (given_parts versions (keep_newest_n_version_set versions n) (clamp_versions n) c w
      given) [ inl e ↦ e | inr e ↦ cc (newer, c.older w v e kept) ]

-- Of versions with no NUL byte, keepNewestNVersionSet keeps the newest classes of equal ones, as many
-- as it is asked for, three if that is not positive. There are kept versions, each newer than the next,
-- at most that many, of which each kept version equals one. Every version given is kept, or is
-- older than each kept one, and there are then exactly that many. Nothing else is kept.
pub keep_newest_classes :
    (versions : List Bytes) (n : ℤ)
    → All NoNul versions
    → (reps : List Bytes) × IsStrict reps
      × All (λ r. is_in r (keep_newest_n_version_set versions n) ≡ true) reps
      × All (λ v. has_equal reps v ≡ true) (keep_newest_n_version_set versions n)
      × (length reps ≤ clamp_versions n)
      × All
          (λ w.
            (is_in w (keep_newest_n_version_set versions n) ≡ true)
            ⊎ ((length reps ≡ clamp_versions n)
                × All
                    (λ v. nonneg (version_cmp w v) ≡ false)
                    (keep_newest_n_version_set versions n)))
          versions
      × All (λ v. is_in v versions ≡ true) (keep_newest_n_version_set versions n)
keep_newest_classes versions n a =
    let out = keep_newest_n_version_set versions n in
    let c = kept-IsNewest versions n a in
    let Older = λ (w : Bytes). All (λ v. nonneg (version_cmp w v) ≡ false) out in
    (
      c.reps,
      c.falling,
      from_in (λ r. is_in r out ≡ true) c.reps c.taken,
      from_in (λ v. has_equal c.reps v ≡ true) out c.covered,
      c.few,
      from_in (λ w. (is_in w out ≡ true) ⊎ ((length c.reps ≡ clamp_versions n) × Older w)) versions
          (λ w i. elim (given_parts versions out (clamp_versions n) c w i) [
            | inl e ↦ inl e
            | inr e ↦ inr (
              c.many w e,
              from_in (λ v. nonneg (version_cmp w v) ≡ false) out (λ v j. c.older w v e j),
            )
          ]),
      from_in (λ v. is_in v versions ≡ true) out
          (λ v i.
            sym (is_in-sorted version_cmp versions v)
            ∙ in_front v (sort_versions version_cmp (distinct [] versions)) out c.rest c.parts i),
    )
