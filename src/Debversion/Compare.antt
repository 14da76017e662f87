-- ===== src/Debversion/Compare.antt =====
-- debversion.Compare as a whole: it orders versions by epoch, upstream version and revision.
use apt_cacher_ultra.Base.{
  ℕ, zero, suc, ◌+◌, ◌<◌, ◌≡◌, refl, ◌≢◌, inl, inr, true, none, some, [], ◌∷◌, ◌++◌, if◌then◌else◌,
  arith, all, is_zero, length, take, drop, Bytes, ℤ, pos, neg, Bool-cases, Option-cases,
  take-length, drop-length, index_byte-append, last_index_byte-append, ◌&&◌, ltb, index_byte,
  last_index_byte,
}
use apt_cacher_ultra.Debversion.Key.{key, lex, by}
use apt_cacher_ultra.Debversion.Digits.{NoNul}
use apt_cacher_ultra.Debversion.Loop.{verrevcmp-lex}
use apt_cacher_ultra.Debversion.Epoch.{value, compare_numeric_string-value}
use apt_cacher_ultra.Debversion.Order.{IsSign, lex_swap, lex-IsSign, lex_trans}
use apt_cacher_ultra.Debversion.{
  Version, is_digit, is_all_digits, split_epoch, split_revision, parse, compare, verrevcmp,
  compare_numeric_string, or_else, then_compare,
}

abbrev pub chain : ℤ → ℤ → ℤ
chain r s = if is_zero r then s else r

epochs : Version → Version → ℤ
epochs v w = by (value 0 v.epoch) (value 0 w.epoch) (pos 0)

upstreams : Version → Version → ℤ
upstreams v w = lex (key none v.upstream) (key none w.upstream)

revisions : Version → Version → ℤ
revisions v w = lex (key none v.revision) (key none w.revision)

-- The order of two parsed versions: the epoch as a number, then the keys of the two parts.
unfoldable pub version_order : Version → Version → ℤ
unfolding epochs upstreams revisions
version_order v w = chain (epochs v w) (chain (upstreams v w) (revisions v w))

NoNul-take : (n : ℕ) (s : Bytes) → NoNul s → NoNul (take n s)
NoNul-take zero s u = tt
NoNul-take (suc n) [] u = tt
NoNul-take (suc n) (c ∷ s) u = (u.0, NoNul-take n s u.1)

NoNul-drop : (n : ℕ) (s : Bytes) → NoNul s → NoNul (drop n s)
NoNul-drop zero s u = u
NoNul-drop (suc n) [] u = tt
NoNul-drop (suc n) (c ∷ s) u = NoNul-drop n s u.1

-- The epoch is a string of digits, perhaps empty, and the parts have no NUL either.
record IsParsed (v : Version) : Type 0 where
  epoch : all is_digit v.epoch ≡ true
  upstream : NoNul v.upstream
  revision : NoNul v.revision

is_all_digits-all : (s : Bytes) → is_all_digits s ≡ true → all is_digit s ≡ true
unfolding is_all_digits
is_all_digits-all [] h = refl
is_all_digits-all (c ∷ s) h = h

split_epoch-NoNul :
    (v : Bytes) → NoNul v → (all is_digit (split_epoch v).0 ≡ true) × NoNul (split_epoch v).1
unfolding split_epoch
split_epoch-NoNul v u = elim (Option-cases (index_byte b':' v)) [
  | inl e ↦ rw (e, split_epoch) (refl, u)
  | inr (i, e) ↦
      rw (e, split_epoch)
        (elim (Bool-cases (ltb 0 i && is_all_digits (take i v))) [
          | inl h ↦ rw h (is_all_digits-all (take i v) (ground arith), NoNul-drop (i + 1) v u)
          | inr h ↦ rw h (refl, u)
        ])
]

split_revision-NoNul :
    (s : Bytes) → NoNul s → NoNul (split_revision s).0 × NoNul (split_revision s).1
unfolding split_revision
split_revision-NoNul s u = elim (Option-cases (last_index_byte b'-' s)) [
  | inl e ↦ rw (e, split_revision) (u, tt)
  | inr (i, e) ↦ rw (e, split_revision) (NoNul-take i s u, NoNul-drop (i + 1) s u)
]

parse-IsParsed : (v : Bytes) → NoNul v → IsParsed (parse v)
unfolding parse
parse-IsParsed v u =
    let (n, r) = split_epoch-NoNul v u in
    let (a, b) = split_revision-NoNul (split_epoch v).1 r in
    record { epoch = n; upstream = a; revision = b }

composed : (c r s : ℤ) → or_else c (then_compare (some r) (some s)) ≡ some (chain c (chain r s))
unfolding or_else then_compare
composed c r s = ground arith

compare_lem :
    (a b : Bytes)
    → compare a b
      ≡ or_else (compare_numeric_string (parse a).epoch (parse b).epoch) (
          then_compare
            (verrevcmp (parse a).upstream (parse b).upstream)
            (verrevcmp (parse a).revision (parse b).revision))
unfolding compare
compare_lem a b = refl

-- On versions with no NUL byte, Compare ends, and returns the order of the parsed versions: that of
-- their epochs as numbers, then of the upstream versions, then of the revisions, the last two
-- by the lexicographic order of their lists of weights and numbers (Key).
pub compare-version_order :
    (a b : Bytes) → NoNul a → NoNul b → compare a b ≡ some (version_order (parse a) (parse b))
unfolding version_order
compare-version_order a b u v =
    let p = parse-IsParsed a u in
    let q = parse-IsParsed b v in
    rw
      (
        compare_lem a b,
        verrevcmp-lex _ _ p.upstream q.upstream,
        verrevcmp-lex _ _ p.revision q.revision,
        compare_numeric_string-value _ _ p.epoch q.epoch,
      )
      (composed (epochs (parse a) (parse b)) (upstreams (parse a) (parse b))
        (revisions (parse a) (parse b)))

chain_trans :
    (r r' s s' t t' : ℤ)
    → IsSign r
    → IsSign r'
    → IsSign s
    → IsSign s'
    → (r ≢ pos 1 → s ≢ pos 1 → t ≡ chain r s)
    → (r' ≢ pos 1 → s' ≢ pos 1 → t' ≡ chain r' s')
    → chain r r' ≢ pos 1
    → chain s s' ≢ pos 1
    → chain t t' ≡ chain (chain r r') (chain s s')
chain_trans r r' s s' t t' g g' h h' f f' p q = ground arith

chain-IsSign : (r s : ℤ) → IsSign r → IsSign s → IsSign (chain r s)
chain-IsSign r s g h = ground arith

chain_swap : (r r' s s' : ℤ) → s ≡ neg r → s' ≡ neg r' → chain s s' ≡ neg (chain r r')
chain_swap r r' s s' p q = ground arith

epochs-IsSign : (v w : Version) → IsSign (epochs v w)
unfolding epochs
epochs-IsSign v w = ground arith

epochs_swap : (v w : Version) → epochs w v ≡ neg (epochs v w)
unfolding epochs
epochs_swap v w = ground arith

epochs_trans :
    (u v w : Version)
    → epochs u v ≢ pos 1
    → epochs v w ≢ pos 1
    → epochs u w ≡ chain (epochs u v) (epochs v w)
unfolding epochs
epochs_trans u v w p q = ground arith

upstreams-IsSign : (v w : Version) → IsSign (upstreams v w)
unfolding upstreams
upstreams-IsSign v w = lex-IsSign (key none v.upstream) (key none w.upstream)

revisions-IsSign : (v w : Version) → IsSign (revisions v w)
unfolding revisions
revisions-IsSign v w = lex-IsSign (key none v.revision) (key none w.revision)

version_order_swap : (v w : Version) → version_order w v ≡ neg (version_order v w)
unfolding version_order
version_order_swap v w =
    chain_swap (epochs v w) (chain (upstreams v w) (revisions v w)) (epochs w v)
      (chain (upstreams w v) (revisions w v)) (epochs_swap v w)
      (chain_swap (upstreams v w) (revisions v w) (upstreams w v) (revisions w v)
        (lex_swap (key none v.upstream) (key none w.upstream))
        (lex_swap (key none v.revision) (key none w.revision)))

-- The two parts behind the epoch.
parts : Version → Version → ℤ
parts v w = chain (upstreams v w) (revisions v w)

parts-IsSign : (v w : Version) → IsSign (parts v w)
unfolding parts
parts-IsSign v w =
    chain-IsSign (upstreams v w) (revisions v w) (upstreams-IsSign v w) (revisions-IsSign v w)

parts_trans :
    (u v w : Version)
    → parts u v ≢ pos 1
    → parts v w ≢ pos 1
    → parts u w ≡ chain (parts u v) (parts v w)
unfolding parts
parts_trans u v w =
    chain_trans (upstreams u v) (revisions u v) (upstreams v w) (revisions v w) (upstreams u w)
      (revisions u w) (upstreams-IsSign u v) (revisions-IsSign u v) (upstreams-IsSign v w)
      (revisions-IsSign v w)
      (unfold upstreams in
        lex_trans (key none u.upstream) (key none v.upstream) (key none w.upstream))
      (unfold revisions in
        lex_trans (key none u.revision) (key none v.revision) (key none w.revision))

version_order_trans :
    (u v w : Version)
    → version_order u v ≢ pos 1
    → version_order v w ≢ pos 1
    → version_order u w ≡ chain (version_order u v) (version_order v w)
unfolding version_order parts
version_order_trans u v w =
    chain_trans (epochs u v) (parts u v) (epochs v w) (parts v w) (epochs u w) (parts u w)
      (epochs-IsSign u v) (parts-IsSign u v) (epochs-IsSign v w) (parts-IsSign v w)
      (epochs_trans u v w) (parts_trans u v w)

-- Swapping the arguments of Compare negates its result, on versions with no NUL byte.
pub compare_swap :
    (a b : Bytes) → NoNul a → NoNul b → {r : ℤ} → compare a b ≡ some r → compare b a ≡ some (neg r)
compare_swap a b u v {r} e =
    let o : version_order (parse a) (parse b) ≡ r = cc (compare-version_order a b u v) in
    rw (compare-version_order b a v u, version_order_swap (parse a) (parse b), o)

-- Compare is transitive on versions with no NUL byte: where it finds neither `a` after `b` nor `b` after `c`, it finds `a`
-- before `c`, or equal to it just when both comparisons said equal.
pub compare_trans :
    (a b c : Bytes) {r s : ℤ}
    → NoNul a
    → NoNul b
    → NoNul c
    → compare a b ≡ some r
    → compare b c ≡ some s
    → r ≢ pos 1
    → s ≢ pos 1
    → compare a c ≡ some (if is_zero r then s else r)
compare_trans a b c {r} {s} u v w e f p q =
    let o : version_order (parse a) (parse b) ≡ r = cc (compare-version_order a b u v) in
    let o' : version_order (parse b) (parse c) ≡ s = cc (compare-version_order b c v w) in
    rw (
      compare-version_order a c u w,
      version_order_trans (parse a) (parse b) (parse c) (rw o p) (rw o' q),
      o,
      o',
    )

digits-no_colon : (s : Bytes) → all is_digit s ≡ true → index_byte b':' s ≡ none
unfolding is_digit index_byte
digits-no_colon [] h = refl
digits-no_colon (c ∷ s) h = ground (arith, digits-no_colon s)

is_all_digits-length : (s : Bytes) → is_all_digits s ≡ true → 0 < length s
unfolding is_all_digits
is_all_digits-length [] h = cc
is_all_digits-length (c ∷ s) h = omega arith

-- A version that is put together from a number, an upstream version and a revision without a dash
-- parses into the three.
pub parse_joined :
    (e u r : Bytes)
    → is_all_digits e ≡ true
    → last_index_byte b'-' r ≡ none
    → parse (e ++ (b':' ∷ (u ++ (b'-' ∷ r)))) ≡ record { epoch = e; upstream = u; revision = r }
unfolding parse split_epoch split_revision
parse_joined e u r h k = ground (
  arith,
  index_byte-append b':' e (u ++ (b'-' ∷ r)) (digits-no_colon e (is_all_digits-all e h)),
  is_all_digits-length e h,
  take-length e (b':' ∷ (u ++ (b'-' ∷ r))),
  drop-length e b':' (u ++ (b'-' ∷ r)),
  last_index_byte-append b'-' u r k,
  take-length u (b'-' ∷ r),
  drop-length u b'-' r,
)
