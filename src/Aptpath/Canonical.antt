-- ===== src/Aptpath/Canonical.antt =====
-- What SuitePath finds: a prefix of the request path, canonical in its own right.
use apt_cacher_ultra.Base.{
  ℕ, suc, ◌+◌, ◌-◌, ◌≡◌, refl, ap, ◌∙◌, ◌≢◌, ◌⊎◌, inl, inr, true, false, not, ◌||◌, List, [], ◌∷◌,
  ◌++◌, leb, if◌then◌else◌, arith, length, take, All, Bytes, codes, bytes_eq, bytes_eq_iff, join,
  Free, split-join, join-append, take-length, get_or-append, get_or-length, All-append, All-left,
  all-append, length-append, Bool-cases, contains_byte,
}
use apt_cacher_ultra.Aptpath.Suite.{
  run_grammar, slash, is_clean_byte, clean_bytes, any_dists, has_dists_segment, any_bad,
  is_bad_segment, last_dists, dists_suite_path, is_flat_member, flat_member_segments,
  flat_suite_path, suite_path, is_canonical_suite_path, is_flat_suite_path,
}
use apt_cacher_ultra.Aptpath.Directory.{
  suite_of, path_of, any_dists-root, suite_path-path_of, Segments, rooted, any_dists-at, DistsDir,
  FlatDir, Suite, dists-Suite, flat-Suite,
}

Free-names :
    (dir : List Bytes) (m : Bytes)
    → All (Free slash) dir
    → Free slash m
    → All (Free slash) (dir ++ (m ∷ []))
Free-names dir m f g = All-append (Free slash) dir (m ∷ []) f (g, tt)

any_bad-append : (xs ys : List Bytes) → any_bad (xs ++ ys) ≡ (any_bad xs || any_bad ys)
unfolding any_bad
any_bad-append [] ys = refl
any_bad-append (x ∷ xs) ys = ground (arith, any_bad-append xs ys)

any_dists-append : (xs ys : List Bytes) → any_dists (xs ++ ys) ≡ (any_dists xs || any_dists ys)
unfolding any_dists
any_dists-append [] ys = refl
any_dists-append (x ∷ xs) ys = ground (arith, any_dists-append xs ys)

take-length-append {ℓ} :
    {A : Type ℓ} (n : ℕ) (xs ys : List A) → length xs ≡ n → take n (xs ++ ys) ≡ xs
take-length-append n xs ys e = rw (← e) (take-length xs ys)

dists-member :
    (dir : List Bytes) (m : Bytes)
    → DistsDir dir
    → is_bad_segment m ≡ false
    → suite_of (dir ++ (m ∷ [])) ≡ path_of dir
unfolding dists_suite_path any_bad
dists-member dir m (i, size, at_i, good) b =
    let whole : length (dir ++ (m ∷ [])) - 2 ≡ suc i =
      omega (arith, length-append dir (m ∷ []), size) in
    let still = get_or-append dir (m ∷ []) i [] (omega arith) ∙ at_i in
    rw (any_dists-at i (dir ++ (m ∷ [])) still, any_bad-append dir (m ∷ []), good, b, whole)
      (unfold last_dists bytes_eq in
        rw still (ap (λ x. slash ∷ join slash x) (take-length-append (i + 2) dir (m ∷ []) size)))

length-member : (dir : List Bytes) (m : Bytes) → length (dir ++ (m ∷ [])) ≡ length dir + 1
length-member dir m = omega (arith, length-append dir (m ∷ []))

flat_member_segments-one :
    (dir : List Bytes) (m : Bytes)
    → is_flat_member m ≡ true
    → flat_member_segments (dir ++ (m ∷ [])) ≡ 1
unfolding flat_member_segments
flat_member_segments-one dir m f =
    let last : length dir + 1 - 1 ≡ length dir = omega arith in
    rw (length-member dir m, last, get_or-length dir m [] [], f) (ground arith)

flat-member :
    (dir : List Bytes) (m : Bytes)
    → FlatDir dir
    → dir ≢ []
    → is_flat_member m ≡ true
    → bytes_eq m (codes "dists") ≡ false
    → suite_of (dir ++ (m ∷ [])) ≡ path_of dir
unfolding flat_suite_path any_dists
flat-member dir m (d, whole) h f n =
    let last : length dir + 1 - 1 ≡ length dir = omega arith in
    rw
      (
        any_dists-append dir (m ∷ []),
        d,
        n,
        flat_member_segments-one dir m f,
        length-member dir m,
        last,
        take-length dir (m ∷ []),
      )
      (elim (Bool-cases (leb (length dir + 1) 1)) [
        | inl z ↦ absurd (h (empty dir (ground arith)))
        | inr z ↦ rw z whole
      ])
  where
    empty : (xs : List Bytes) → length xs ≡ 0 → xs ≡ []
    empty [] e = refl
    empty (x ∷ xs) e = absurd (omega arith)

-- A request path, and the suite that SuitePath finds for it.
pub record Found (p : Bytes) : Type 0 where
  pub dir : List Bytes
  pub member : List Bytes
  pub is_path : p ≡ path_of (dir ++ member)
  pub some_dir : dir ≢ []
  pub some_member : member ≢ []
  pub free : All (Free slash) dir
  pub clean : clean_bytes (path_of dir) ≡ true
  pub is_suite : suite_path p ≡ path_of dir
  pub dists : has_dists_segment p ≡ any_dists dir
  pub kind : DistsDir dir ⊎ FlatDir dir

clean-left : (a b : Bytes) → clean_bytes (a ++ b) ≡ true → clean_bytes a ≡ true
unfolding clean_bytes
clean-left a b h = ground (arith, all-append is_clean_byte a b)

pub suite_path-Found : (p : Bytes) → suite_path p ≢ [] → Found p
suite_path-Found p h =
    let s = rooted p h in
    let e : suite_path p ≡ (if clean_bytes (path_of s.segs) then suite_of s.segs else []) =
      ap suite_path s.is_path ∙ suite_path-path_of s.segs s.free s.some_segs in
    elim (Bool-cases (clean_bytes (path_of s.segs))) [
      | inl c ↦ found s c (e ∙ rw c refl)
      | inr c ↦ absurd (h (e ∙ rw c refl))
    ]
  where
    build :
        (s : Segments p)
        → clean_bytes (path_of s.segs) ≡ true
        → suite_path p ≡ suite_of s.segs
        → Suite s.segs
        → Found p
    build s c e u = record {
      dir = u.dir;
      member = u.member;
      is_path = s.is_path ∙ ap path_of u.splits;
      some_dir = u.some_dir;
      some_member = u.some_member;
      free = All-left (Free slash) u.dir u.member (rw u.splits at s.free);
      clean =
          clean-left (path_of u.dir) (slash ∷ join slash u.member)
            (rw (u.splits, join-append slash u.dir u.member u.some_dir u.some_member) at c);
      is_suite = e ∙ u.suite;
      dists =
          ap has_dists_segment s.is_path
          ∙ any_dists-root (join slash s.segs)
          ∙ ap any_dists (split-join slash s.segs s.free s.some_segs)
          ∙ u.same;
      kind = u.kind;
    }

    found :
        (s : Segments p)
        → clean_bytes (path_of s.segs) ≡ true
        → suite_path p ≡ suite_of s.segs
        → Found p
    found s c e = elim (Bool-cases (any_dists s.segs)) [
      | inl d ↦ build s c e (dists-Suite s.segs d (λ z. h (e ∙ z)))
      | inr d ↦ build s c e (flat-Suite s.segs d (λ z. h (e ∙ z)))
    ]

join-member :
    (dir : List Bytes) (m : Bytes)
    → dir ≢ []
    → join slash (dir ++ (m ∷ [])) ≡ join slash dir ++ (slash ∷ m)
join-member dir m h = rw (join-append slash dir (m ∷ []) h (λ z. cc z)) (unfold join in refl)

-- A file name that both grammars take for a member.
abbrev pub IsMember : Bytes → Type 0
IsMember m =
    Free slash m
    × (clean_bytes m ≡ true)
    × (is_flat_member m ≡ true)
    × (is_bad_segment m ≡ false)
    × (bytes_eq m (codes "dists") ≡ false)

suite_of-member :
    {p : Bytes} (f : Found p) (m : Bytes)
    → IsMember m
    → suite_of (f.dir ++ (m ∷ [])) ≡ path_of f.dir
suite_of-member f m (_, _, flat, good, other) = elim f.kind [
  | inl d ↦ dists-member f.dir m d good
  | inr d ↦ flat-member f.dir m d f.some_dir flat other
]

cons-ne-nil : (dir : List Bytes) (m : Bytes) → dir ++ (m ∷ []) ≢ []
cons-ne-nil [] m e = cc
cons-ne-nil (d ∷ dir) m e = cc

clean-member :
    (a m : Bytes)
    → clean_bytes a ≡ true
    → clean_bytes m ≡ true
    → clean_bytes (a ++ (slash ∷ m)) ≡ true
unfolding clean_bytes is_clean_byte contains_byte
clean-member a m p q = rw (all-append is_clean_byte a (slash ∷ m), p, q) refl

-- The suite of a request is the suite of each of its own members: every file name that both grammars
-- take for a member, put behind the suite that SuitePath found, is found under that same suite.
pub suite_path_members :
    (p m : Bytes)
    → suite_path p ≢ []
    → IsMember m
    → suite_path (suite_path p ++ (slash ∷ m)) ≡ suite_path p
suite_path_members p m h ok = go (suite_path-Found p h)
  where
    go : Found p → suite_path (suite_path p ++ (slash ∷ m)) ≡ suite_path p
    go f =
        let segs = f.dir ++ (m ∷ []) in
        let whole : path_of segs ≡ path_of f.dir ++ (slash ∷ m) =
          ap (◌∷◌ slash) (join-member f.dir m f.some_dir) in
        rw
          (
            f.is_suite,
            ← whole,
            suite_path-path_of segs (Free-names f.dir m f.free ok.0) (cons-ne-nil f.dir m),
          )
          (rw (whole, clean-member (path_of f.dir) m f.clean ok.1) (suite_of-member f m ok))

-- A suite that SuitePath found is a prefix of the request path, in front of a slash.
pub suite_path_prefix :
    (p : Bytes) → suite_path p ≢ [] → (m : Bytes) × (p ≡ suite_path p ++ (slash ∷ m))
suite_path_prefix p h = go (suite_path-Found p h)
  where
    go : Found p → (m : Bytes) × (p ≡ suite_path p ++ (slash ∷ m))
    go f = (
      join slash f.member,
      f.is_path
          ∙ rw f.is_suite
              (ap (◌∷◌ slash) (join-append slash f.dir f.member f.some_dir f.some_member)),
    )

in_release-IsMember : IsMember (codes "InRelease")
unfolding run_grammar
in_release-IsMember = (refl, refl, refl, refl, refl)

is_canonical_lem :
    (s : Bytes)
    → s ≢ []
    → suite_path (s ++ codes "/InRelease") ≡ s
    → is_canonical_suite_path s ≡ true
unfolding is_canonical_suite_path
is_canonical_lem s h e = rw (e, (bytes_eq_iff s s).1 refl) (ground (arith, bytes_eq_iff s []))

-- Whatever SuitePath finds is a canonical suite path, and it is a flat one just when the request
-- path has no "dists" segment.
pub suite_path-IsCanonical :
    (p : Bytes)
    → suite_path p ≢ []
    → (is_canonical_suite_path (suite_path p) ≡ true)
      × (is_flat_suite_path (suite_path p) ≡ not (has_dists_segment p))
unfolding is_flat_suite_path
suite_path-IsCanonical p h = (canonical, ground (arith, canonical, same (suite_path-Found p h)))
  where
    canonical : is_canonical_suite_path (suite_path p) ≡ true
    canonical =
        is_canonical_lem (suite_path p) h
          (suite_path_members p (codes "InRelease") h in_release-IsMember)

    same : Found p → has_dists_segment (suite_path p) ≡ has_dists_segment p
    same f =
        rw (f.is_suite, f.dists, any_dists-root (join slash f.dir))
          (ap any_dists (split-join slash f.dir f.free f.some_dir))
