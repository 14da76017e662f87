-- ===== src/Aptpath/Directory.antt =====
-- The two grammars of SuitePath over the segments of a path: what they find is a directory that
-- splits the path.
use apt_cacher_ultra.Base.{
  ℕ, zero, suc, ◌+◌, ◌-◌, ◌<◌, ◌≡◌, refl, sym, ap, ◌∙◌, ◌≢◌, ◌⊎◌, inl, inr, true, false, ◌||◌, some,
  List, [], ◌∷◌, ◌++◌, ◌==◌, ==_iff, leb, if◌then◌else◌, arith, length, take, drop, get_or, All,
  Bytes, codes, bytes_eq, bytes_eq_iff, has_prefix, split, join, Free, split-Free, split-ne-nil,
  join-split, split-join, join-append, take-append-drop, length-take, length-drop, get_or-take,
  Bool-cases, Option-cases, append-nil,
}
use apt_cacher_ultra.Aptpath.Suite.{
  slash, clean_bytes, any_dists, has_dists_segment, any_bad, last_dists, dists_suite_path,
  flat_member_segments, flat_directory, flat_suite_path, suite_path,
}

-- The two grammars, over the segments.
abbrev pub suite_of : List Bytes → Bytes
suite_of segs = if any_dists segs then dists_suite_path segs else flat_suite_path segs

abbrev pub path_of : List Bytes → Bytes
path_of segs = slash ∷ join slash segs

pub any_dists-root : (r : Bytes) → has_dists_segment (slash ∷ r) ≡ any_dists (split slash r)
unfolding has_dists_segment split any_dists bytes_eq
any_dists-root r = refl

-- SuitePath at a path that is given by its segments.
pub suite_path-path_of :
    (segs : List Bytes)
    → All (Free slash) segs
    → segs ≢ []
    → suite_path (path_of segs) ≡ (if clean_bytes (path_of segs) then suite_of segs else [])
unfolding suite_path has_prefix
suite_path-path_of segs f h = elim (Bool-cases (clean_bytes (path_of segs))) [
  | inl c ↦ rw (c, any_dists-root (join slash segs), split-join slash segs f h) refl
  | inr c ↦ rw c refl
]

-- A path that SuitePath does not refuse at once is given by its segments.
pub record Segments (p : Bytes) : Type 0 where
  pub segs : List Bytes
  pub is_path : p ≡ path_of segs
  pub free : All (Free slash) segs
  pub some_segs : segs ≢ []

pub rooted : (p : Bytes) → suite_path p ≢ [] → Segments p
unfolding suite_path has_prefix
rooted [] h = absurd (h refl)
rooted (c ∷ r) h = record {
  segs = split slash r;
  is_path = root_eq;
  free = split-Free slash r;
  some_segs = split-ne-nil slash r;
}
  where
    root_eq : c ∷ r ≡ path_of (split slash r)
    root_eq = elim (Bool-cases (c == slash)) [
      | inl e ↦ rw (join-split slash r) (ap (λ x. x ∷ r) ((==_iff c slash).0 e))
      | inr e ↦ absurd (h (rw e refl))
    ]

-- The directory of a dists suite ends in "dists" and a codename.
abbrev pub DistsDir : List Bytes → Type 0
DistsDir dir =
    (i : ℕ) × (length dir ≡ i + 2) × (get_or dir i [] ≡ codes "dists") × (any_bad dir ≡ false)

-- The directory of a flat suite has no "dists", and passes the grammar.
abbrev pub FlatDir : List Bytes → Type 0
FlatDir dir = (any_dists dir ≡ false) × (flat_directory dir ≡ path_of dir)

-- A suite: the path before a member of one segment or more.
pub record Suite (segs : List Bytes) : Type 0 where
  pub dir : List Bytes
  pub member : List Bytes
  pub splits : segs ≡ dir ++ member
  pub some_dir : dir ≢ []
  pub some_member : member ≢ []
  pub suite : suite_of segs ≡ path_of dir
  pub same : any_dists segs ≡ any_dists dir
  pub kind : DistsDir dir ⊎ FlatDir dir

last_dists-some :
    (n i : ℕ) (segs : List Bytes)
    → last_dists n segs ≡ some i
    → (i < n) × (get_or segs i [] ≡ codes "dists")
unfolding last_dists
last_dists-some zero i segs e = cc
last_dists-some (suc n) i segs e = elim (Bool-cases (bytes_eq (get_or segs n []) (codes "dists"))) [
  | inl h ↦
      let at_n : n ≡ i = ground (arith, rw h at e) in
      (omega arith, rw (← at_n) ((bytes_eq_iff (get_or segs n []) (codes "dists")).0 h))
  | inr h ↦ let (l, g) = last_dists-some n i segs (rw h at e) in (omega arith, g)
]

any_bad-left : (xs ys : List Bytes) → any_bad (xs ++ ys) ≡ false → any_bad xs ≡ false
unfolding any_bad
any_bad-left [] ys h = refl
any_bad-left (x ∷ xs) ys h = ground (arith, any_bad-left xs ys)

any_dists-left : (xs ys : List Bytes) → any_dists (xs ++ ys) ≡ false → any_dists xs ≡ false
unfolding any_dists
any_dists-left [] ys h = refl
any_dists-left (x ∷ xs) ys h = ground (arith, any_dists-left xs ys)

pub any_dists-at : (i : ℕ) (ss : List Bytes) → get_or ss i [] ≡ codes "dists" → any_dists ss ≡ true
unfolding any_dists bytes_eq
any_dists-at i [] e = cc
any_dists-at zero (s ∷ ss) e = rw e refl
any_dists-at (suc i) (s ∷ ss) e = ground (arith, any_dists-at i ss e)

pub dists-Suite : (segs : List Bytes) → any_dists segs ≡ true → suite_of segs ≢ [] → Suite segs
unfolding dists_suite_path
dists-Suite segs d h = elim (Bool-cases (any_bad segs)) [
  | inl b ↦ absurd (h (rw (d, b) refl))
  | inr b ↦ elim (Option-cases (last_dists (length segs - 2) segs)) [
    | inl e ↦ absurd (h (rw (d, b, e, dists_suite_path) refl))
    | inr (i, e) ↦
        let (l, g) = last_dists-some (length segs - 2) i segs e in
        let parts = take-append-drop (i + 2) segs in
        let size = length-take (i + 2) segs (omega arith) in
        record {
          dir = take (i + 2) segs;
          member = drop (i + 2) segs;
          splits = sym parts;
          some_dir = λ z. absurd (omega (arith, ap length z, size));
          some_member = λ z. absurd (omega (arith, ap length z, length-drop (i + 2) segs));
          suite = rw (d, b, e, dists_suite_path) refl;
          same =
              d
              ∙ sym (
                  any_dists-at i (take (i + 2) segs)
                    (get_or-take (i + 2) i segs [] (omega arith) ∙ g));
          kind = inl (
            i,
            size,
            get_or-take (i + 2) i segs [] (omega arith) ∙ g,
            any_bad-left (take (i + 2) segs) (drop (i + 2) segs) (rw parts b),
          );
        }
  ]
]

-- A list is its front and its last element.
front-last :
    (ss : List Bytes)
    → 0 < length ss
    → ss ≡ take (length ss - 1) ss ++ (get_or ss (length ss - 1) [] ∷ [])
front-last [] h = absurd (omega arith)
front-last (s ∷ []) h = refl
front-last (s ∷ t ∷ ss) h =
    let here : suc (suc (length ss)) - 1 ≡ suc (length ss) = omega arith in
    let below : suc (length ss) - 1 ≡ length ss = omega arith in
    rw here (ap (◌∷◌ s) (rw below at (front-last (t ∷ ss) (omega arith))))

twin-join :
    (dir : List Bytes)
    → 0 < length dir
    → get_or dir (length dir - 1) [] ≡ codes "."
    → take (length dir - 1) dir ≢ []
    → join slash dir ≡ join slash (take (length dir - 1) dir) ++ codes "/."
unfolding join
twin-join dir l e h =
    ap (join slash) (front-last dir l)
    ∙ rw e (join-append slash (take (length dir - 1) dir) (codes "." ∷ []) h (λ z. cc z))

flat_directory-path_of :
    (dir : List Bytes) → 0 < length dir → flat_directory dir ≢ [] → flat_directory dir ≡ path_of dir
unfolding flat_directory
flat_directory-path_of dir l h =
    elim (Bool-cases (bytes_eq (get_or dir (length dir - 1) []) (codes "."))) [
      | inl e ↦ elim (Bool-cases (length (take (length dir - 1) dir) == 0)) [
        | inl z ↦ absurd (h (rw (e, z) refl))
        | inr z ↦ elim (Bool-cases (any_bad (take (length dir - 1) dir))) [
          | inl b ↦ absurd (h (rw (e, z, b) refl))
          | inr b ↦
              rw (e, z, b)
                (ap (◌∷◌ slash) (
                  sym (
                    twin-join dir l
                      ((bytes_eq_iff (get_or dir (length dir - 1) []) (codes ".")).0 e)
                      (λ n. absurd (ground (arith, ap length n))))))
        ]
      ]
      | inr e ↦ elim (Bool-cases (any_bad dir)) [
        | inl b ↦ absurd (h (rw (e, b) (ground arith)))
        | inr b ↦ rw (e, b) (ground (arith, append-nil (join slash dir)))
      ]
    ]

pub flat-Suite : (segs : List Bytes) → any_dists segs ≡ false → suite_of segs ≢ [] → Suite segs
unfolding flat_suite_path
flat-Suite segs d h =
    elim (Bool-cases
      (flat_member_segments segs == 0 || leb (length segs) (flat_member_segments segs))) [
        | inl e ↦ absurd (h (rw (d, e) refl))
        | inr e ↦
            let k = length segs - flat_member_segments segs in
            let parts = take-append-drop k segs in
            let some_left : 0 < k = ground arith in
            let some_gone : k < length segs = ground arith in
            let size = length-take k segs (omega arith) in
            let found : suite_of segs ≡ flat_directory (take k segs) = rw (d, e) refl in
            let whole = flat_directory-path_of (take k segs) (omega arith) (λ z. h (found ∙ z)) in
            record {
              dir = take k segs;
              member = drop k segs;
              splits = sym parts;
              some_dir = λ z. absurd (omega (arith, ap length z, size));
              some_member = λ z. absurd (omega (arith, ap length z, length-drop k segs));
              suite = found ∙ whole;
              same = d ∙ sym (any_dists-left (take k segs) (drop k segs) (rw parts d));
              kind = inr (any_dists-left (take k segs) (drop k segs) (rw parts d), whole);
            }
      ]
