-- ===== src/Freshness/Parse/Inside.antt =====
-- What the checks of paths are for: a checked name, walked from a directory, stays below it.
mod Tests
use apt_cacher_ultra.Base.{
  ℕ, zero, suc, ◌+◌, ◌≤◌, ◌<◌, ◌≡◌, refl, ◌∙◌, ap, ◌≢◌, inl, inr, ◌⊎◌, Bool, true, false, not, ◌&&◌,
  ◌||◌, Option, none, some, List, [], ◌∷◌, ltb, ◌==◌, if◌then◌else◌, arith, length, all, Bytes,
  codes, bytes_eq, bytes_eq_iff, contains_byte, has_prefix, split, Bool-cases,
}
use apt_cacher_ultra.Freshness.Parse.Checks.{
  PathError, check_segments, validate_member_path, filename_segments, validate_filename,
  max_filename_bytes, is_control,
}

-- A walk over the segments of a path from a directory at a depth below the root, as a file system
-- makes it: "" and "." stay, ".." goes up and fails at the root, a name goes down.
unfoldable pub walk : ℕ → List Bytes → Option ℕ
walk d [] = some d
walk d (s ∷ ss) =
    let here = walk d ss in
    let down = walk (suc d) ss in
    let up : Option ℕ = elim d [ zero ↦ none | suc e ↦ walk e ss ] in
    if bytes_eq s [] || bytes_eq s (codes ".")
    then here
    else if bytes_eq s (codes "..")
    then up
    else down

filename_segments-walk :
    (named : Bool) (d : ℕ) (ss : List Bytes)
    → filename_segments named ss ≡ none
    → (n : ℕ) × (walk d ss ≡ some n) × (d + (if named then 0 else 1) ≤ n)
unfolding filename_segments walk
filename_segments-walk true d [] e = (d, refl, omega arith)
filename_segments-walk false d [] e = cc e
filename_segments-walk named d (s ∷ ss) e = elim (Bool-cases (bytes_eq s [])) [
  | inl a ↦ cc (rw a at e)
  | inr a ↦ elim (Bool-cases (bytes_eq s (codes ".."))) [
    | inl b ↦ cc (rw (a, b) at e)
    | inr b ↦ elim (Bool-cases (bytes_eq s (codes "."))) [
      | inl c ↦
          let (n, w, l) = filename_segments-walk named d ss (rw (a, b, c) at e) in
          (n, rw (a, b, c) w, l)
      | inr c ↦
          let (n, w, l) = filename_segments-walk true (suc d) ss (rw (a, b, c) at e) in
          (n, rw (a, b, c) w, deeper named d n l)
    ]
  ]
]
  where
    deeper : (k : Bool) (a n : ℕ) → suc a + 0 ≤ n → a + (if k then 0 else 1) ≤ n
    deeper true a n l = omega arith
    deeper false a n l = omega arith

filename_parts :
    (f : Bytes) → validate_filename f ≡ none → filename_segments false (split b'/' f) ≡ none
unfolding validate_filename
filename_parts f e = ground arith

-- A Filename that the check takes never leaves the directory that it is walked from, at whatever depth
-- that is, and ends strictly below it.
pub validate_filename_inside :
    (f : Bytes) (d : ℕ)
    → validate_filename f ≡ none
    → (n : ℕ) × (walk d (split b'/' f) ≡ some n) × (d < n)
validate_filename_inside f d e =
    let (n, w, l) = filename_segments-walk false d (split b'/' f) (filename_parts f e) in
    (n, w, omega (arith, l))

check_segments-walk :
    (d : ℕ) (ss : List Bytes) → check_segments ss ≡ none → walk d ss ≡ some (d + length ss)
unfolding check_segments walk
check_segments-walk d [] e = ap some (omega arith)
check_segments-walk d (s ∷ ss) e = elim (Bool-cases (bytes_eq s (codes ".."))) [
  | inl a ↦ cc (rw a at e)
  | inr a ↦ elim (Bool-cases (bytes_eq s (codes "."))) [
    | inl b ↦ cc (rw (a, b) at e)
    | inr b ↦ elim (Bool-cases (bytes_eq s [])) [
      | inl c ↦ cc (rw (a, b, c) at e)
      | inr c ↦
          rw (a, b, c) (check_segments-walk (suc d) ss (rw (a, b, c) at e) ∙ ap some (omega arith))
    ]
  ]
]

member_path_parts :
    (p : Bytes) → validate_member_path p ≡ none → check_segments (split b'/' p) ≡ none
unfolding validate_member_path
member_path_parts p e = ground arith

-- A member's path that the check takes goes down one directory for each of its segments.
pub validate_member_path_inside :
    (p : Bytes) (d : ℕ)
    → validate_member_path p ≡ none
    → walk d (split b'/' p) ≡ some (d + length (split b'/' p))
validate_member_path_inside p d e = check_segments-walk d (split b'/' p) (member_path_parts p e)
