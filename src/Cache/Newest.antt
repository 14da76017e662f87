-- ===== src/Cache/Newest.antt =====
-- internal/cache/queries.go: keepNewestNVersionSet. A map used as a set is the list of its keys. The
-- order of the versions is an argument, so that the laws that the proofs use are an interface
-- (Versions), which Debversion's theorems fill (Debian).
pub mod Versions
pub mod Sorted
pub mod Cut
pub mod Loop
pub mod Debian
pub mod Classes
mod Tests
use apt_cacher_ultra.Base.{
  ℕ, zero, suc, ◌+◌, Bool, true, false, not, ◌||◌, Option, none, some, List, [], ◌∷◌, ltb, leb,
  ◌==◌, if◌then◌else◌, Bytes, bytes_eq, bytes_lt, ℤ, pos, negsuc, is_zero,
}
use apt_cacher_ultra.Debversion.{compare}

abbrev pub Cmp : Type 0
Cmp = Bytes → Bytes → ℤ

-- debversion.Compare. On versions with no NUL byte there is a result (Debversion/Compare).
unfoldable pub result_of : Option ℤ → ℤ
result_of none = pos 0
result_of (some z) = z

unfoldable pub version_cmp : Cmp
version_cmp a b = result_of (compare a b)

-- `n < 1` is clamped to the default of three.
unfoldable pub default_max_versions : ℕ
default_max_versions = 3

unfoldable pub clamp_versions : ℤ → ℕ
clamp_versions (pos zero) = default_max_versions
clamp_versions (pos (suc n)) = suc n
clamp_versions (negsuc n) = default_max_versions

unfoldable pub is_in : Bytes → List Bytes → Bool
is_in v [] = false
is_in v (x ∷ xs) = bytes_eq x v || is_in v xs

-- The first loop: every version once, in the order of the first ones.
unfoldable pub distinct : List Bytes → List Bytes → List Bytes
distinct seen [] = []
distinct seen (v ∷ vs) =
    let more = distinct seen vs in
    let fresh = distinct (v ∷ seen) vs in if is_in v seen then more else v ∷ fresh

abbrev pub is_positive : ℤ → Bool
is_positive (pos zero) = false
is_positive (pos (suc n)) = true
is_positive (negsuc n) = false

-- The function that sort.Slice is given.
unfoldable pub newer_first : Cmp → Bytes → Bytes → Bool
newer_first cmp a b = if not (is_zero (cmp a b)) then is_positive (cmp a b) else bytes_lt a b

-- sort.Slice: the versions differ pairwise, so there is one list in that order.
unfoldable pub insert_version : Cmp → Bytes → List Bytes → List Bytes
insert_version cmp v [] = v ∷ []
insert_version cmp v (x ∷ xs) =
    let rest = insert_version cmp v xs in if newer_first cmp v x then v ∷ x ∷ xs else x ∷ rest

unfoldable pub sort_versions : Cmp → List Bytes → List Bytes
sort_versions cmp [] = []
sort_versions cmp (v ∷ vs) = insert_version cmp v (sort_versions cmp vs)

-- `i > 0 && debversion.Compare(distinct[i-1], v) != 0`.
unfoldable pub crossed : Cmp → Option Bytes → Bytes → Bool
crossed cmp none v = false
crossed cmp (some p) v = not (is_zero (cmp p v))

-- The last loop, from a version on, behind `classes` crossings.
unfoldable pub keep_loop : Cmp → ℕ → ℕ → Option Bytes → List Bytes → List Bytes
keep_loop cmp n classes prev [] = []
keep_loop cmp n classes prev (v ∷ vs) =
    let classes' = if crossed cmp prev v then classes + 1 else classes in
    let rest = keep_loop cmp n classes' (some v) vs in if leb n classes' then [] else v ∷ rest

unfoldable pub keep_newest : Cmp → List Bytes → ℤ → List Bytes
keep_newest cmp versions n =
    keep_loop cmp (clamp_versions n) 0 none (sort_versions cmp (distinct [] versions))

unfoldable pub keep_newest_n_version_set : List Bytes → ℤ → List Bytes
keep_newest_n_version_set versions n = keep_newest version_cmp versions n
