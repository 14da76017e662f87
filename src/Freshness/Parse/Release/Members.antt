-- ===== src/Freshness/Parse/Release/Members.antt =====
-- What ParseRelease returns: members that are safe to use, each once, with the hashes they need.
use apt_cacher_ultra.Base.{
  ℕ, zero, suc, ◌≡◌, refl, ap, ◌∙◌, ◌≢◌, ◌⊎◌, inl, inr, Bool, true, false, ◌||◌, none, List, [],
  ◌∷◌, ◌++◌, arith, length, All, Bytes, bytes_eq, bytes_eq_iff,
}
use apt_cacher_ultra.Freshness.Parse.Checks.{
  valid_hex_sha256, valid_hex_sha512, is_metadata_self_path, validate_member_path,
}
use apt_cacher_ultra.Freshness.Parse.Release.{
  ReleaseMember, Block, outside, sha256_block, sha512_block, HashEntry, valid_for, change_at,
  set_hash, is_outside,
}

-- A hash that a consumer may read: it is not there, or well formed; and one of the two is there.
abbrev pub IsGoodMember : ReleaseMember → Type 0
IsGoodMember m =
    (validate_member_path m.path ≡ none)
    × (is_metadata_self_path m.path ≡ false)
    × ((m.sha256 ≡ []) ⊎ (valid_hex_sha256 m.sha256 ≡ true))
    × ((m.sha512 ≡ []) ⊎ (valid_hex_sha512 m.sha512 ≡ true))
    × ((m.sha256 ≢ []) ⊎ (m.sha512 ≢ []))

unfoldable pub has_path : Bytes → List ReleaseMember → Bool
has_path p [] = false
has_path p (m ∷ ms) = bytes_eq m.path p || has_path p ms

-- No two members have one path.
abbrev pub IsDistinct : List ReleaseMember → Type 0
IsDistinct [] = Unit {0}
IsDistinct (m ∷ ms) = (has_path m.path ms ≡ false) × IsDistinct ms

-- A change that leaves the path alone.
abbrev pub SamePath : (ReleaseMember → ReleaseMember) → Type 0
SamePath f = (m : ReleaseMember) → (f m).path ≡ m.path

pub has_path-change_at :
    (p : Bytes) (i : ℕ) (f : ReleaseMember → ReleaseMember) (ms : List ReleaseMember)
    → SamePath f
    → has_path p (change_at i f ms) ≡ has_path p ms
unfolding has_path change_at
has_path-change_at p i f [] s = refl
has_path-change_at p zero f (m ∷ ms) s = rw (s m) refl
has_path-change_at p (suc i) f (m ∷ ms) s = rw (has_path-change_at p i f ms s) refl

pub change_at-IsDistinct :
    (i : ℕ) (f : ReleaseMember → ReleaseMember) (ms : List ReleaseMember)
    → SamePath f
    → IsDistinct ms
    → IsDistinct (change_at i f ms)
unfolding change_at
change_at-IsDistinct i f [] s d = d
change_at-IsDistinct zero f (m ∷ ms) s d = (rw (s m) d.0, d.1)
change_at-IsDistinct (suc i) f (m ∷ ms) s d =
    (has_path-change_at m.path i f ms s ∙ d.0, change_at-IsDistinct i f ms s d.1)

pub length-change_at :
    (i : ℕ) (f : ReleaseMember → ReleaseMember) (ms : List ReleaseMember)
    → length (change_at i f ms) ≡ length ms
unfolding change_at
length-change_at i f [] = refl
length-change_at zero f (m ∷ ms) = refl
length-change_at (suc i) f (m ∷ ms) = ap suc (length-change_at i f ms)

pub change_at-All :
    (P : ReleaseMember → Type 0) (i : ℕ) (f : ReleaseMember → ReleaseMember)
    (ms : List ReleaseMember)
    → ((m : ReleaseMember) → P m → P (f m))
    → All P ms
    → All P (change_at i f ms)
unfolding change_at
change_at-All P i f [] k a = a
change_at-All P zero f (m ∷ ms) k a = (k m a.0, a.1)
change_at-All P (suc i) f (m ∷ ms) k a = (a.0, change_at-All P i f ms k a.1)

-- A change at the end of a list that has just grown.
pub change_at-last :
    (f : ReleaseMember → ReleaseMember) (ms : List ReleaseMember) (m : ReleaseMember)
    → change_at (length ms) f (ms ++ (m ∷ [])) ≡ ms ++ (f m ∷ [])
unfolding change_at
change_at-last f [] m = refl
change_at-last f (x ∷ ms) m = ap (◌∷◌ x) (change_at-last f ms m)

pub has_path-append :
    (p : Bytes) (ms : List ReleaseMember) (m : ReleaseMember)
    → has_path p (ms ++ (m ∷ [])) ≡ (bytes_eq m.path p || has_path p ms)
unfolding has_path
has_path-append p [] m = refl
has_path-append p (x ∷ ms) m = ground (arith, has_path-append p ms m)

pub append-IsDistinct :
    (ms : List ReleaseMember) (m : ReleaseMember)
    → has_path m.path ms ≡ false
    → IsDistinct ms
    → IsDistinct (ms ++ (m ∷ []))
unfolding has_path
append-IsDistinct [] m h d = (refl, tt)
append-IsDistinct (x ∷ ms) m h d = (
  ground
      (arith, has_path-append x.path ms m, bytes_eq_iff x.path m.path, bytes_eq_iff m.path x.path),
  append-IsDistinct ms m (ground arith) d.1,
)

valid_hex-ne-nil : (h : Bytes) → valid_hex_sha256 h ≡ true → h ≢ []
unfolding valid_hex_sha256
valid_hex-ne-nil h v e = cc (rw e at v)

valid_hex512-ne-nil : (h : Bytes) → valid_hex_sha512 h ≡ true → h ≢ []
unfolding valid_hex_sha512
valid_hex512-ne-nil h v e = cc (rw e at v)

pub set_hash-SamePath : (b : Block) (e : HashEntry) → SamePath (set_hash b e)
unfolding set_hash
set_hash-SamePath sha256_block e m = refl
set_hash-SamePath sha512_block e m = refl
set_hash-SamePath outside e m = refl

pub set_hash-IsGoodMember :
    (b : Block) (e : HashEntry) (m : ReleaseMember)
    → valid_for b e.hash ≡ true
    → IsGoodMember m
    → IsGoodMember (set_hash b e m)
unfolding set_hash valid_for
set_hash-IsGoodMember sha256_block e m v (p, s, x, y, z) =
    (p, s, inr v, y, inl (valid_hex-ne-nil e.hash v))
set_hash-IsGoodMember sha512_block e m v (p, s, x, y, z) =
    (p, s, x, inr v, inr (valid_hex512-ne-nil e.hash v))
set_hash-IsGoodMember outside e m v g = g

-- A new member has the one hash.
pub new_member-IsGoodMember :
    (b : Block) (e : HashEntry) (p : Bytes)
    → is_outside b ≡ false
    → valid_for b e.hash ≡ true
    → validate_member_path p ≡ none
    → is_metadata_self_path p ≡ false
    → IsGoodMember (set_hash b e (record { path = p; sha256 = []; sha512 = []; size = 0 }))
unfolding set_hash valid_for is_outside
new_member-IsGoodMember sha256_block e p o v k s =
    (k, s, inr v, inl refl, inl (valid_hex-ne-nil e.hash v))
new_member-IsGoodMember sha512_block e p o v k s =
    (k, s, inl refl, inr v, inr (valid_hex512-ne-nil e.hash v))
new_member-IsGoodMember outside e p o v k s = cc o
