-- ===== src/Freshness/Parse/Release/Sound.antt =====
-- The reader's state keeps its members good and distinct, line by line.
use apt_cacher_ultra.Base.{
  ℕ, ◌+◌, ◌≤◌, ◌≡◌, refl, ap, ◌∙◌, inl, inr, true, false, Option, none, some, List, [], ◌∷◌, ◌++◌,
  arith, length, length-append, All, All-append, Bytes, bytes_eq, Bool-cases, parse_int, ℤ, pos,
  negsuc,
}
use apt_cacher_ultra.Freshness.Parse.Checks.{
  PathError, ok, is_metadata_self_path, validate_member_path,
}
use apt_cacher_ultra.Freshness.Parse.Release.{
  ReleaseMember, max_release_members, Block, outside, sha256_block, sha512_block, HashEntry,
  valid_for, entry_member, with_path, with_size, entry_fields, Reader, lookup, see, set_hash,
  merge_at, merge, hash_of, is_outside,
}
use apt_cacher_ultra.Freshness.Parse.Release.Members.{
  IsGoodMember, has_path, IsDistinct, has_path-change_at, change_at-IsDistinct, length-change_at,
  change_at-All, change_at-last, has_path-append, append-IsDistinct, set_hash-SamePath,
  set_hash-IsGoodMember, new_member-IsGoodMember,
}

-- Every path that a member has stands in the index.
abbrev pub IsIndexed : Reader → Type 0
IsIndexed r = (p : Bytes) → lookup p r.at ≡ none → has_path p r.out ≡ false

abbrev pub HasMembers : Reader → Type 0
HasMembers r = All IsGoodMember r.out × IsDistinct r.out × IsIndexed r

abbrev pub IsSound : Reader → Type 0
IsSound r = HasMembers r × (length r.out ≤ r.parsed_rows) × (r.parsed_rows ≤ max_release_members)

grown-IsIndexed :
    (at : List (Bytes × ℕ)) (ms : List ReleaseMember) (p q : Bytes) (i : ℕ) (m : ReleaseMember)
    → m.path ≡ p
    → ((k : Bytes) → lookup k at ≡ none → has_path k ms ≡ false)
    → lookup q ((p, i) ∷ at) ≡ none
    → has_path q (ms ++ (m ∷ [])) ≡ false
unfolding lookup
grown-IsIndexed at ms p q i m e indexed h = elim (Bool-cases (bytes_eq p q)) [
  | inl s ↦ cc (rw s at h)
  | inr d ↦ has_path-append q ms m ∙ rw (e, d) (indexed q (rw d at h))
]

merge_at-HasMembers :
    (r : Reader) (b : Block) (p : Bytes) (e : HashEntry) (o : Option ℕ)
    → lookup p r.at ≡ o
    → is_outside b ≡ false
    → valid_for b e.hash ≡ true
    → validate_member_path p ≡ none
    → is_metadata_self_path p ≡ false
    → HasMembers r
    → HasMembers (merge_at r b p e o) × (length (merge_at r b p e o).out ≤ length r.out + 1)
unfolding merge_at
merge_at-HasMembers r b p e (some i) found o v k s (good, distinct, indexed) = (
  (
    change_at-All IsGoodMember i (set_hash b e) r.out (λ m. set_hash-IsGoodMember b e m v) good,
    change_at-IsDistinct i (set_hash b e) r.out (set_hash-SamePath b e) distinct,
    λ q h. has_path-change_at q i (set_hash b e) r.out (set_hash-SamePath b e) ∙ indexed q h,
  ),
  omega (arith, length-change_at i (set_hash b e) r.out),
)
merge_at-HasMembers r b p e none found o v k s (good, distinct, indexed) =
    let fresh : ReleaseMember = record { path = p; sha256 = []; sha512 = []; size = 0 } in
    let same = set_hash-SamePath b e fresh in
    rw (change_at-last (set_hash b e) r.out fresh) (
      (
        All-append IsGoodMember r.out (set_hash b e fresh ∷ []) good
            (new_member-IsGoodMember b e p o v k s, tt),
        append-IsDistinct r.out (set_hash b e fresh) (rw same (indexed p found)) distinct,
        λ q h. grown-IsIndexed r.at r.out p q (length r.out) (set_hash b e fresh) same indexed h,
      ),
      omega (arith, length-append r.out (set_hash b e fresh ∷ [])),
    )

-- Seeing an entry leaves the members and their index alone.
see-HasMembers :
    (r : Reader) (b : Block) (p : Bytes) (e : HashEntry) → HasMembers r → HasMembers (see r b p e)
unfolding see
see-HasMembers r sha256_block p e h = h
see-HasMembers r sha512_block p e h = h
see-HasMembers r outside p e h = h

see_same :
    (r : Reader) (b : Block) (p : Bytes) (e : HashEntry)
    → ((see r b p e).out ≡ r.out) × ((see r b p e).parsed_rows ≡ r.parsed_rows)
unfolding see
see_same r sha256_block p e = (refl, refl)
see_same r sha512_block p e = (refl, refl)
see_same r outside p e = (refl, refl)

merge_at_rows :
    (r : Reader) (b : Block) (p : Bytes) (e : HashEntry) (o : Option ℕ)
    → (merge_at r b p e o).parsed_rows ≡ r.parsed_rows
unfolding merge_at
merge_at_rows r b p e none = refl
merge_at_rows r b p e (some i) = refl

-- Before an entry is kept there is room for it.
abbrev pub HasRoom : Reader → Type 0
HasRoom r =
    HasMembers r × (length r.out + 1 ≤ r.parsed_rows) × (r.parsed_rows ≤ max_release_members)

pub merge-IsSound :
    (r : Reader) (b : Block) (p : Bytes) (e : HashEntry)
    → is_outside b ≡ false
    → valid_for b e.hash ≡ true
    → validate_member_path p ≡ none
    → is_metadata_self_path p ≡ false
    → HasRoom r
    → IsSound (merge r b p e)
unfolding merge
merge-IsSound r b p e o v k s (has, room, bound) =
    let r' = see r b p e in
    let (out_same, rows_same) = see_same r b p e in
    let (members, grown) =
      merge_at-HasMembers r' b p e (lookup p r'.at) refl o v k s (see-HasMembers r b p e has) in
    let rows = merge_at_rows r' b p e (lookup p r'.at) in
    (
      members,
      omega
          (arith, grown, rows, rows_same, room, ap (λ (x : List ReleaseMember). length x) out_same),
      omega (arith, rows, rows_same, bound),
    )

-- What a parsed entry is.
with_path_sound :
    (b : Block) (h : Bytes) (n : ℕ) (p : Bytes) (o : Option PathError) (m : ReleaseMember)
    → valid_for b h ≡ true
    → validate_member_path p ≡ o
    → with_path b h n p o ≡ ok m
    → (validate_member_path m.path ≡ none) × (valid_for b (hash_of b m) ≡ true)
unfolding with_path entry_member hash_of
with_path_sound b h n p (some x) m v k e = cc e
with_path_sound sha256_block h n p none m v k e = ground arith
with_path_sound sha512_block h n p none m v k e = ground arith
with_path_sound outside h n p none m v k e = ground arith

with_size_sound :
    (b : Block) (h : Bytes) (n : Option ℤ) (p : Bytes) (m : ReleaseMember)
    → valid_for b h ≡ true
    → with_size b h n p ≡ ok m
    → (validate_member_path m.path ≡ none) × (valid_for b (hash_of b m) ≡ true)
unfolding with_size
with_size_sound b h none p m v e = cc e
with_size_sound b h (some (negsuc n)) p m v e = cc e
with_size_sound b h (some (pos n)) p m v e =
    with_path_sound b h n p (validate_member_path p) m v refl e

pub entry_fields_sound :
    (b : Block) (fs : List Bytes) (m : ReleaseMember)
    → entry_fields b fs ≡ ok m
    → (validate_member_path m.path ≡ none) × (valid_for b (hash_of b m) ≡ true)
unfolding entry_fields
entry_fields_sound b [] m e = cc e
entry_fields_sound b (h ∷ []) m e = cc e
entry_fields_sound b (h ∷ n ∷ []) m e = cc e
entry_fields_sound b (h ∷ n ∷ p ∷ q ∷ fs) m e = cc e
entry_fields_sound b (h ∷ n ∷ p ∷ []) m e = elim (Bool-cases (valid_for b h)) [
  | inl v ↦ with_size_sound b h (parse_int n) p m v (rw v at e)
  | inr v ↦ cc (rw v at e)
]
