-- ===== src/Freshness/Parse/Release/Whole.antt =====
-- From the first line to the result.
use apt_cacher_ultra.Base.{
  ℕ, ◌+◌, ◌≤◌, ◌≡◌, refl, ◌≢◌, inl, inr, true, false, ◌||◌, Option, none, some, List, [], ◌∷◌, ltb,
  leb, ◌==◌, arith, length, All, Bytes, codes, bytes_eq, Bool-cases, subst, drop_cr, raw_lines,
  trim_right, fields,
}
use apt_cacher_ultra.Freshness.Parse.Checks.{
  Result, ok, err, ok_inj, bind_ok, scan_buf_cap, is_metadata_self_path, validate_member_path,
}
use apt_cacher_ultra.Freshness.Parse.Release.{
  ReleaseMember, max_release_members, HashEntry, valid_for, parse_release_hash_line, Reader,
  new_reader, lookup, seen, same_entry, keep_new, hash_of, keep_entry, parsed_entry, is_outside,
  header, read_line, read_lines, finish, parse_release,
}
use apt_cacher_ultra.Freshness.Parse.Release.Members.{IsGoodMember, has_path, IsDistinct}
use apt_cacher_ultra.Freshness.Parse.Release.Sound.{
  IsSound, HasRoom, merge-IsSound, entry_fields_sound,
}

keep_new-IsSound :
    (n : ℕ) (r : Reader) (p : Bytes) (e : HashEntry) (o : Option HashEntry) (r' : Reader)
    → is_outside r.block ≡ false
    → valid_for r.block e.hash ≡ true
    → validate_member_path p ≡ none
    → is_metadata_self_path p ≡ false
    → HasRoom r
    → keep_new n r p e o ≡ ok r'
    → IsSound r'
unfolding keep_new
keep_new-IsSound n r p e none r' o v k s room eq =
    subst IsSound (ok_inj eq) (merge-IsSound r r.block p e o v k s room)
keep_new-IsSound n r p e (some d) r' o v k s room eq = elim (Bool-cases (same_entry d e)) [
  | inl t ↦ subst IsSound (ok_inj (rw t at eq)) (room.0, omega (arith, room.1), room.2)
  | inr t ↦ cc (rw t at eq)
]

keep_entry-IsSound :
    (n : ℕ) (r0 : Reader) (m : ReleaseMember) (r' : Reader)
    → is_outside r0.block ≡ false
    → (validate_member_path m.path ≡ none) × (valid_for r0.block (hash_of r0.block m) ≡ true)
    → IsSound r0
    → keep_entry n r0 m ≡ ok r'
    → IsSound r'
unfolding keep_entry
keep_entry-IsSound n r0 m r' o (k, v) (has, size, bound) eq =
    let r : Reader = record r0 { parsed_rows = r0.parsed_rows + 1 } in
    elim (Bool-cases (ltb max_release_members (r0.parsed_rows + 1))) [
      | inl t ↦ cc (rw t at eq)
      | inr t ↦
          let room : HasRoom r = (has, omega (arith, size), ground arith) in
          elim (Bool-cases (is_metadata_self_path m.path)) [
            | inl s ↦ subst IsSound (ok_inj (rw (t, s) at eq)) (has, omega (arith, room.1), room.2)
            | inr s ↦
                keep_new-IsSound n r m.path (record { hash = hash_of r.block m; size = m.size })
                  (lookup m.path (seen r r.block)) r' o v k s room (rw (t, s) at eq)
          ]
    ]

parsed_entry-IsSound :
    (n : ℕ) (r : Reader) (x : Result ReleaseMember) (r' : Reader)
    → is_outside r.block ≡ false
    → ((m : ReleaseMember)
        → x ≡ ok m
        → (validate_member_path m.path ≡ none) × (valid_for r.block (hash_of r.block m) ≡ true))
    → IsSound r
    → parsed_entry n r x ≡ ok r'
    → IsSound r'
unfolding parsed_entry
parsed_entry-IsSound n r (err e) r' o good s eq = cc eq
parsed_entry-IsSound n r (ok m) r' o good s eq = keep_entry-IsSound n r m r' o (good m refl) s eq

header-IsSound : (r : Reader) (label : Bytes) → IsSound r → IsSound (header r label)
unfolding header
header-IsSound r label s = elim (Bool-cases (bytes_eq label (codes "SHA256:"))) [
  | inl a ↦ rw a s
  | inr a ↦ elim (Bool-cases (bytes_eq label (codes "SHA512:"))) [
    | inl b ↦ rw (a, b) s
    | inr b ↦ rw (a, b) s
  ]
]

read_line-IsSound :
    (n : ℕ) (r : Reader) (line : Bytes) (r' : Reader)
    → IsSound r
    → read_line n r line ≡ ok r'
    → IsSound r'
unfolding read_line parse_release_hash_line
read_line-IsSound n r [] r' s eq = subst IsSound (ok_inj eq) s
read_line-IsSound n r (c ∷ line) r' s eq = elim (Bool-cases (c == b' ' || c == 9)) [
  | inr a ↦
      subst IsSound (ok_inj (rw a at eq))
        (header-IsSound r (trim_right (b' ' ∷ 9 ∷ []) (c ∷ line)) s)
  | inl a ↦ elim (Bool-cases (is_outside r.block)) [
    | inl b ↦ subst IsSound (ok_inj (rw (a, b) at eq)) s
    | inr b ↦
        parsed_entry-IsSound n r (parse_release_hash_line (c ∷ line) r.block) r' b
          (λ m. entry_fields_sound r.block (fields (c ∷ line)) m) s (rw (a, b) at eq)
  ]
]

read_lines-IsSound :
    (n : ℕ) (r : Reader) (ls : List Bytes) (r' : Reader)
    → IsSound r
    → read_lines n r ls ≡ ok r'
    → IsSound r'
unfolding read_lines
read_lines-IsSound n r [] r' s eq = subst IsSound (ok_inj eq) s
read_lines-IsSound n r (l ∷ ls) r' s eq = elim (Bool-cases (leb scan_buf_cap (length l))) [
  | inl t ↦ cc (rw t at eq)
  | inr t ↦
      let (r1, first, rest) =
        bind_ok (read_line n r (drop_cr l)) (λ x. read_lines (n + 1) x ls) (rw t at eq) in
      read_lines-IsSound (n + 1) r1 ls r' (read_line-IsSound n r (drop_cr l) r1 s first) rest
]

finish_some :
    (r : Reader) (ms : List ReleaseMember)
    → finish r ≡ ok ms
    → (r.out ≡ ms) × (ms ≢ []) × (r.saw_block ≡ true)
unfolding finish
finish_some r ms e = ground arith

-- ParseRelease returns at least one member and at most a million; no two have the same path; and each
-- has a valid path that does not name the Release file itself, at least one hash, and no malformed one.
pub parse_release_sound :
    (text : Bytes) (ms : List ReleaseMember)
    → parse_release text ≡ ok ms
    → All IsGoodMember ms × IsDistinct ms × (ms ≢ []) × (length ms ≤ max_release_members)
unfolding parse_release lookup has_path
parse_release_sound text ms e =
    let (r, read, done) = bind_ok (read_lines 1 new_reader (raw_lines text)) finish e in
    let (same, some_member, saw) = finish_some r ms done in
    let start : IsSound new_reader = ((tt, tt, λ p h. refl), omega arith, omega arith) in
    let (members, grown, bound) = read_lines-IsSound 1 new_reader (raw_lines text) r start read in
    (
      subst (All IsGoodMember) same members.0,
      subst IsDistinct same members.1,
      some_member,
      subst (λ (x : List ReleaseMember). length x ≤ max_release_members) same
          (omega (arith, grown, bound)),
    )
