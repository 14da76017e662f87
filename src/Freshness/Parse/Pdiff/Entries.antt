-- ===== src/Freshness/Parse/Pdiff/Entries.antt =====
-- What ParsePdiffIndex returns: patch names with no slash, and their hashes.
use apt_cacher_ultra.Base.{
  ℕ, zero, suc, ◌+◌, ◌^◌, ◌≤◌, ◌<◌, ◌≡◌, refl, inl, inr, Bool, true, false, not, ◌||◌, Option, none,
  some, List, [], ◌∷◌, leb, ◌==◌, if◌then◌else◌, arith, length, length-append, All, All-append,
  Bytes, Bool-cases, map, lower_byte, subst, parse_int, parse_int_bound, ℤ, pos, negsuc, drop_cr,
  raw_lines, index_byte, fields,
}
use apt_cacher_ultra.Freshness.Parse.Checks.{ok, ok_inj, bind_ok, scan_buf_cap, valid_hex_sha256}
use apt_cacher_ultra.Freshness.Parse.Pdiff.{
  PdiffPatchRef, max_pdiff_patch_entries, is_patch_name, patch_size, patch_fields,
  parse_pdiff_download_line, Patches, no_patches, keep_patch, read_field, at_patch_line,
  read_patch_line, read_patch_lines, parse_pdiff_index,
}

abbrev pub IsGoodPatch : PdiffPatchRef → Type 0
IsGoodPatch r =
    (is_patch_name r.filename ≡ true) × (valid_hex_sha256 r.sha256 ≡ true) × (r.size < 2 ^ 63)

abbrev IsSound : Patches → Type 0
IsSound p = All IsGoodPatch p.out × (length p.out ≤ max_pdiff_patch_entries)

-- What a line of the block gives, if anything.
abbrev IsEntry : Option PdiffPatchRef → Type 0
IsEntry o =
    (r : PdiffPatchRef) → o ≡ some r → (valid_hex_sha256 r.sha256 ≡ true) × (r.size < 2 ^ 63)

patch_size-IsEntry :
    (h n f : Bytes) → valid_hex_sha256 h ≡ true → IsEntry (patch_size h (parse_int n) f)
patch_size-IsEntry h n f v = go (parse_int n) refl
  where
    go : (o : Option ℤ) → parse_int n ≡ o → IsEntry (patch_size h o f)
    go none q = unfold patch_size in λ r e. cc e
    go (some (negsuc k)) q = unfold patch_size in λ r e. cc e
    go (some (pos k)) q = unfold patch_size in λ r e. ground (arith, parse_int_bound n k q)

patch_fields-IsEntry : (fs : List Bytes) → IsEntry (patch_fields fs)
unfolding patch_fields
patch_fields-IsEntry [] r e = cc e
patch_fields-IsEntry (h ∷ []) r e = cc e
patch_fields-IsEntry (h ∷ n ∷ []) r e = cc e
patch_fields-IsEntry (h ∷ n ∷ f ∷ g ∷ fs) r e = cc e
patch_fields-IsEntry (h ∷ n ∷ f ∷ []) r e =
    elim (Bool-cases (valid_hex_sha256 (map lower_byte h))) [
      | inl v ↦ patch_size-IsEntry (map lower_byte h) n f v r (rw v at e)
      | inr v ↦ cc (rw v at e)
    ]

keep_patch-IsSound :
    (p : Patches) (o : Option PdiffPatchRef) (p' : Patches)
    → IsEntry o
    → IsSound p
    → keep_patch p o ≡ ok p'
    → IsSound p'
unfolding keep_patch
keep_patch-IsSound p none p' good s e = subst IsSound (ok_inj e) s
keep_patch-IsSound p (some r) p' good s e = elim (Bool-cases (is_patch_name r.filename)) [
  | inr a ↦ subst IsSound (ok_inj (rw a at e)) s
  | inl a ↦ elim (Bool-cases (leb max_pdiff_patch_entries (length p.out))) [
    | inl b ↦ cc (rw (a, b) at e)
    | inr b ↦ subst IsSound (ok_inj (rw (a, b) at e)) (
      All-append IsGoodPatch p.out (r ∷ []) s.0 ((a, (good r refl).0, (good r refl).1), tt),
      ground (arith, length-append p.out (r ∷ [])),
    )
  ]
]

read_field-IsSound :
    (n : ℕ) (p : Patches) (line : Bytes) (o : Option ℕ) (p' : Patches)
    → IsSound p
    → at_patch_line n (read_field p line o) ≡ ok p'
    → IsSound p'
unfolding at_patch_line read_field
read_field-IsSound n p line none p' s e = cc e
read_field-IsSound n p line (some zero) p' s e = cc e
read_field-IsSound n p line (some (suc i)) p' s e = subst IsSound (ok_inj e) s

-- A line that starts with a blank, in the block or outside it.
keep_if :
    (within : Bool) (p : Patches) (o : Option PdiffPatchRef) (p' : Patches)
    → IsEntry o
    → IsSound p
    → (if not within then ok p else keep_patch p o) ≡ ok p'
    → IsSound p'
keep_if true p o p' good s e = keep_patch-IsSound p o p' good s e
keep_if false p o p' good s e = subst IsSound (ok_inj e) s

read_patch_line-IsSound :
    (n : ℕ) (p : Patches) (line : Bytes) (p' : Patches)
    → IsSound p
    → read_patch_line n p line ≡ ok p'
    → IsSound p'
unfolding read_patch_line parse_pdiff_download_line
read_patch_line-IsSound n p [] p' s e = subst IsSound (ok_inj e) s
read_patch_line-IsSound n p (c ∷ line) p' s e = elim (Bool-cases (c == b' ' || c == 9)) [
  | inr a ↦ read_field-IsSound n p (c ∷ line) (index_byte b':' (c ∷ line)) p' s (rw a at e)
  | inl a ↦
      keep_if p.in_download_block p (patch_fields (fields (c ∷ line))) p'
        (patch_fields-IsEntry (fields (c ∷ line))) s (rw a at e)
]

read_patch_lines-IsSound :
    (n : ℕ) (p : Patches) (ls : List Bytes) (p' : Patches)
    → IsSound p
    → read_patch_lines n p ls ≡ ok p'
    → IsSound p'
unfolding read_patch_lines
read_patch_lines-IsSound n p [] p' s e = subst IsSound (ok_inj e) s
read_patch_lines-IsSound n p (l ∷ ls) p' s e = elim (Bool-cases (leb scan_buf_cap (length l))) [
  | inl t ↦ cc (rw t at e)
  | inr t ↦
      let (p1, first, rest) =
        bind_ok (read_patch_line n p (drop_cr l)) (λ x. read_patch_lines (n + 1) x ls)
          (rw t at e) in
      read_patch_lines-IsSound (n + 1) p1 ls p' (read_patch_line-IsSound n p (drop_cr l) p1 s first)
        rest
]

-- Every entry that ParsePdiffIndex returns has a patch's name, a well-formed hash and a size that fits
-- an int64, and there are at most 1024 of them.
pub parse_pdiff_index_sound :
    (text : Bytes) (refs : List PdiffPatchRef)
    → parse_pdiff_index text ≡ ok refs
    → All IsGoodPatch refs × (length refs ≤ max_pdiff_patch_entries)
unfolding parse_pdiff_index
parse_pdiff_index_sound text refs e =
    let (p, read, done) =
      bind_ok (read_patch_lines 1 no_patches (raw_lines text)) (λ q. ok (q.out)) e in
    rw (← ok_inj done)
      (read_patch_lines-IsSound 1 no_patches (raw_lines text) p (tt, omega arith) read)
