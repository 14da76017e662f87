-- ===== src/Freshness/Parse/Release/Malformed.antt =====
-- A malformed line anywhere makes ParseRelease fail.
use apt_cacher_ultra.Base.{
  ℕ, ◌+◌, ◌≡◌, ◌⊎◌, refl, sym, ◌∙◌, inl, inr, Bool, true, false, not, ◌&&◌, ◌||◌, Option, none,
  some, List, [], ◌∷◌, ◌++◌, ltb, leb, ◌==◌, arith, length, Bytes, bytes_eq, codes, Bool-cases,
  Option-cases, drop_cr, raw_lines, fields, trim_right, parse_int, ℤ, pos, negsuc, if◌then◌else◌,
  subst,
}
use apt_cacher_ultra.Freshness.Parse.Checks.{
  PathError, ParseError, in_line, too_many, field_count, bad_hash, bad_size, negative_size,
  bad_path, line_too_long, Result, ok, err, ◌>>=◌, scan_buf_cap, validate_member_path,
  is_metadata_self_path,
}
use apt_cacher_ultra.Freshness.Parse.Release.{
  Block, outside, sha256_block, sha512_block, HashEntry, ReleaseMember, valid_for, with_path,
  with_size, entry_fields, parse_release_hash_line, Reader, new_reader, lookup, seen, see, merge_at,
  merge, same_entry, keep_new, hash_of, keep_entry, parsed_entry, is_outside, header, read_line,
  read_lines, parse_release, max_release_members,
}

-- The block that a header opens.
unfoldable pub block_named : Bytes → Block
block_named label =
    if bytes_eq label (codes "SHA256:")
    then sha256_block
    else if bytes_eq label (codes "SHA512:")
    then sha512_block
    else outside

-- The block that a line leaves open: an empty line closes it, one that starts with a blank leaves it,
-- and any other opens the block that it names, if any.
unfoldable pub block_after : Block → Bytes → Block
block_after b [] = outside
block_after b (c ∷ line) =
    if c == b' ' || c == 9 then b else block_named (trim_right (b' ' ∷ 9 ∷ []) (c ∷ line))

-- The block that the last of these lines leaves open.
unfoldable pub block_behind : Block → List Bytes → Block
block_behind b [] = b
block_behind b (l ∷ ls) = block_behind (block_after b (drop_cr l)) ls

unfoldable pub is_size : Option ℤ → Bool
is_size none = false
is_size (some (pos n)) = true
is_size (some (negsuc n)) = false

unfoldable pub is_good_path : Option PathError → Bool
is_good_path none = true
is_good_path (some e) = false

-- Three fields: a hash of the block's length in hex, a size, and a path that may be fetched.
unfoldable pub are_entry_fields : Block → List Bytes → Bool
are_entry_fields b [] = false
are_entry_fields b (h ∷ []) = false
are_entry_fields b (h ∷ n ∷ []) = false
are_entry_fields b (h ∷ n ∷ p ∷ []) =
    valid_for b h && (is_size (parse_int n) && is_good_path (validate_member_path p))
are_entry_fields b (h ∷ n ∷ p ∷ q ∷ fs) = false

-- A line that a block's reader cannot take: too long for the scanner, or no entry where one is due.
unfoldable pub is_malformed : Block → Bytes → Bool
is_malformed b [] = false
is_malformed b (c ∷ line) =
    (c == b' ' || c == 9) && (not (is_outside b) && not (are_entry_fields b (fields (c ∷ line))))

abbrev pub Fails {ℓ} : {A : Type ℓ} → Result A → Type ℓ
Fails {A = A} x = (e : ParseError) × (x ≡ err e)

merge_at-block :
    (r : Reader) (b : Block) (p : Bytes) (e : HashEntry) (o : Option ℕ)
    → (merge_at r b p e o).block ≡ r.block
unfolding merge_at
merge_at-block r b p e none = refl
merge_at-block r b p e (some i) = refl

see-block : (r : Reader) (b : Block) (p : Bytes) (e : HashEntry) → (see r b p e).block ≡ r.block
unfolding see
see-block r sha512_block p e = refl
see-block r sha256_block p e = refl
see-block r outside p e = refl

-- What is said of the reader behind a line, if there is one.
unfoldable Leaves : Block → Result Reader → Type 0
Leaves b (ok r) = r.block ≡ b
Leaves b (err e) = Unit

keep_new-Leaves :
    (n : ℕ) (r : Reader) (p : Bytes) (e : HashEntry) (o : Option HashEntry)
    → Leaves r.block (keep_new n r p e o)
unfolding keep_new merge Leaves
keep_new-Leaves n r p e none =
    merge_at-block (see r r.block p e) r.block p e (lookup p (see r r.block p e).at)
    ∙ see-block r r.block p e
keep_new-Leaves n r p e (some d) = elim (Bool-cases (same_entry d e)) [
  | inl a ↦ rw a refl
  | inr a ↦ rw a tt
]

if-Leaves :
    (b : Block) (t : Bool) (x y : Result Reader)
    → Leaves b x
    → Leaves b y
    → Leaves b (if t then x else y)
if-Leaves b true x y p q = p
if-Leaves b false x y p q = q

parsed_entry-Leaves :
    (n : ℕ) (r : Reader) (x : Result ReleaseMember) → Leaves r.block (parsed_entry n r x)
unfolding parsed_entry keep_entry Leaves
parsed_entry-Leaves n r (err e) = tt
parsed_entry-Leaves n r (ok m) =
    let r' = record r { parsed_rows = r.parsed_rows + 1 } in
    let known =
      keep_new n r' m.path (record { hash = hash_of r'.block m; size = m.size })
        (lookup m.path (seen r' r'.block)) in
    if-Leaves r.block (ltb max_release_members r'.parsed_rows) (err too_many)
      (if is_metadata_self_path m.path then ok r' else known) tt
      (if-Leaves r.block (is_metadata_self_path m.path) (ok r') known refl (
        keep_new-Leaves n r' m.path (record { hash = hash_of r'.block m; size = m.size })
          (lookup m.path (seen r' r'.block))))

header-block : (r : Reader) (label : Bytes) → (header r label).block ≡ block_named label
unfolding header block_named
header-block r label = elim (Bool-cases (bytes_eq label (codes "SHA256:"))) [
  | inl a ↦ rw a refl
  | inr a ↦ elim (Bool-cases (bytes_eq label (codes "SHA512:"))) [
    | inl b ↦ rw (a, b) refl
    | inr b ↦ rw (a, b) refl
  ]
]

read_line-Leaves :
    (n : ℕ) (r : Reader) (line : Bytes) → Leaves (block_after r.block line) (read_line n r line)
unfolding read_line block_after Leaves
read_line-Leaves n r [] = refl
read_line-Leaves n r (c ∷ line) = elim (Bool-cases (c == b' ' || c == 9)) [
  | inl a ↦ rw a (
      if-Leaves r.block (is_outside r.block) (ok r)
        (parsed_entry n r (parse_release_hash_line (c ∷ line) r.block)) refl
        (parsed_entry-Leaves n r (parse_release_hash_line (c ∷ line) r.block)))
  | inr a ↦ rw a (header-block r (trim_right (b' ' ∷ 9 ∷ []) (c ∷ line)))
]

with_size-Fails :
    (b : Block) (h p : Bytes) (o : Option ℤ)
    → (is_size o && is_good_path (validate_member_path p)) ≡ false
    → Fails (with_size b h o p)
unfolding with_size with_path is_size is_good_path
with_size-Fails b h p none e = (bad_size, refl)
with_size-Fails b h p (some (negsuc n)) e = (negative_size, refl)
with_size-Fails b h p (some (pos n)) e = elim (Option-cases (validate_member_path p)) [
  | inl a ↦ cc (rw a at e)
  | inr (f, a) ↦ (bad_path f, rw a refl)
]

-- Where an entry is due, fields that are not one fail.
entry_fields-Fails :
    (b : Block) (fs : List Bytes) → are_entry_fields b fs ≡ false → Fails (entry_fields b fs)
unfolding entry_fields are_entry_fields
entry_fields-Fails b [] e = (field_count, refl)
entry_fields-Fails b (h ∷ []) e = (field_count, refl)
entry_fields-Fails b (h ∷ n ∷ []) e = (field_count, refl)
entry_fields-Fails b (h ∷ n ∷ p ∷ q ∷ fs) e = (field_count, refl)
entry_fields-Fails b (h ∷ n ∷ p ∷ []) e = elim (Bool-cases (valid_for b h)) [
  | inl a ↦ rw a (with_size-Fails b h p (parse_int n) (rw a at e))
  | inr a ↦ (bad_hash, rw a refl)
]

parsed_entry-Fails :
    (n : ℕ) (r : Reader) (x : Result ReleaseMember) → Fails x → Fails (parsed_entry n r x)
unfolding parsed_entry
parsed_entry-Fails n r (ok m) (e, f) = cc f
parsed_entry-Fails n r (err f) w = (in_line n f, refl)

read_line-Fails :
    (n : ℕ) (r : Reader) (line : Bytes)
    → is_malformed r.block line ≡ true
    → Fails (read_line n r line)
unfolding read_line is_malformed parse_release_hash_line
read_line-Fails n r [] e = cc e
read_line-Fails n r (c ∷ line) e =
    let blank : (c == b' ' || c == 9) ≡ true = ground (arith, e) in
    let inside : is_outside r.block ≡ false = ground (arith, e) in
    let bad : are_entry_fields r.block (fields (c ∷ line)) ≡ false = ground (arith, e) in
    rw (blank, inside)
      (parsed_entry-Fails n r (entry_fields r.block (fields (c ∷ line)))
        (entry_fields-Fails r.block (fields (c ∷ line)) bad))

-- A failure stays one, and so does one of what follows a line that is read.
bind-Fails {ℓ} :
    {A : Type ℓ} (x : Result Reader) (f : Reader → Result A)
    → ((r : Reader) → x ≡ ok r → Fails (f r))
    → Fails (x >>= f)
bind-Fails (ok r) f w = w r refl
bind-Fails (err e) f w = (e, refl)

read_lines-Fails :
    (n : ℕ) (r : Reader) (before after : List Bytes) (l : Bytes)
    → (leb scan_buf_cap (length l) ≡ true)
      ⊎ (is_malformed (block_behind r.block before) (drop_cr l) ≡ true)
    → Fails (read_lines n r (before ++ (l ∷ after)))
unfolding read_lines block_behind
read_lines-Fails n r [] after l bad = elim (Bool-cases (leb scan_buf_cap (length l))) [
  | inl a ↦ (line_too_long, rw a refl)
  | inr a ↦ elim bad [
    | inl long ↦ cc (a, long)
    | inr w ↦ rw a (
        bind-Fails (read_line n r (drop_cr l)) (λ r'. read_lines (n + 1) r' after)
          (λ r' e. let (f, g) = read_line-Fails n r (drop_cr l) w in cc (e, g)))
  ]
]
read_lines-Fails n r (x ∷ before) after l bad = elim (Bool-cases (leb scan_buf_cap (length x))) [
  | inl a ↦ (line_too_long, rw a refl)
  | inr a ↦ rw a (
      bind-Fails (read_line n r (drop_cr x)) (λ r'. read_lines (n + 1) r' (before ++ (l ∷ after)))
        (λ r' e.
          let left : r'.block ≡ block_after r.block (drop_cr x) =
            unfold Leaves in
            subst (Leaves (block_after r.block (drop_cr x))) e (read_line-Leaves n r (drop_cr x)) in
          read_lines-Fails (n + 1) r' before after l (
            subst
              (λ b.
                (leb scan_buf_cap (length l) ≡ true)
                ⊎ (is_malformed (block_behind b before) (drop_cr l) ≡ true))
              (sym left) bad)))
]

-- ParseRelease accepts no text with a malformed line, wherever that is and whatever else the text has:
-- a line as long as the scanner's limit, or one that starts with a blank in an open SHA256 or SHA512
-- block and is not a hash of the block's length in hex, a size and a path that the check takes.
pub parse_release_malformed :
    (text : Bytes) (before after : List Bytes) (l : Bytes)
    → raw_lines text ≡ before ++ (l ∷ after)
    → (leb scan_buf_cap (length l) ≡ true)
      ⊎ (is_malformed (block_behind outside before) (drop_cr l) ≡ true)
    → (e : ParseError) × (parse_release text ≡ err e)
unfolding parse_release
parse_release_malformed text before after l lines bad =
    let (e, f) = read_lines-Fails 1 new_reader before after l bad in (e, rw (lines, f) refl)
