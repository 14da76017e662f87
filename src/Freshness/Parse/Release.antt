-- ===== src/Freshness/Parse/Release.antt =====
-- internal/freshness/release_parse.go: ParseRelease.
pub mod Members
pub mod Sound
pub mod Whole
pub mod Malformed
mod Tests
use apt_cacher_ultra.Base.{
  ℕ, zero, suc, ◌+◌, Bool, true, false, not, ◌&&◌, ◌||◌, Option, none, some, List, [], ◌∷◌, ◌++◌,
  ltb, leb, ◌==◌, if◌then◌else◌, length, Bytes, codes, bytes_eq, trim_right, trim_space, equal_fold,
  index_byte, take, drop, fields, raw_lines, drop_cr, parse_int, ℤ, pos, negsuc,
}
use apt_cacher_ultra.Freshness.Parse.Checks.{
  PathError, ParseError, field_count, bad_hash, bad_size, negative_size, declared_twice, bad_path,
  too_many, line_too_long, no_block, empty_blocks, in_line, Result, ok, err, ◌>>=◌, scan_buf_cap,
  valid_hex_sha256, valid_hex_sha512, is_metadata_self_path, validate_member_path,
}

pub record ReleaseMember : Type 0 where
  pub path : Bytes
  pub sha256 : Bytes
  pub sha512 : Bytes
  pub size : ℕ

unfoldable pub max_release_members : ℕ
max_release_members = 1_000_000

-- "" of the source is `outside`.
pub data Block : Type 0 where
  outside sha256_block sha512_block : Block

-- The hash of one block's entry, and its size.
pub record HashEntry : Type 0 where
  pub hash : Bytes
  pub size : ℕ

unfoldable pub valid_for : Block → Bytes → Bool
valid_for sha512_block h = valid_hex_sha512 h
valid_for sha256_block h = valid_hex_sha256 h
valid_for outside h = valid_hex_sha256 h

-- An entry with its hash in the field of its block.
unfoldable pub entry_member : Block → Bytes → ℕ → Bytes → ReleaseMember
entry_member sha512_block h n p = record { path = p; sha256 = []; sha512 = h; size = n }
entry_member sha256_block h n p = record { path = p; sha256 = h; sha512 = []; size = n }
entry_member outside h n p = record { path = p; sha256 = h; sha512 = []; size = n }

unfoldable pub with_path : Block → Bytes → ℕ → Bytes → Option PathError → Result ReleaseMember
with_path b h n p (some e) = err (bad_path e)
with_path b h n p none = ok (entry_member b h n p)

unfoldable pub with_size : Block → Bytes → Option ℤ → Bytes → Result ReleaseMember
with_size b h none p = err bad_size
with_size b h (some (negsuc n)) p = err negative_size
with_size b h (some (pos n)) p = with_path b h n p (validate_member_path p)

unfoldable pub entry_fields : Block → List Bytes → Result ReleaseMember
entry_fields b (h ∷ n ∷ p ∷ []) =
    if not (valid_for b h) then err bad_hash else with_size b h (parse_int n) p
entry_fields b [] = err field_count
entry_fields b (h ∷ []) = err field_count
entry_fields b (h ∷ n ∷ []) = err field_count
entry_fields b (h ∷ n ∷ p ∷ q ∷ fs) = err field_count

unfoldable pub parse_release_hash_line : Bytes → Block → Result ReleaseMember
parse_release_hash_line line b = entry_fields b (fields line)

pub record Reader : Type 0 where
  pub out : List ReleaseMember
  pub at : List (Bytes × ℕ)
  pub seen256 : List (Bytes × HashEntry)
  pub seen512 : List (Bytes × HashEntry)
  pub parsed_rows : ℕ
  pub block : Block
  pub saw_block : Bool

abbrev pub new_reader : Reader
new_reader = record {
  out = [];
  at = [];
  seen256 = [];
  seen512 = [];
  parsed_rows = 0;
  block = outside;
  saw_block = false;
}

unfoldable pub lookup {ℓ} : {A : Type ℓ} → Bytes → List (Bytes × A) → Option A
lookup k [] = none
lookup k ((j, v) ∷ m) = if bytes_eq j k then some v else lookup k m

-- `out[i]` changed in place.
unfoldable pub change_at :
    ℕ → (ReleaseMember → ReleaseMember) → List ReleaseMember → List ReleaseMember
change_at i f [] = []
change_at zero f (m ∷ ms) = f m ∷ ms
change_at (suc i) f (m ∷ ms) = m ∷ change_at i f ms

unfoldable pub seen : Reader → Block → List (Bytes × HashEntry)
seen r sha512_block = r.seen512
seen r sha256_block = r.seen256
seen r outside = []

unfoldable pub see : Reader → Block → Bytes → HashEntry → Reader
see r sha512_block p e = record r { seen512 = (p, e) ∷ r.seen512 }
see r sha256_block p e = record r { seen256 = (p, e) ∷ r.seen256 }
see r outside p e = r

unfoldable pub set_hash : Block → HashEntry → ReleaseMember → ReleaseMember
set_hash sha256_block e m = record m {
  sha256 = e.hash;
  size = if bytes_eq m.sha512 [] then e.size else m.size;
}
set_hash sha512_block e m = record m { sha512 = e.hash; size = e.size }
set_hash outside e m = m

-- The member of a path gets the hash, and is appended first if it is new.
unfoldable pub merge_at : Reader → Block → Bytes → HashEntry → Option ℕ → Reader
merge_at r b p e (some i) = record r { out = change_at i (set_hash b e) r.out }
merge_at r b p e none = record r {
  at = (p, length r.out) ∷ r.at;
  out =
      change_at (length r.out) (set_hash b e)
        (r.out ++ (record { path = p; sha256 = []; sha512 = []; size = 0 } ∷ []));
}

unfoldable pub merge : Reader → Block → Bytes → HashEntry → Reader
merge r b p e = let r' = see r b p e in merge_at r' b p e (lookup p r'.at)

unfoldable pub same_entry : HashEntry → HashEntry → Bool
same_entry d e = bytes_eq d.hash e.hash && d.size == e.size

unfoldable pub keep_new : ℕ → Reader → Bytes → HashEntry → Option HashEntry → Result Reader
keep_new n r p e none = ok (merge r r.block p e)
keep_new n r p e (some d) = if same_entry d e then ok r else err (in_line n declared_twice)

unfoldable pub hash_of : Block → ReleaseMember → Bytes
hash_of sha512_block m = m.sha512
hash_of sha256_block m = m.sha256
hash_of outside m = m.sha256

unfoldable pub keep_entry : ℕ → Reader → ReleaseMember → Result Reader
keep_entry n r0 m =
    let r = record r0 { parsed_rows = r0.parsed_rows + 1 } in
    if ltb max_release_members r.parsed_rows
    then err too_many
    else if is_metadata_self_path m.path
    then ok r
    else keep_new n r m.path (record { hash = hash_of r.block m; size = m.size })
        (lookup m.path (seen r r.block))

unfoldable pub parsed_entry : ℕ → Reader → Result ReleaseMember → Result Reader
parsed_entry n r (err e) = err (in_line n e)
parsed_entry n r (ok m) = keep_entry n r m

unfoldable pub is_outside : Block → Bool
is_outside outside = true
is_outside sha256_block = false
is_outside sha512_block = false

unfoldable pub header : Reader → Bytes → Reader
header r label =
    if bytes_eq label (codes "SHA256:")
    then record r { block = sha256_block; saw_block = true }
    else if bytes_eq label (codes "SHA512:")
    then record r { block = sha512_block; saw_block = true }
    else record r { block = outside }

unfoldable pub read_line : ℕ → Reader → Bytes → Result Reader
read_line n r [] = ok (record r { block = outside })
read_line n r (c ∷ line) =
    if c == b' ' || c == 9
    then (if is_outside r.block
        then ok r
        else parsed_entry n r (parse_release_hash_line (c ∷ line) r.block))
    else ok (header r (trim_right (b' ' ∷ 9 ∷ []) (c ∷ line)))

-- The scanner's loop, from line `n` on.
unfoldable pub read_lines : ℕ → Reader → List Bytes → Result Reader
read_lines n r [] = ok r
read_lines n r (l ∷ ls) =
    if leb scan_buf_cap (length l)
    then err line_too_long
    else (read_line n r (drop_cr l) >>= λ r'. read_lines (n + 1) r' ls)

unfoldable pub finish : Reader → Result (List ReleaseMember)
finish r =
    if not r.saw_block
    then err no_block
    else elim r.out [ [] ↦ err empty_blocks | m ∷ ms ↦ ok (m ∷ ms) ]

unfoldable pub parse_release : Bytes → Result (List ReleaseMember)
parse_release text = read_lines 1 new_reader (raw_lines text) >>= finish

-- strings.Cut at a colon.
unfoldable pub cut_colon : Bytes → Option (Bytes × Bytes)
cut_colon line = elim (index_byte b':' line) [
  | none ↦ none
  | some i ↦ some (take i line, drop (i + 1) line)
]

-- What one line says of the flag, if it is the header.
unfoldable pub by_hash_header : Option (Bytes × Bytes) → Option Bool
by_hash_header none = none
by_hash_header (some (key, val)) =
    if equal_fold (trim_space key) (codes "Acquire-By-Hash")
    then some (equal_fold (trim_space val) (codes "yes"))
    else none

unfoldable pub by_hash_line : Bytes → Option Bool
by_hash_line [] = none
by_hash_line (c ∷ line) =
    if c == b' ' || c == 9 then none else by_hash_header (cut_colon (c ∷ line))

-- The scanner's loop; a line that is too long ends it.
unfoldable pub by_hash_lines : List Bytes → Bool
by_hash_lines [] = false
by_hash_lines (l ∷ ls) =
    let rest = by_hash_lines ls in
    if leb scan_buf_cap (length l)
    then false
    else elim (by_hash_line (drop_cr l)) [ some b ↦ b | none ↦ rest ]

unfoldable pub parse_acquire_by_hash : Bytes → Bool
parse_acquire_by_hash text = by_hash_lines (raw_lines text)
