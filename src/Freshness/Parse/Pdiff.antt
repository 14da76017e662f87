-- ===== src/Freshness/Parse/Pdiff.antt =====
-- internal/freshness/pdiff_parse.go: ParsePdiffIndex.
pub mod Entries
mod Tests
use apt_cacher_ultra.Base.{
  ℕ, zero, suc, ◌+◌, ◌-◌, Bool, true, false, not, ◌&&◌, ◌||◌, Option, none, some, List, [], ◌∷◌,
  ◌++◌, ltb, leb, ◌==◌, if◌then◌else◌, length, map, all, Bytes, codes, bytes_eq, trim_space,
  equal_fold, lower_byte, index_byte, take, drop, fields, raw_lines, drop_cr, parse_int, ℤ, pos,
  negsuc,
}
use apt_cacher_ultra.Freshness.Parse.Checks.{
  ParseError, malformed_header, too_many, line_too_long, in_line, Result, ok, err, ◌>>=◌,
  scan_buf_cap, valid_hex_sha256,
}

pub record PdiffPatchRef : Type 0 where
  pub filename : Bytes
  pub sha256 : Bytes
  pub size : ℕ

unfoldable pub max_pdiff_patch_entries : ℕ
max_pdiff_patch_entries = 1024

abbrev pub is_patch_byte : ℕ → Bool
is_patch_byte c = (leb b'0' c && leb c b'9') || c == b'.' || c == b'-'

-- pdiffPatchFilenameRE: a run of the class, then ".gz" at the end.
unfoldable pub is_patch_name : Bytes → Bool
is_patch_name s =
    ltb 3 (length s)
    && all is_patch_byte (take (length s - 3) s)
    && bytes_eq (drop (length s - 3) s) (codes ".gz")

unfoldable pub patch_size : Bytes → Option ℤ → Bytes → Option PdiffPatchRef
patch_size hash none name = none
patch_size hash (some (negsuc n)) name = none
patch_size hash (some (pos n)) name = some (record { filename = name; sha256 = hash; size = n })

-- The hash in lower case; a byte outside ASCII is no part of a hash in either case.
unfoldable pub patch_fields : List Bytes → Option PdiffPatchRef
patch_fields (h ∷ n ∷ f ∷ []) =
    if not (valid_hex_sha256 (map lower_byte h))
    then none
    else patch_size (map lower_byte h) (parse_int n) f
patch_fields [] = none
patch_fields (h ∷ []) = none
patch_fields (h ∷ n ∷ []) = none
patch_fields (h ∷ n ∷ f ∷ g ∷ fs) = none

unfoldable pub parse_pdiff_download_line : Bytes → Option PdiffPatchRef
parse_pdiff_download_line line = patch_fields (fields line)

pub record Patches : Type 0 where
  pub out : List PdiffPatchRef
  pub in_download_block : Bool

abbrev pub no_patches : Patches
no_patches = record { out = []; in_download_block = false }

unfoldable pub keep_patch : Patches → Option PdiffPatchRef → Result Patches
keep_patch p none = ok p
keep_patch p (some r) =
    if not (is_patch_name r.filename)
    then ok p
    else if leb max_pdiff_patch_entries (length p.out)
    then err too_many
    else ok (record p { out = p.out ++ (r ∷ []) })

unfoldable pub read_field : Patches → Bytes → Option ℕ → Result Patches
read_field p line none = err malformed_header
read_field p line (some zero) = err malformed_header
read_field p line (some (suc i)) = ok (record p {
  in_download_block = equal_fold (trim_space (take (suc i) line)) (codes "SHA256-Download");
})

unfoldable pub at_patch_line : ℕ → Result Patches → Result Patches
at_patch_line n (ok p) = ok p
at_patch_line n (err e) = err (in_line n e)

unfoldable pub read_patch_line : ℕ → Patches → Bytes → Result Patches
read_patch_line n p [] = ok (record p { in_download_block = false })
read_patch_line n p (c ∷ line) =
    if c == b' ' || c == 9
    then (if not p.in_download_block
        then ok p
        else keep_patch p (parse_pdiff_download_line (c ∷ line)))
    else at_patch_line n (read_field p (c ∷ line) (index_byte b':' (c ∷ line)))

unfoldable pub read_patch_lines : ℕ → Patches → List Bytes → Result Patches
read_patch_lines n p [] = ok p
read_patch_lines n p (l ∷ ls) =
    if leb scan_buf_cap (length l)
    then err line_too_long
    else (read_patch_line n p (drop_cr l) >>= λ p'. read_patch_lines (n + 1) p' ls)

unfoldable pub parse_pdiff_index : Bytes → Result (List PdiffPatchRef)
parse_pdiff_index text = read_patch_lines 1 no_patches (raw_lines text) >>= λ p. ok (p.out)
