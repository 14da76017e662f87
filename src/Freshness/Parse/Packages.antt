-- ===== src/Freshness/Parse/Packages.antt =====
-- internal/freshness/packages_parse.go: parsePackages.
pub mod Rows
mod Tests
use apt_cacher_ultra.Base.{
  ℕ, zero, suc, ◌+◌, Bool, true, false, not, ◌&&◌, ◌||◌, Option, none, some, List, [], ◌∷◌, ◌++◌,
  leb, ◌==◌, if◌then◌else◌, length, Bytes, codes, bytes_eq, trim_space, lowers_to, index_byte, take,
  drop, raw_lines, drop_cr, parse_int, ℤ, pos, negsuc,
}
use apt_cacher_ultra.Freshness.Parse.Checks.{
  PathError, ParseError, bad_hash, bad_size, negative_size, malformed_header, bad_path, too_many,
  line_too_long, no_filename, in_line, in_tail, Result, ok, err, ◌>>=◌, scan_buf_cap,
  valid_hex_sha256, validate_filename,
}

pub record PackageRef : Type 0 where
  pub filename : Bytes
  pub sha256 : Bytes
  pub size : ℕ
  pub package_name : Bytes
  pub architecture : Bytes
  pub version : Bytes

unfoldable pub max_package_stanzas : ℕ
max_package_stanzas = 1_000_000

-- The fields of the stanza that is being read; `size` is 0 until it is set.
pub record Stanza : Type 0 where
  pub filename : Bytes
  pub sha256 : Bytes
  pub size : ℕ
  pub package_name : Bytes
  pub architecture : Bytes
  pub version : Bytes

abbrev pub no_stanza : Stanza
no_stanza = record {
  filename = [];
  sha256 = [];
  size = 0;
  package_name = [];
  architecture = [];
  version = [];
}

pub record Packages : Type 0 where
  pub out : List PackageRef
  pub no_sha256 : List Bytes
  pub stanza : Stanza

abbrev pub no_packages : Packages
no_packages = record { out = []; no_sha256 = []; stanza = no_stanza }

unfoldable pub is_full : Packages → Bool
is_full p = leb max_package_stanzas (length p.out + length p.no_sha256)

abbrev pub row_of : Stanza → PackageRef
row_of s = record {
  filename = s.filename;
  sha256 = s.sha256;
  size = s.size;
  package_name = s.package_name;
  architecture = s.architecture;
  version = s.version;
}

-- flush without a hash: a stanza that names a file is reported.
unfoldable pub flush_gap : Packages → Result Packages
flush_gap p =
    if bytes_eq p.stanza.filename []
    then ok (record p { stanza = no_stanza })
    else if is_full p
    then err too_many
    else ok (record p { no_sha256 = p.no_sha256 ++ (p.stanza.filename ∷ []); stanza = no_stanza })

unfoldable pub flush_named : Packages → Option PathError → Result Packages
flush_named p (some e) = err (bad_path e)
flush_named p none =
    if is_full p
    then err too_many
    else ok (record p { out = p.out ++ (row_of p.stanza ∷ []); stanza = no_stanza })

unfoldable pub flush : Packages → Result Packages
flush p =
    if bytes_eq p.stanza.filename [] || bytes_eq p.stanza.sha256 []
    then flush_gap p
    else if not (valid_hex_sha256 p.stanza.sha256)
    then err bad_hash
    else flush_named p (validate_filename p.stanza.filename)

unfoldable pub located : (ParseError → ParseError) → Result Packages → Result Packages
located f (ok p) = ok p
located f (err e) = err (f e)

unfoldable pub set_size : Packages → Option ℤ → Result Packages
set_size p none = err bad_size
set_size p (some (negsuc n)) = err negative_size
set_size p (some (pos n)) = ok (record p { stanza = record (p.stanza) { size = n } })

-- The switch on the field's name in lower case.
unfoldable pub set_field : Packages → Bytes → Bytes → Result Packages
set_field p field value =
    if lowers_to field (codes "filename")
    then ok (record p { stanza = record (p.stanza) { filename = value } })
    else if lowers_to field (codes "sha256")
    then ok (record p { stanza = record (p.stanza) { sha256 = value } })
    else if lowers_to field (codes "size")
    then set_size p (parse_int value)
    else if lowers_to field (codes "package")
    then ok (record p { stanza = record (p.stanza) { package_name = value } })
    else if lowers_to field (codes "architecture")
    then ok (record p { stanza = record (p.stanza) { architecture = value } })
    else if lowers_to field (codes "version")
    then ok (record p { stanza = record (p.stanza) { version = value } })
    else ok p

-- A header, by where its colon stands.
unfoldable pub read_header : Packages → Bytes → Option ℕ → Result Packages
read_header p line none = err malformed_header
read_header p line (some zero) = err malformed_header
read_header p line (some (suc i)) =
    set_field p (trim_space (take (suc i) line)) (trim_space (drop (suc i + 1) line))

unfoldable pub read_stanza_line : ℕ → Packages → Bytes → Result Packages
read_stanza_line n p [] = located (in_line n) (flush p)
read_stanza_line n p (c ∷ line) =
    if c == b' ' || c == 9
    then ok p
    else located (in_line n) (read_header p (c ∷ line) (index_byte b':' (c ∷ line)))

unfoldable pub read_stanzas : ℕ → Packages → List Bytes → Result Packages
read_stanzas n p [] = ok p
read_stanzas n p (l ∷ ls) =
    if leb scan_buf_cap (length l)
    then err line_too_long
    else (read_stanza_line n p (drop_cr l) >>= λ p'. read_stanzas (n + 1) p' ls)

unfoldable pub no_row : List PackageRef → Bool
no_row [] = true
no_row (r ∷ rs) = false

unfoldable pub no_gap : List Bytes → Bool
no_gap [] = true
no_gap (f ∷ fs) = false

-- Behind the last flush.
unfoldable pub finish_packages : Bytes → Packages → Result (List PackageRef × List Bytes)
finish_packages text p =
    if no_row p.out && no_gap p.no_sha256 && not (bytes_eq (trim_space text) [])
    then err no_filename
    else ok (p.out, p.no_sha256)

unfoldable pub parse_packages : Bytes → Result (List PackageRef × List Bytes)
parse_packages text = read_stanzas 1 no_packages (raw_lines text) >>= λ p.
    (located in_tail (flush p) >>= finish_packages text)
