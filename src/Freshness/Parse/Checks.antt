-- ===== src/Freshness/Parse/Checks.antt =====
-- The errors of the readers, and their checks of hashes and paths.
use apt_cacher_ultra.Base.{
  ℕ, ◌^◌, ◌≡◌, refl, Bool, true, false, not, ◌&&◌, ◌||◌, Option, none, some, List, [], ◌∷◌, ltb,
  leb, ◌==◌, if◌then◌else◌, all, length, take, drop, Bytes, codes, bytes_eq, contains_byte,
  has_prefix, split,
}

pub data PathError : Type 0 where
  empty_path absolute_path has_nul has_backslash has_percent has_delimiter : PathError
  parent_segment dot_segment empty_segment too_long_path control_byte no_name : PathError

pub data ParseError : Type 0 where
  field_count bad_hash bad_size negative_size declared_twice malformed_header : ParseError
  bad_path : PathError → ParseError
  too_many line_too_long no_block empty_blocks no_filename : ParseError
  no_row_of_source paths_refused : ParseError
  in_line : ℕ → ParseError → ParseError
  in_tail : ParseError → ParseError

-- What a reader returns: Go's `(value, nil)` or `(nil, error)`.
pub data Result {ℓ} (T : Type ℓ) : Type ℓ where
  err : ParseError → Result T
  ok : T → Result T

infixl 6 ◌>>=◌
abbrev pub ◌>>=◌ {ℓ κ} : {S : Type ℓ} {T : Type κ} → Result S → (S → Result T) → Result T
err x >>= next = err x
ok v >>= next = next v

-- The scanner's buffer: a line has to be shorter.
unfoldable pub scan_buf_cap : ℕ
scan_buf_cap = 2 ^ 20

abbrev pub is_lower_hex : ℕ → Bool
is_lower_hex c = (leb b'0' c && leb c b'9') || (leb b'a' c && leb c b'f')

unfoldable pub valid_hex_sha256 : Bytes → Bool
valid_hex_sha256 s = length s == 64 && all is_lower_hex s

unfoldable pub valid_hex_sha512 : Bytes → Bool
valid_hex_sha512 s =
    length s == 128 && (valid_hex_sha256 (take 64 s) && valid_hex_sha256 (drop 64 s))

unfoldable pub is_metadata_self_path : Bytes → Bool
is_metadata_self_path p =
    bytes_eq p (codes "Release")
    || bytes_eq p (codes "Release.gpg")
    || bytes_eq p (codes "InRelease")

-- The loop over the segments of a member's path.
unfoldable pub check_segments : List Bytes → Option PathError
check_segments [] = none
check_segments (s ∷ ss) =
    let rest = check_segments ss in
    if bytes_eq s (codes "..")
    then some parent_segment
    else if bytes_eq s (codes ".")
    then some dot_segment
    else if bytes_eq s []
    then some empty_segment
    else rest

-- `none` is a nil error.
unfoldable pub validate_member_path : Bytes → Option PathError
validate_member_path p =
    if bytes_eq p []
    then some empty_path
    else if has_prefix p (codes "/")
    then some absolute_path
    else if contains_byte p 0
    then some has_nul
    else if contains_byte p b'\\'
    then some has_backslash
    else if contains_byte p b'%'
    then some has_percent
    else if contains_byte p b'?' || contains_byte p b'#'
    then some has_delimiter
    else check_segments (split b'/' p)

pub ok_inj {ℓ} : {A : Type ℓ} {x y : A} → ok x ≡ ok y → x ≡ y
ok_inj e = cc e

-- A bind that succeeds has two steps that do.
pub bind_ok {ℓ κ} :
    {S : Type ℓ} {T : Type κ} (first : Result S) (next : S → Result T) {t : T}
    → (first >>= next) ≡ ok t
    → (v : S) × (first ≡ ok v) × (next v ≡ ok t)
bind_ok (err x) next e = cc e
bind_ok (ok v) next e = (v, refl, e)

-- aptpath.MaxFilenameBytes.
unfoldable pub max_filename_bytes : ℕ
max_filename_bytes = 4096

abbrev pub is_control : ℕ → Bool
is_control c = ltb c 0x20 || c == 0x7f

-- The loop over the segments of a Filename; `named` says whether one of them names something.
unfoldable pub filename_segments : Bool → List Bytes → Option PathError
filename_segments named [] = if named then none else some no_name
filename_segments named (s ∷ ss) =
    let same = filename_segments named ss in
    let more = filename_segments true ss in
    if bytes_eq s []
    then some empty_segment
    else if bytes_eq s (codes "..")
    then some parent_segment
    else if bytes_eq s (codes ".")
    then same
    else more

unfoldable pub validate_filename : Bytes → Option PathError
validate_filename f =
    if bytes_eq f []
    then some empty_path
    else if ltb max_filename_bytes (length f)
    then some too_long_path
    else if has_prefix f (codes "/")
    then some absolute_path
    else if contains_byte f b'\\'
    then some has_backslash
    else if contains_byte f b'?' || contains_byte f b'#'
    then some has_delimiter
    else if not (all (λ c. not (is_control c)) f)
    then some control_byte
    else filename_segments false (split b'/' f)
