-- ===== src/Aptpath/Sniff.antt =====
-- internal/aptpath/sniff.go: what a body looks like, and what a request path is to its suite. A
-- loop that cuts lines off a body runs on fuel, one more than the body's length.
use apt_cacher_ultra.Base.{
  ℕ, zero, suc, ◌+◌, ◌-◌, ◌*◌, ◌%◌, Bool, true, false, not, ◌&&◌, ◌||◌, Option, none, some, [], ◌∷◌,
  ◌++◌, ltb, leb, ◌==◌, if◌then◌else◌, length, take, drop, get_or, Bytes, codes, bytes_eq,
  has_prefix, cut_prefix, trim_left_set, trim_right, line_of, index_byte, last_index_byte,
}
use apt_cacher_ultra.Aptpath.Suite.{is_flat_member, has_dists_segment}

abbrev pub sniff_head_bytes : ℕ
sniff_head_bytes = 512

abbrev pub clearsign_begin : Bytes
clearsign_begin = codes "-----BEGIN PGP SIGNED MESSAGE-----"

abbrev pub armor_sig_begin : Bytes
armor_sig_begin = codes "-----BEGIN PGP SIGNATURE-----"

-- "\r \t", the blanks behind a line.
abbrev pub line_blanks : Bytes
line_blanks = 13 ∷ b' ' ∷ 9 ∷ []

unfoldable pub sniff_in_release : Bytes → Bool
sniff_in_release head = bytes_eq (trim_right line_blanks (line_of head)) clearsign_begin

-- Where the packet body starts, by the second octet of a new-format header.
unfoldable pub new_format_offset : ℕ → ℕ
new_format_offset l = if ltb l 192 then 2 else if leb l 223 then 3 else if l == 255 then 6 else 2

unfoldable pub sig_packet_body_offset : Bytes → Option ℕ
sig_packet_body_offset [] = none
sig_packet_body_offset (tag ∷ rest) =
    if leb 0x88 tag && leb tag 0x8b
    then some (get_or (2 ∷ 3 ∷ 5 ∷ 1 ∷ []) (tag % 4) 0)
    else if tag == 0xc2 && ltb 1 (length (tag ∷ rest))
    then some (new_format_offset (get_or rest 0 0))
    else none

unfoldable pub sniff_release_gpg : Bytes → Bool
sniff_release_gpg head =
    if has_prefix (trim_left_set (b' ' ∷ 9 ∷ 13 ∷ 10 ∷ []) head) armor_sig_begin
    then true
    else elim (sig_packet_body_offset head) [
      | none ↦ false
      | some off ↦
          if leb (length head) off
          then false
          else leb 3 (get_or head off 0) && leb (get_or head off 0) 6
    ]

unfoldable pub release_sniff_bytes : ℕ
release_sniff_bytes = 64 * 1024

unfoldable pub is_hash_header : Bytes → Bool
is_hash_header line =
    let name = trim_right line_blanks line in
    bytes_eq name (codes "SHA256:")
    || bytes_eq name (codes "SHA512:")
    || bytes_eq name (codes "SHA1:")
    || bytes_eq name (codes "MD5Sum:")

-- The loop over the lines; `none` means that the fuel ran out.
unfoldable pub release_loop : ℕ → Bytes → Option Bool
release_loop zero head = none
release_loop (suc fuel) [] = some false
release_loop (suc fuel) (c ∷ cs) = elim (index_byte 10 (c ∷ cs)) [
  | some i ↦
      let rest = release_loop fuel (drop (i + 1) (c ∷ cs)) in
      if is_hash_header (take i (c ∷ cs)) then some true else rest
  | none ↦ let rest = release_loop fuel [] in if is_hash_header (c ∷ cs) then some true else rest
]

unfoldable pub sniff_release : Bytes → Option Bool
sniff_release head0 =
    let head =
      if ltb release_sniff_bytes (length head0) then take release_sniff_bytes head0 else head0 in
    release_loop (length head + 1) head

-- flatIndexMagic: the magic of a known extension.
unfoldable pub flat_index_magic : Bytes → Option Bytes
flat_index_magic ext =
    if bytes_eq ext (codes ".gz")
    then some (0x1f ∷ 0x8b ∷ [])
    else if bytes_eq ext (codes ".xz")
    then some (0xfd ∷ b'7' ∷ b'z' ∷ b'X' ∷ b'Z' ∷ 0x00 ∷ [])
    else if bytes_eq ext (codes ".bz2")
    then some (codes "BZh")
    else if bytes_eq ext (codes ".lzma")
    then some (0x5d ∷ 0x00 ∷ 0x00 ∷ [])
    else if bytes_eq ext (codes ".lz4")
    then some (0x04 ∷ 0x22 ∷ 0x4d ∷ 0x18 ∷ [])
    else if bytes_eq ext (codes ".zst")
    then some (0x28 ∷ 0xb5 ∷ 0x2f ∷ 0xfd ∷ [])
    else none

-- The extension behind one stem, "" included.
unfoldable pub known_ext : Option Bytes → Option Bytes
known_ext none = none
known_ext (some []) = some []
known_ext (some (c ∷ cs)) = elim (flat_index_magic (c ∷ cs)) [
  | none ↦ none
  | some magic ↦ some (c ∷ cs)
]

unfoldable pub flat_index_ext : Bytes → Option Bytes
flat_index_ext name = elim (known_ext (cut_prefix name (codes "Packages"))) [
  | some ext ↦ some ext
  | none ↦ known_ext (cut_prefix name (codes "Sources"))
]

-- `flatIndexMagic[ext]` of a map: nil for an unknown key, a prefix of everything.
unfoldable pub has_magic : Bytes → Bytes → Bool
has_magic ext head = elim (flat_index_magic ext) [
  | none ↦ true
  | some magic ↦ has_prefix head magic
]

unfoldable pub sniff_flat_index : Bytes → Bytes → Bool
sniff_flat_index name head = elim (flat_index_ext name) [
  | none ↦ false
  | some ext ↦ if bytes_eq ext [] then has_prefix head (codes "Package:") else has_magic ext head
]

unfoldable pub anchorless_index_ext : Bytes → Option Bytes
anchorless_index_ext name = elim (flat_index_ext name) [
  | some ext ↦ some ext
  | none ↦
      if not (has_prefix name (codes "Contents-")) || not (is_flat_member name)
      then none
      else elim (last_index_byte b'.' name) [ some i ↦ some (drop i name) | none ↦ some [] ]
]

unfoldable pub is_anchorless_index : Bytes → Bool
is_anchorless_index name = elim (anchorless_index_ext name) [ none ↦ false | some ext ↦ true ]

-- `pass` and `sniffable`.
unfoldable pub sniff_anchorless_index : Bytes → Bytes → Bool × Bool
sniff_anchorless_index name head = elim (anchorless_index_ext name) [
  | none ↦ (false, false)
  | some ext ↦
      if not (has_prefix name (codes "Contents-"))
      then (sniff_flat_index name head, true)
      else if bytes_eq ext []
      then (false, false)
      else (has_magic ext head, true)
]

pub data SuiteFile : Type 0 where
  not_suite_file file_in_release file_release file_release_gpg file_flat_index : SuiteFile

abbrev pub max_suite_path_bytes : ℕ
max_suite_path_bytes = 1024

-- The file under the suite, by its name.
unfoldable pub name_file : Bytes → Bytes → SuiteFile
name_file suite name =
    if bytes_eq name (codes "InRelease")
    then file_in_release
    else if bytes_eq name (codes "Release")
    then file_release
    else if bytes_eq name (codes "Release.gpg")
    then file_release_gpg
    else elim (flat_index_ext name) [
      | none ↦ not_suite_file
      | some ext ↦ if not (has_dists_segment suite) then file_flat_index else not_suite_file
    ]

unfoldable pub classify_suite_file : Bytes → Bytes → SuiteFile
classify_suite_file suite path =
    if bytes_eq suite [] || ltb max_suite_path_bytes (length suite)
    then not_suite_file
    else elim (cut_prefix path (suite ++ codes "/")) [
      | none ↦ not_suite_file
      | some name ↦ name_file suite name
    ]

unfoldable pub creates_row : SuiteFile → Bool → Bool
creates_row file_in_release adopter = true
creates_row file_release adopter = true
creates_row file_flat_index adopter = adopter
creates_row not_suite_file adopter = false
creates_row file_release_gpg adopter = false

unfoldable pub marks : SuiteFile → Bool
marks file_in_release = true
marks file_release_gpg = true
marks _ = false

unfoldable pub touches : SuiteFile → Bool
touches not_suite_file = false
touches _ = true

unfoldable pub head_bytes : SuiteFile → ℕ
head_bytes file_release = release_sniff_bytes
head_bytes _ = sniff_head_bytes

-- The last segment of a path.
unfoldable pub base_name : Bytes → Bytes
base_name path = elim (last_index_byte b'/' path) [ none ↦ path | some i ↦ drop (i + 1) path ]

unfoldable pub sniff : SuiteFile → Bytes → Bytes → Option Bool
sniff file_in_release path head = some (sniff_in_release head)
sniff file_release path head = sniff_release head
sniff file_release_gpg path head = some (sniff_release_gpg head)
sniff file_flat_index path head = some (sniff_flat_index (base_name path) head)
sniff not_suite_file path head = some false

-- The end of the first line.
unfoldable pub line_end : Bytes → ℕ
line_end b = elim (index_byte 10 b) [ some i ↦ i | none ↦ length b ]

unfoldable pub decodable_clearsign : Bytes → Bytes
decodable_clearsign b =
    if not (sniff_in_release b)
    then b
    else let end = line_end b in
      let n = length clearsign_begin in
      if end == n || (end == n + 1 && get_or b (end - 1) 0 == 13)
      then b
      else clearsign_begin ++ drop end b
