-- ===== src/Aptpath/Suite.antt =====
-- internal/aptpath/suite.go. A Go string is its list of bytes; "no suite" is the empty string, as
-- in the source. The regular expressions of the member grammar are matchers by hand.
use apt_cacher_ultra.Base.{
  ℕ, zero, suc, ◌+◌, ◌-◌, Bool, true, false, not, ◌&&◌, ◌||◌, Option, none, some, List, [], ◌∷◌,
  ◌++◌, ltb, leb, ◌==◌, if◌then◌else◌, length, take, drop, get_or, all, map, Bytes, codes, bytes_eq,
  has_prefix, cut_prefix, trim_suffix, split, join, contains_byte,
}

abbrev pub slash : ℕ
slash = b'/'

abbrev pub forbidden_path_bytes : Bytes
forbidden_path_bytes = codes "#?%\\"

unfoldable pub is_clean_byte : ℕ → Bool
is_clean_byte c = not (ltb c 0x20 || c == 0x7f || contains_byte forbidden_path_bytes c)

-- `for i := 0; i < len(p); i++` with an early return.
unfoldable pub clean_bytes : Bytes → Bool
clean_bytes p = all is_clean_byte p

unfoldable pub any_dists : List Bytes → Bool
any_dists [] = false
any_dists (s ∷ ss) = bytes_eq s (codes "dists") || any_dists ss

unfoldable pub has_dists_segment : Bytes → Bool
has_dists_segment p = any_dists (split slash p)

-- A segment that no canonical path has.
unfoldable pub is_bad_segment : Bytes → Bool
is_bad_segment s = bytes_eq s [] || bytes_eq s (codes ".") || bytes_eq s (codes "..")

unfoldable pub any_bad : List Bytes → Bool
any_bad [] = false
any_bad (s ∷ ss) = is_bad_segment s || any_bad ss

-- `for i := n - 1; i >= 0; i--`: the last index below `n` that holds "dists".
unfoldable pub last_dists : ℕ → List Bytes → Option ℕ
last_dists zero segs = none
last_dists (suc i) segs =
    let below = last_dists i segs in
    if bytes_eq (get_or segs i []) (codes "dists") then some i else below

unfoldable pub dists_suite_path : List Bytes → Bytes
dists_suite_path segs = if any_bad segs then [] else elim (last_dists (length segs - 2) segs) [
  | none ↦ []
  | some i ↦ slash ∷ join slash (take (i + 2) segs)
]

-- The extension group of the member grammar, "" included.
unfoldable pub is_flat_ext : Bytes → Bool
is_flat_ext e =
    bytes_eq e []
    || bytes_eq e (codes ".gz")
    || bytes_eq e (codes ".xz")
    || bytes_eq e (codes ".bz2")
    || bytes_eq e (codes ".lzma")
    || bytes_eq e (codes ".lz4")
    || bytes_eq e (codes ".zst")

unfoldable pub ext_behind : Option Bytes → Bool
ext_behind none = false
ext_behind (some e) = is_flat_ext e

unfoldable pub is_class_byte : ℕ → Bool
is_class_byte c = (leb b'a' c && leb c b'z') || (leb b'0' c && leb c b'9') || c == b'-'

-- `[a-z0-9-]*` and the extension group; the class holds no dot, so the longest run is the only one.
unfoldable pub class_then_ext : Bytes → Bool
class_then_ext [] = true
class_then_ext (c ∷ cs) = if is_class_byte c then class_then_ext cs else is_flat_ext (c ∷ cs)

-- `[a-z0-9-]+`: at least one byte of the class first.
unfoldable pub contents_class : Option Bytes → Bool
contents_class none = false
contents_class (some []) = false
contents_class (some (c ∷ cs)) = is_class_byte c && class_then_ext cs

-- flatMemberRE.
unfoldable pub is_flat_member : Bytes → Bool
is_flat_member s =
    bytes_eq s (codes "InRelease")
    || bytes_eq s (codes "Release")
    || bytes_eq s (codes "Release.gpg")
    || ext_behind (cut_prefix s (codes "Packages"))
    || ext_behind (cut_prefix s (codes "Sources"))
    || contents_class (cut_prefix s (codes "Contents-"))

-- flatPdiffDirRE.
unfoldable pub is_pdiff_dir : Bytes → Bool
is_pdiff_dir s = bytes_eq s (codes "Packages.diff") || bytes_eq s (codes "Sources.diff")

-- hex64RE and hex128RE.
unfoldable pub is_hex : ℕ → Bytes → Bool
is_hex n s = length s == n && all (λ c. (leb b'0' c && leb c b'9') || (leb b'a' c && leb c b'f')) s

-- How many segments at the end form a flat member; 0 for none.
unfoldable pub flat_member_segments : List Bytes → ℕ
flat_member_segments segs =
    let n = length segs in
    let seg = λ (k : ℕ). get_or segs (n - k) [] in
    if leb 1 n && is_flat_member (seg 1)
    then 1
    else if leb 2 n && bytes_eq (seg 1) (codes "Index") && is_pdiff_dir (seg 2)
    then 2
    else if leb 3 n
        && bytes_eq (seg 3) (codes "by-hash")
        && ((bytes_eq (seg 2) (codes "SHA256") && is_hex 64 (seg 1))
            || (bytes_eq (seg 2) (codes "SHA512") && is_hex 128 (seg 1)))
    then 3
    else 0

-- The directory before the flat member, its twin's last "." apart.
unfoldable pub flat_directory : List Bytes → Bytes
flat_directory all_dir =
    let twin = bytes_eq (get_or all_dir (length all_dir - 1) []) (codes ".") in
    let dir = if twin then take (length all_dir - 1) all_dir else all_dir in
    if length dir == 0
    then []
    else if any_bad dir
    then []
    else (slash ∷ join slash dir) ++ (if twin then codes "/." else [])

unfoldable pub flat_suite_path : List Bytes → Bytes
flat_suite_path segs =
    let n = flat_member_segments segs in
    if n == 0 || leb (length segs) n then [] else flat_directory (take (length segs - n) segs)

unfoldable pub suite_path : Bytes → Bytes
suite_path p =
    if not (has_prefix p (codes "/")) || not (clean_bytes p)
    then []
    else let segs = split slash (drop 1 p) in
      if has_dists_segment p then dists_suite_path segs else flat_suite_path segs

unfoldable pub is_flat_host_root_path : Bytes → Bool
is_flat_host_root_path p =
    if not (has_prefix p (codes "/")) || not (clean_bytes p) || has_dists_segment p
    then false
    else let segs = split slash (drop 1 p) in
      let n = flat_member_segments segs in
      ltb 0 n
      && (n == length segs || (n == length segs - 1 && bytes_eq (get_or segs 0 []) (codes ".")))

unfoldable pub is_canonical_suite_path : Bytes → Bool
is_canonical_suite_path s = not (bytes_eq s []) && bytes_eq (suite_path (s ++ codes "/InRelease")) s

unfoldable pub is_flat_suite_path : Bytes → Bool
is_flat_suite_path s = is_canonical_suite_path s && not (has_dists_segment s)

-- FlatBase; MarkerBase of sniff.go is the same function under another name.
unfoldable pub flat_base : Bytes → Bytes
flat_base suite = trim_suffix suite (codes "/.")

unfoldable pub without_dots : List Bytes → List Bytes
without_dots [] = []
without_dots (s ∷ ss) =
    if not (bytes_eq s (codes ".")) then s ∷ without_dots ss else without_dots ss

unfoldable pub dot_clean : Bytes → Bytes
dot_clean p = join slash (without_dots (split slash p))

abbrev pub flat_index_exts : List Bytes
flat_index_exts =
    codes ".gz" ∷ codes ".xz" ∷ codes ".bz2" ∷ codes ".lzma" ∷ codes ".lz4" ∷ codes ".zst" ∷ []

-- The names of one stem: plain, and with each extension.
unfoldable pub stem_names : Bytes → List Bytes
stem_names stem = stem ∷ map (λ ext. stem ++ ext) flat_index_exts

unfoldable pub flat_index_names : List Bytes
flat_index_names = stem_names (codes "Packages") ++ stem_names (codes "Sources")

-- Names every definition of this file for the `unfolding` line of a test.
unfoldable pub run_grammar : Unit {0}
unfolding any_bad any_dists bytes_eq class_then_ext clean_bytes contains_byte contents_class
    cut_prefix dists_suite_path dot_clean ext_behind flat_base flat_directory flat_member_segments
    flat_suite_path has_dists_segment has_prefix is_bad_segment is_canonical_suite_path
    is_class_byte is_clean_byte is_flat_ext is_flat_host_root_path is_flat_member is_flat_suite_path
    is_hex is_pdiff_dir join last_dists split suite_path trim_suffix without_dots
run_grammar = tt
