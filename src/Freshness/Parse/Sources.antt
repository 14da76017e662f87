-- ===== src/Freshness/Parse/Sources.antt =====
-- internal/freshness/sources_parse.go: ParseSources. Its errors carry the counts so far, so a step that
-- stops keeps the state.
pub mod Stanzas
pub mod Rows
mod Tests
use apt_cacher_ultra.Base.{
  ℕ, zero, suc, ◌+◌, Bool, true, false, not, ◌&&◌, ◌||◌, Option, none, some, List, [], ◌∷◌, ◌++◌,
  ltb, leb, ◌==◌, if◌then◌else◌, length, map, Bytes, codes, bytes_eq, contains_byte, trim_space,
  lower_byte, lowers_to, index_byte, take, drop, fields, raw_lines, drop_cr, parse_int, ℤ, pos,
  negsuc,
}
use apt_cacher_ultra.Freshness.Parse.Checks.{
  PathError, ParseError, malformed_header, too_many, line_too_long, no_row_of_source, paths_refused,
  in_line, in_tail, Result, ok, err, scan_buf_cap, valid_hex_sha256, validate_member_path,
}

pub record SourceRef : Type 0 where
  pub path : Bytes
  pub sha256 : Bytes
  pub size : ℕ
  pub package_name : Bytes

unfoldable pub max_source_stanzas : ℕ
max_source_stanzas = 1_000_000

pub record SourcesParseStats : Type 0 where
  pub stanza_count : ℕ
  pub paths_skipped : ℕ
  pub first_skipped : Bytes

pub record SourceChecksumEntry : Type 0 where
  pub sha256 : Bytes
  pub size : ℕ
  pub filename : Bytes

pub record Sources : Type 0 where
  pub out : List SourceRef
  pub stats : SourcesParseStats
  pub package_name : Bytes
  pub directory : Bytes
  pub entries : List SourceChecksumEntry
  pub in_sha256_block : Bool
  pub stanza_open : Bool

abbrev pub no_sources : Sources
no_sources = record {
  out = [];
  stats = record { stanza_count = 0; paths_skipped = 0; first_skipped = [] };
  package_name = [];
  directory = [];
  entries = [];
  in_sha256_block = false;
  stanza_open = false;
}

-- A nil error, or an error, with the state.
pub data SourceStep : Type 0 where
  goes : Sources → SourceStep
  stops : Sources → ParseError → SourceStep

abbrev pub then_step : SourceStep → (Sources → SourceStep) → SourceStep
then_step (goes s) f = f s
then_step (stops s e) f = stops s e

abbrev pub step_at : (ParseError → ParseError) → SourceStep → SourceStep
step_at f (goes s) = goes s
step_at f (stops s e) = stops s (f e)

-- The hash in lower case; a byte outside ASCII is no part of a hash in either case.
unfoldable pub checksum_fields : List Bytes → Option SourceChecksumEntry
checksum_fields (h ∷ n ∷ f ∷ []) = elim (parse_int n) [
  | some (pos k) ↦ some (record { sha256 = map lower_byte h; size = k; filename = f })
  | _ ↦ none
]
checksum_fields [] = none
checksum_fields (h ∷ []) = none
checksum_fields (h ∷ n ∷ []) = none
checksum_fields (h ∷ n ∷ f ∷ g ∷ fs) = none

unfoldable pub parse_sources_checksum_line : Bytes → Option SourceChecksumEntry
parse_sources_checksum_line line = checksum_fields (fields line)

unfoldable pub is_bad_name : Bytes → Bool
is_bad_name f =
    bytes_eq f []
    || (contains_byte f b'/' || contains_byte f b'\\' || contains_byte f 0)
    || (bytes_eq f (codes ".") || bytes_eq f (codes ".."))

unfoldable pub is_refused : Option PathError → Bool
is_refused none = false
is_refused (some e) = true

unfoldable pub skip_path : Sources → Bytes → Sources
skip_path s full = record s {
  stats = record (s.stats) {
    paths_skipped = s.stats.paths_skipped + 1;
    first_skipped = if bytes_eq s.stats.first_skipped [] then full else s.stats.first_skipped;
  };
}

unfoldable pub add_path : Sources → Bool → SourceChecksumEntry → Bytes → SourceStep
add_path s dir_ok e full =
    if not dir_ok || is_refused (validate_member_path full)
    then goes (skip_path s full)
    else if leb max_source_stanzas (length s.out)
    then stops s too_many
    else goes (record s {
      out =
          s.out
          ++ (record {
            path = full;
            sha256 = e.sha256;
            size = e.size;
            package_name = s.package_name;
          }
              ∷ []);
    })

unfoldable pub add_entry : Sources → Bool → SourceChecksumEntry → SourceStep
add_entry s dir_ok e =
    if not (valid_hex_sha256 e.sha256)
    then goes s
    else if is_bad_name e.filename
    then goes s
    else add_path s dir_ok e (s.directory ++ (b'/' ∷ e.filename))

unfoldable pub add_entries : Sources → Bool → List SourceChecksumEntry → SourceStep
add_entries s dir_ok [] = goes s
add_entries s dir_ok (e ∷ es) = then_step (add_entry s dir_ok e) (λ s'. add_entries s' dir_ok es)

-- flush's deferred function.
unfoldable pub clear_stanza : Sources → Sources
clear_stanza s = record s {
  package_name = [];
  directory = [];
  entries = [];
  in_sha256_block = false;
  stanza_open = false;
}

abbrev pub cleared : SourceStep → SourceStep
cleared (goes s) = goes (clear_stanza s)
cleared (stops s e) = stops (clear_stanza s) e

unfoldable pub count_stanza : Sources → Sources
count_stanza s =
    if s.stanza_open
    then record s { stats = record (s.stats) { stanza_count = s.stats.stanza_count + 1 } }
    else s

unfoldable pub flush_source : Sources → SourceStep
flush_source s0 =
    let s = count_stanza s0 in
    if bytes_eq s.package_name [] || bytes_eq s.directory []
    then goes (clear_stanza s)
    else cleared (add_entries s (not (is_refused (validate_member_path s.directory))) s.entries)

unfoldable pub set_source_field : Sources → Bytes → Bytes → Sources
set_source_field s field value =
    if lowers_to field (codes "package")
    then record s { package_name = value; in_sha256_block = false }
    else if lowers_to field (codes "directory")
    then record s { directory = value; in_sha256_block = false }
    else record s { in_sha256_block = lowers_to field (codes "checksums-sha256") }

unfoldable pub read_source_header : Sources → Bytes → Option ℕ → SourceStep
read_source_header s line none = stops s malformed_header
read_source_header s line (some zero) = stops s malformed_header
read_source_header s line (some (suc i)) = goes (
    set_source_field (record s { stanza_open = true }) (trim_space (take (suc i) line))
      (trim_space (drop (suc i + 1) line)))

unfoldable pub keep_checksum : Sources → Option SourceChecksumEntry → Sources
keep_checksum s none = s
keep_checksum s (some e) = record s { entries = s.entries ++ (e ∷ []) }

unfoldable pub read_source_line : ℕ → Sources → Bytes → SourceStep
read_source_line n s [] = step_at (in_line n) (flush_source s)
read_source_line n s (c ∷ line) =
    if c == b' ' || c == 9
    then goes
        (if s.in_sha256_block then keep_checksum s (parse_sources_checksum_line (c ∷ line)) else s)
    else step_at (in_line n) (read_source_header s (c ∷ line) (index_byte b':' (c ∷ line)))

unfoldable pub read_source_lines : ℕ → Sources → List Bytes → SourceStep
read_source_lines n s [] = goes s
read_source_lines n s (l ∷ ls) =
    if leb scan_buf_cap (length l)
    then stops s line_too_long
    else then_step (read_source_line n s (drop_cr l)) (λ s'. read_source_lines (n + 1) s' ls)

unfoldable pub finish_sources : Bytes → Sources → Result (List SourceRef)
finish_sources text s =
    if length s.out == 0 && ltb 0 s.stats.paths_skipped
    then err paths_refused
    else if length s.out == 0 && not (bytes_eq (trim_space text) [])
    then err no_row_of_source
    else ok (s.out)

unfoldable pub sources_result : Bytes → SourceStep → SourcesParseStats × Result (List SourceRef)
sources_result text (goes s) = (s.stats, finish_sources text s)
sources_result text (stops s e) = (s.stats, err e)

unfoldable pub parse_sources : Bytes → SourcesParseStats × Result (List SourceRef)
parse_sources text = sources_result text (
    then_step (read_source_lines 1 no_sources (raw_lines text))
      (λ s. step_at in_tail (flush_source s)))
