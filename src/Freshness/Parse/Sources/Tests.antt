-- ===== src/Freshness/Parse/Sources/Tests.antt =====
-- A run of ParseSources, and its theorem at it.
use apt_cacher_ultra.Base.{
  ◌≡◌, refl, [], ◌∷◌, ◌++◌, Bytes, codes, raw_lines, drop_cr, fields, trim_space, lowers_to,
  lower_width, parse_int, index_byte, bytes_eq, contains_byte, has_prefix, split, grow, tag_from,
  cut_spaces, drop_empty, space_width,
}
use apt_cacher_ultra.Freshness.Parse.Checks.{
  ok, scan_buf_cap, valid_hex_sha256, validate_member_path, check_segments,
}
use apt_cacher_ultra.Freshness.Parse.Sources.{
  SourceRef, max_source_stanzas, checksum_fields, parse_sources_checksum_line, is_bad_name,
  is_refused, skip_path, add_path, add_entry, add_entries, clear_stanza, count_stanza, flush_source,
  set_source_field, read_source_header, keep_checksum, read_source_line, read_source_lines,
  finish_sources, sources_result, parse_sources,
}

abbrev hash : Bytes
hash = codes "aaaaaaaaaaaaaaaaaaaaaaaaaaaaaaaaaaaaaaaaaaaaaaaaaaaaaaaaaaaaaaaa"

-- A package with one good file and one whose name is a path, and a package with a bad directory.
abbrev two_stanzas : Bytes
two_stanzas =
    codes "Package: a\nDirectory: pool/a\nChecksums-Sha256:\n "
    ++ (hash
        ++ (codes " 5 a.dsc\n "
            ++ (hash
                ++ (codes " 5 x/a.dsc\n\nPackage: b\nDirectory: ./b\nChecksums-Sha256:\n "
                    ++ (hash ++ codes " 7 b.dsc\n")))))

abbrev row : SourceRef
row = record { path = codes "pool/a/a.dsc"; sha256 = hash; size = 5; package_name = codes "a" }

parse_sources_run : parse_sources two_stanzas ≡ (
  record { stanza_count = 2; paths_skipped = 1; first_skipped = codes "./b/b.dsc" },
  ok (row ∷ []),
)
unfolding parse_sources sources_result finish_sources read_source_lines read_source_line
    read_source_header set_source_field keep_checksum parse_sources_checksum_line checksum_fields
    flush_source count_stanza clear_stanza add_entries add_entry add_path skip_path is_refused
    is_bad_name max_source_stanzas scan_buf_cap valid_hex_sha256 validate_member_path check_segments
    raw_lines drop_cr fields trim_space lowers_to lower_width parse_int index_byte bytes_eq
    contains_byte has_prefix split grow tag_from cut_spaces drop_empty space_width
parse_sources_run = refl
