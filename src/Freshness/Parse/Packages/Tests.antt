-- ===== src/Freshness/Parse/Packages/Tests.antt =====
-- A run of ParsePackages, and its theorem at a concrete file.
use apt_cacher_ultra.Base.{
  ◌+◌, ◌≤◌, ◌≡◌, ◌≢◌, refl, [], ◌∷◌, ◌++◌, length, All, Bytes, codes, raw_lines, drop_cr,
  trim_space, lowers_to, lower_width, parse_int, index_byte, bytes_eq, contains_byte, has_prefix,
  split, grow,
}
use apt_cacher_ultra.Freshness.Parse.Checks.{
  ok, scan_buf_cap, valid_hex_sha256, validate_filename, filename_segments, max_filename_bytes,
}
use apt_cacher_ultra.Freshness.Parse.Packages.{
  PackageRef, max_package_stanzas, is_full, flush_gap, flush_named, flush, located, set_size,
  set_field, read_header, read_stanza_line, read_stanzas, no_row, no_gap, finish_packages,
  parse_packages,
}
use apt_cacher_ultra.Freshness.Parse.Packages.Rows.{IsGoodRow, parse_packages_sound}

abbrev hash : Bytes
hash = codes "aaaaaaaaaaaaaaaaaaaaaaaaaaaaaaaaaaaaaaaaaaaaaaaaaaaaaaaaaaaaaaaa"

-- A package with a hash, and one with none.
abbrev two_stanzas : Bytes
two_stanzas =
    codes "Package: a\nFilename: ./a.deb\nSize: 5\nSHA256: "
    ++ (hash ++ codes "\n\nPackage: b\nfilename:b.deb\n")

abbrev row : PackageRef
row = record {
  filename = codes "./a.deb";
  sha256 = hash;
  size = 5;
  package_name = codes "a";
  architecture = [];
  version = [];
}

parse_packages_run : parse_packages two_stanzas ≡ ok (row ∷ [], codes "b.deb" ∷ [])
unfolding parse_packages finish_packages no_row no_gap read_stanzas read_stanza_line read_header
    set_field set_size located flush flush_named flush_gap is_full max_package_stanzas scan_buf_cap
    valid_hex_sha256 validate_filename filename_segments max_filename_bytes raw_lines drop_cr
    trim_space lowers_to lower_width parse_int index_byte bytes_eq contains_byte has_prefix split
    grow
parse_packages_run = refl

parse_packages_sound_example :
    All IsGoodRow (row ∷ [])
    × All (λ f. f ≢ []) (codes "b.deb" ∷ [])
    × (length (row ∷ []) + length (codes "b.deb" ∷ []) ≤ max_package_stanzas)
parse_packages_sound_example =
    parse_packages_sound two_stanzas (row ∷ []) (codes "b.deb" ∷ []) parse_packages_run
