-- ===== src/Freshness/Parse/Pdiff/Tests.antt =====
-- A run of ParsePdiffIndex, and its theorem at a concrete file.
use apt_cacher_ultra.Base.{
  ◌≡◌, refl, [], ◌∷◌, ◌++◌, Bytes, codes, raw_lines, drop_cr, fields, trim_space, equal_fold,
  fold_width, parse_int, index_byte, bytes_eq,
}
use apt_cacher_ultra.Freshness.Parse.Checks.{ok, scan_buf_cap, valid_hex_sha256}
use apt_cacher_ultra.Freshness.Parse.Pdiff.{
  PdiffPatchRef, max_pdiff_patch_entries, is_patch_name, patch_size, patch_fields,
  parse_pdiff_download_line, keep_patch, read_field, at_patch_line, read_patch_line,
  read_patch_lines, parse_pdiff_index,
}

abbrev hash : Bytes
hash = codes "aaaaaaaaaaaaaaaaaaaaaaaaaaaaaaaaaaaaaaaaaaaaaaaaaaaaaaaaaaaaaaaa"

-- A patch, and a name that is none.
abbrev index : Bytes
index =
    codes "SHA256-Current: x\nsha256-download:\n "
    ++ (hash ++ (codes " 9 2026-05-09.gz\n " ++ (hash ++ codes " 9 ../x.gz\n")))

abbrev patch : PdiffPatchRef
patch = record { filename = codes "2026-05-09.gz"; sha256 = hash; size = 9 }

parse_pdiff_index_run : parse_pdiff_index index ≡ ok (patch ∷ [])
unfolding parse_pdiff_index read_patch_lines read_patch_line at_patch_line read_field keep_patch
    parse_pdiff_download_line patch_fields patch_size is_patch_name max_pdiff_patch_entries
    scan_buf_cap valid_hex_sha256 raw_lines drop_cr fields trim_space equal_fold fold_width
    parse_int index_byte bytes_eq
parse_pdiff_index_run = refl
