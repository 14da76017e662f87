-- ===== src/Freshness/Parse/Release/Tests.antt =====
-- Runs of ParseRelease, and its theorems at concrete files.
use apt_cacher_ultra.Base.{
  ◌≤◌, ◌≡◌, ◌≢◌, refl, inr, true, [], ◌∷◌, ◌++◌, length, All, Bytes, codes, raw_lines, drop_cr,
  fields, trim_right, keep_front, parse_int, bytes_eq, contains_byte, has_prefix, split, grow,
  equal_fold, trim_space, index_byte, fold_width,
}
use apt_cacher_ultra.Freshness.Parse.Checks.{
  ParseError, ok, err, in_line, bad_path, parent_segment, scan_buf_cap, valid_hex_sha256,
  validate_member_path, check_segments, is_metadata_self_path,
}
use apt_cacher_ultra.Freshness.Parse.Release.{
  ReleaseMember, max_release_members, valid_for, entry_member, with_path, with_size, entry_fields,
  parse_release_hash_line, lookup, change_at, seen, see, set_hash, merge_at, merge, same_entry,
  keep_new, hash_of, keep_entry, parsed_entry, is_outside, header, read_line, read_lines, finish,
  parse_release, parse_acquire_by_hash, by_hash_lines, by_hash_line, by_hash_header, cut_colon,
}
use apt_cacher_ultra.Freshness.Parse.Release.Members.{IsGoodMember, IsDistinct}
use apt_cacher_ultra.Freshness.Parse.Release.Whole.{parse_release_sound}
use apt_cacher_ultra.Freshness.Parse.Release.Malformed.{
  is_malformed, block_behind, block_after, block_named, are_entry_fields, is_size, is_good_path,
  parse_release_malformed,
}

abbrev hash : Bytes
hash = codes "aaaaaaaaaaaaaaaaaaaaaaaaaaaaaaaaaaaaaaaaaaaaaaaaaaaaaaaaaaaaaaaa"

-- One member in a SHA256 block, between the file's own entry and an MD5 block.
abbrev one_member : Bytes
one_member =
    codes "Suite: sid\nSHA256:\n "
    ++ (hash
        ++ (codes " 188 Release\n " ++ (hash ++ codes "  1024 main/Packages\nMD5Sum:\n x 1 y\n")))

abbrev packages_member : ReleaseMember
packages_member = record { path = codes "main/Packages"; sha256 = hash; sha512 = []; size = 1024 }

parse_release_run : parse_release one_member ≡ ok (packages_member ∷ [])
unfolding parse_release read_lines read_line header is_outside parsed_entry keep_entry hash_of
    keep_new same_entry merge merge_at set_hash see seen change_at lookup parse_release_hash_line
    entry_fields with_size with_path entry_member valid_for finish scan_buf_cap valid_hex_sha256
    validate_member_path check_segments is_metadata_self_path raw_lines drop_cr fields trim_right
    keep_front parse_int bytes_eq contains_byte has_prefix split grow max_release_members
parse_release_run = refl

parse_release_sound_example :
    All IsGoodMember (packages_member ∷ [])
    × IsDistinct (packages_member ∷ [])
    × ((packages_member ∷ []) ≢ [])
    × (length (packages_member ∷ []) ≤ max_release_members)
parse_release_sound_example =
    parse_release_sound one_member (packages_member ∷ []) parse_release_run

-- The second line climbs out of the suite.
abbrev climbing : Bytes
climbing = codes "SHA256:\n " ++ (hash ++ codes " 7 ../passwd\n")

climbing_run : parse_release climbing ≡ err (in_line 2 (bad_path parent_segment))
unfolding parse_release read_lines read_line header is_outside parsed_entry parse_release_hash_line
    entry_fields with_size with_path valid_for scan_buf_cap valid_hex_sha256 validate_member_path
    check_segments raw_lines drop_cr fields trim_right keep_front parse_int bytes_eq contains_byte
    has_prefix split grow
climbing_run = refl

parse_release_malformed_example : (e : ParseError) × (parse_release climbing ≡ err e)
unfolding is_malformed block_behind block_after block_named are_entry_fields is_size is_good_path
    is_outside valid_for valid_hex_sha256 validate_member_path check_segments raw_lines drop_cr
    fields trim_right keep_front parse_int bytes_eq contains_byte has_prefix split grow
parse_release_malformed_example =
    parse_release_malformed climbing (codes "SHA256:" ∷ []) []
      (codes " " ++ (hash ++ codes " 7 ../passwd")) refl (inr refl)

by_hash_run : parse_acquire_by_hash (codes "Suite: sid\nacquire-by-hash:  Yes\n") ≡ true
unfolding parse_acquire_by_hash by_hash_lines by_hash_line by_hash_header cut_colon scan_buf_cap
    raw_lines drop_cr equal_fold trim_space index_byte fold_width
by_hash_run = refl
