-- ===== src/Freshness/Parse/Inside/Tests.antt =====
-- The walk of a concrete Filename and of a member's path.
use apt_cacher_ultra.Base.{
  ℕ, ◌<◌, ◌≡◌, refl, some, codes, bytes_eq, contains_byte, has_prefix, split, grow,
}
use apt_cacher_ultra.Freshness.Parse.Checks.{
  validate_filename, filename_segments, max_filename_bytes,
}
use apt_cacher_ultra.Freshness.Parse.Inside.{walk, validate_filename_inside}

validate_filename_inside_example :
    (n : ℕ) × (walk 0 (split b'/' (codes "./pool/a.deb")) ≡ some n) × (0 < n)
unfolding validate_filename filename_segments max_filename_bytes bytes_eq contains_byte has_prefix
    split grow
validate_filename_inside_example = validate_filename_inside (codes "./pool/a.deb") 0 refl
