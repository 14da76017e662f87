-- ===== src/Aptpath/Tests.antt =====
-- Runs of the path grammar, from the tables of suite_test.go.
use apt_cacher_ultra.Base.{
  ◌≤◌, ◌≡◌, ◌≢◌, refl, not, true, some, [], arith, length, take, Bytes, codes, split,
}
use apt_cacher_ultra.Aptpath.Sniff.{sniff_release, release_sniff_bytes, max_suite_path_bytes}
use apt_cacher_ultra.Aptpath.Encode.{apt_encode_path}
use apt_cacher_ultra.Aptpath.EncodeLaws.{percent_decode, percent_decode-apt_encode_path}
use apt_cacher_ultra.Aptpath.SniffLaws.{any_header, sniff_release_lines}
use apt_cacher_ultra.Aptpath.Canonical.{suite_path-IsCanonical}
use apt_cacher_ultra.Aptpath.Suite.{
  run_grammar, has_dists_segment, is_flat_suite_path, suite_path, is_canonical_suite_path,
  dot_clean, flat_base,
}

suite_path_nested : suite_path (codes "/a/dists/b/dists/c/InRelease") ≡ codes "/a/dists/b/dists/c"
unfolding run_grammar
suite_path_nested = refl

suite_path_no_member : suite_path (codes "/a/dists/b/dists/c") ≡ codes "/a/dists/b"
unfolding run_grammar
suite_path_no_member = refl

suite_path_twin : suite_path (codes "/core:/v1.34/deb/./Packages.gz") ≡ codes "/core:/v1.34/deb/."
unfolding run_grammar
suite_path_twin = refl

suite_path_contents : suite_path (codes "/r/Contents-udeb-arm64.xz") ≡ codes "/r"
unfolding run_grammar
suite_path_contents = refl

suite_path_root : suite_path (codes "/./InRelease") ≡ []
unfolding run_grammar
suite_path_root = refl

suite_path_pdiff : suite_path (codes "/repo/flat/Packages.diff/Index") ≡ codes "/repo/flat"
unfolding run_grammar
suite_path_pdiff = refl

dot_clean_leading : dot_clean (codes "/flat/./amd64/x.deb") ≡ codes "/flat/amd64/x.deb"
unfolding run_grammar
dot_clean_leading = refl

flat_base_twin : flat_base (codes "/repo/./.") ≡ codes "/repo/."
unfolding run_grammar
flat_base_twin = refl

abbrev nested : Bytes
nested = codes "/a/dists/b/dists/c/main/binary-amd64/Packages.gz"

nested-suite : suite_path nested ≡ codes "/a/dists/b/dists/c"
unfolding run_grammar
nested-suite = refl

nested-ne_nil : suite_path nested ≢ []
nested-ne_nil e = cc (nested-suite, e)

abbrev flat : Bytes
flat = codes "/repo/flat/./InRelease"

flat-suite : suite_path flat ≡ codes "/repo/flat/."
unfolding run_grammar
flat-suite = refl

flat-ne_nil : suite_path flat ≢ []
flat-ne_nil e = cc (flat-suite, e)

flat-length : length (suite_path flat) ≤ max_suite_path_bytes
flat-length = rw flat-suite (omega arith)

suite_path-IsCanonical_example :
    (is_canonical_suite_path (suite_path nested) ≡ true)
    × (is_flat_suite_path (suite_path nested) ≡ not (has_dists_segment nested))
suite_path-IsCanonical_example = suite_path-IsCanonical nested nested-ne_nil

percent_decode-apt_encode_path_example :
    percent_decode (apt_encode_path (codes "/a b/[1]~%")) ≡ some (codes "/a b/[1]~%")
percent_decode-apt_encode_path_example =
    percent_decode-apt_encode_path (codes "/a b/[1]~%") (omega arith)

sniff_release_lines_example :
    sniff_release (codes "Suite: x")
    ≡ some (any_header (split 10 (take release_sniff_bytes (codes "Suite: x"))))
sniff_release_lines_example = sniff_release_lines (codes "Suite: x")
