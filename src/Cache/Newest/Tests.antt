-- ===== src/Cache/Newest/Tests.antt =====
-- Runs of keepNewestNVersionSet, and its theorems at concrete versions.
use apt_cacher_ultra.Base.{
  bytes_lt, ◌≤◌, ◌≡◌, ◌⊎◌, refl, true, false, arith, List, [], ◌∷◌, All, length, Bytes, codes,
  bytes_eq, pos,
}
use apt_cacher_ultra.Debversion.{compare}
use apt_cacher_ultra.Cache.Newest.{
  result_of, version_cmp, clamp_versions, is_in, distinct, newer_first, insert_version,
  sort_versions, crossed, keep_loop, keep_newest, keep_newest_n_version_set,
}
use apt_cacher_ultra.Cache.Newest.Versions.{nonneg}
use apt_cacher_ultra.Cache.Newest.Classes.{
  IsStrict, has_equal, keep_newest_upward, keep_newest_classes,
}

-- 1.0 and 1.0-0 are equal versions.
abbrev versions : List Bytes
versions = codes "1.0" ∷ codes "2.0" ∷ codes "0.9" ∷ codes "1.0-0" ∷ codes "2.0" ∷ []

two_classes :
    keep_newest_n_version_set versions (pos 2) ≡ codes "2.0" ∷ codes "1.0" ∷ codes "1.0-0" ∷ []
unfolding keep_newest_n_version_set keep_newest keep_loop sort_versions insert_version newer_first
    bytes_lt distinct is_in crossed clamp_versions version_cmp result_of compare bytes_eq
two_classes = refl

keep_newest_upward_example :
    is_in (codes "1.0-0") (keep_newest_n_version_set versions (pos 2)) ≡ true
unfolding keep_newest_n_version_set keep_newest keep_loop sort_versions insert_version newer_first
    bytes_lt distinct is_in crossed clamp_versions version_cmp result_of compare bytes_eq
keep_newest_upward_example =
    keep_newest_upward versions (pos 2) (codes "1.0") (codes "1.0-0") (omega arith) refl refl refl

keep_newest_classes_example :
    (reps : List Bytes) × IsStrict reps
    × All (λ r. is_in r (keep_newest_n_version_set versions (pos 2)) ≡ true) reps
    × All (λ v. has_equal reps v ≡ true) (keep_newest_n_version_set versions (pos 2))
    × (length reps ≤ clamp_versions (pos 2))
    × All
        (λ w.
          (is_in w (keep_newest_n_version_set versions (pos 2)) ≡ true)
          ⊎ ((length reps ≡ clamp_versions (pos 2))
              × All
                  (λ v. nonneg (version_cmp w v) ≡ false)
                  (keep_newest_n_version_set versions (pos 2))))
        versions
    × All (λ v. is_in v versions ≡ true) (keep_newest_n_version_set versions (pos 2))
keep_newest_classes_example = keep_newest_classes versions (pos 2) (omega arith)
