-- ===== src/Proxy/Classify/Artifacts.antt =====
-- Pool artifacts are not metadata.
use apt_cacher_ultra.Base.{
  ◌≡◌, refl, ap, inl, inr, true, false, Bool-cases, Bytes, codes, bytes_eq, bytes_eq_iff, arith,
  has_prefix,
}
use apt_cacher_ultra.Cache.Newest.{is_in}
use apt_cacher_ultra.Proxy.Uri.{is_empty}
use apt_cacher_ultra.Proxy.Classify.{
  has_suffix, contains_text, any_suffix, path_base, is_pool_artifact, is_metadata,
}

-- No name of metadataExact, nor Index, is that of a pool artifact.
exact_names :
    (is_pool_artifact (codes "InRelease") ≡ false)
    × (is_pool_artifact (codes "Release") ≡ false)
    × (is_pool_artifact (codes "Release.gpg") ≡ false)
    × (is_pool_artifact (codes "Index") ≡ false)
unfolding is_pool_artifact any_suffix has_suffix contains_text has_prefix bytes_eq is_empty
exact_names = (refl, refl, refl, refl)

other_name :
    (base name : Bytes)
    → is_pool_artifact base ≡ true
    → is_pool_artifact name ≡ false
    → bytes_eq name base ≡ false
other_name base name is_one is_none = elim (Bool-cases (bytes_eq name base)) [
  | inl a ↦ cc (is_one, is_none, ap is_pool_artifact ((bytes_eq_iff name base).0 a))
  | inr a ↦ a
]

-- A path whose last segment is that of a pool artifact is not metadata, whatever the prefix of the segment,
-- unless the path has a by-hash directory.
pub is_pool_artifact-is_metadata :
    (p : Bytes)
    → contains_text p (codes "/by-hash/") ≡ false
    → is_pool_artifact (path_base p) ≡ true
    → is_metadata p ≡ false
unfolding is_metadata is_in
is_pool_artifact-is_metadata p plain artifact =
    let (a, b, c, d) = exact_names in
    let base = path_base p in
    let index : bytes_eq base (codes "Index") ≡ false =
      elim (Bool-cases (bytes_eq base (codes "Index"))) [
        | inl e ↦ cc (artifact, d, ap is_pool_artifact ((bytes_eq_iff base (codes "Index")).0 e))
        | inr e ↦ e
      ] in
    ground (
      arith,
      plain,
      artifact,
      index,
      other_name base (codes "InRelease") artifact a,
      other_name base (codes "Release") artifact b,
      other_name base (codes "Release.gpg") artifact c,
    )
