-- ===== src/Proxy/Uri/Splits.antt =====
-- What the splits give back: the host and path behind HTTPS///, and the host and the port.
use apt_cacher_ultra.Base.{
  ℕ, ◌≡◌, ◌≢◌, refl, ap, inr, false, none, [], ◌∷◌, ◌++◌, drop, length, ◌==◌, Bytes, codes,
  index_byte, last_index_byte, cut_prefix, take-length, drop-length, index_byte-append,
  last_index_byte-append,
}
use apt_cacher_ultra.Proxy.Uri.{
  is_empty, magic_parts, magic_rest, split_https_magic, split_last_colon, split_host_port,
  strip_port,
}

drop_all : (s t : Bytes) → drop (length s) (s ++ t) ≡ t
drop_all [] t = refl
drop_all (c ∷ s) t = drop_all s t

-- The path of a magic URL that names a host without a slash, and a path, splits into the two.
pub split_https_magic_joined :
    (host path : Bytes)
    → host ≢ []
    → index_byte b'/' host ≡ none
    → split_https_magic (codes "///" ++ (host ++ (b'/' ∷ path))) ≡ inr (host, b'/' ∷ path)
unfolding split_https_magic cut_prefix magic_rest is_empty magic_parts
split_https_magic_joined [] path some_host free = absurd (some_host refl)
split_https_magic_joined (c ∷ host) path some_host free =
    rw
      (
        index_byte-append b'/' (c ∷ host) path free,
        take-length (c ∷ host) (b'/' ∷ path),
        drop_all (c ∷ host) (b'/' ∷ path),
      )
      refl

-- A host that does not begin with a bracket, a colon and a port with no colon split into the two, and
-- stripPort leaves the host.
pub split_host_port_joined :
    (c : ℕ) (host port : Bytes)
    → (c == b'[') ≡ false
    → last_index_byte b':' port ≡ none
    → (split_host_port ((c ∷ host) ++ (b':' ∷ port)) ≡ (c ∷ host, port))
      × (strip_port ((c ∷ host) ++ (b':' ∷ port)) ≡ c ∷ host)
unfolding split_host_port strip_port split_last_colon
split_host_port_joined c host port open_bracket free =
    let both : split_host_port ((c ∷ host) ++ (b':' ∷ port)) ≡ (c ∷ host, port) =
      rw
        (
          open_bracket,
          last_index_byte-append b':' (c ∷ host) port free,
          take-length (c ∷ host) (b':' ∷ port),
          drop-length (c ∷ host) b':' port,
        )
        refl in
    (both, ap (λ (r : Bytes × Bytes). r.0) both)
