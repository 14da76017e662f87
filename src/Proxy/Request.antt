-- ===== src/Proxy/Request.antt =====
-- internal/proxy/proxy.go: Parse and canonicalize. A remap rule is the test of its regular expression, and
-- the host that it gives.
pub mod Sound
use apt_cacher_ultra.Base.{
  Bool, true, false, not, ◌&&◌, ◌||◌, ◌⊎◌, inl, inr, Option, none, some, List, [], ◌∷◌, ◌++◌,
  if◌then◌else◌, ltb, ◌==◌, Bytes, codes, bytes_eq, has_prefix, trim_suffix,
}
use apt_cacher_ultra.Aptpath.Suite.{suite_path}
use apt_cacher_ultra.Aptpath.Encode.{apt_encode_path}
use apt_cacher_ultra.Proxy.Uri.{
  ParseError, empty_uri, empty_host, invalid_path, unsupported_scheme, no_mirror_match, Parsed,
  and_then, UrlLibrary, ParsedUri, is_empty, is_web, parse_request_uri, is_https_magic,
  split_https_magic, split_host_port,
}
use apt_cacher_ultra.Proxy.Mirror.{MirrorRoute, match_mirror, join_mirror_path}
use apt_cacher_ultra.Proxy.Classify.{is_metadata}

pub record RemapRule : Type 0 where
  pub matches : Bytes → Bool
  pub canonical_host : Bytes

pub record Parser : Type 0 where
  pub remap : List RemapRule
  pub mirrors : List MirrorRoute

pub data Mode : Type 0 where
  mode_proxy mode_mirror : Mode

pub record Request : Type 0 where
  pub mode : Mode
  pub canonical_scheme : Bytes
  pub canonical_host : Bytes
  pub path : Bytes
  pub upstream_url : Bytes
  pub metadata : Bool
  pub suite : Bytes

-- The first rule that matches gives the host and the authority.
unfoldable pub remap_host : List RemapRule → Bytes → Bytes → Bytes × Bytes
remap_host [] bare port =
    if is_empty port then (bare, bare) else (bare, bare ++ (codes ":" ++ port))
remap_host (r ∷ rs) bare port =
    let later = remap_host rs bare port in
    if r.matches bare then (r.canonical_host, r.canonical_host) else later

unfoldable pub canonicalize : UrlLibrary → Parser → Bytes → Bytes × Bytes
canonicalize lib p host =
    let parts = split_host_port (lib.to_lower host) in
    remap_host p.remap (trim_suffix parts.0 (codes ".")) parts.1

unfoldable pub build_upstream_url : UrlLibrary → Bytes → Bytes → Bytes → Bytes
build_upstream_url lib scheme authority path =
    let raw = apt_encode_path path in
    lib.url_string scheme authority path
      (if bytes_eq (lib.escaped_path path raw) raw then raw else [])

unfoldable pub has_control_byte : Bytes → Bool
has_control_byte [] = false
has_control_byte (c ∷ s) = ltb c 0x20 || c == 0x7f || has_control_byte s

-- The switch: mode, scheme, host and path.
pub record Target : Type 0 where
  pub mode : Mode
  pub scheme : Bytes
  pub host : Bytes
  pub path : Bytes

unfoldable pub mirror_target : Option (MirrorRoute × Bytes) → Parsed Target
mirror_target none = inl no_mirror_match
mirror_target (some (r, rest)) = inr (record {
  mode = mode_mirror;
  scheme = r.scheme;
  host = r.host;
  path = join_mirror_path r.base_path rest;
})

unfoldable pub magic_target : Bytes × Bytes → Parsed Target
magic_target real =
    inr (record { mode = mode_proxy; scheme = codes "https"; host = real.0; path = real.1 })

unfoldable pub target_of : Parser → ParsedUri → Parsed Target
target_of p u =
    if u.absolute
    then (if is_https_magic u.host u.path
        then and_then (split_https_magic u.path) magic_target
        else inr (record { mode = mode_proxy; scheme = u.scheme; host = u.host; path = u.path }))
    else mirror_target (match_mirror p.mirrors u.path)

unfoldable pub request_of : UrlLibrary → Parser → Target → Parsed Request
request_of lib p t =
    let canon = canonicalize lib p t.host in
    if is_empty t.host
    then inl empty_host
    else if not (is_web t.scheme)
    then inl unsupported_scheme
    else if not (has_prefix t.path (codes "/"))
    then inl invalid_path
    else if has_control_byte t.path
    then inl invalid_path
    else inr (record {
      mode = t.mode;
      canonical_scheme = t.scheme;
      canonical_host = canon.0;
      path = t.path;
      upstream_url = build_upstream_url lib t.scheme canon.1 t.path;
      metadata = is_metadata t.path;
      suite = suite_path t.path;
    })

unfoldable pub parse : UrlLibrary → Parser → Bytes → Parsed Request
parse lib p raw =
    if is_empty raw
    then inl empty_uri
    else and_then (parse_request_uri lib raw) (λ u. and_then (target_of p u) (request_of lib p))
