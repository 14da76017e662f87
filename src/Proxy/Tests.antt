-- ===== src/Proxy/Tests.antt =====
-- Requests, routes and names at concrete texts. The URL library is that of a test: it reads
-- http://host/path.
use apt_cacher_ultra.Base.{
  ◌≡◌, refl, inr, true, false, Option, none, some, [], ◌∷◌, ◌++◌, take, drop, Bytes, codes,
  bytes_eq, cut_prefix, index_byte, has_prefix, last_index_byte, trim_right, equal_fold, fold_width,
}
use apt_cacher_ultra.Aptpath.Suite.{suite_path}
use apt_cacher_ultra.Proxy.Uri.{
  Url, UrlLibrary, split_host_port, strip_port, parse_request_uri, absolute_uri, and_then, is_empty,
  is_https_magic,
}
use apt_cacher_ultra.Proxy.Mirror.{MirrorRoute, match_mirror, match_route, slash_rest}
use apt_cacher_ultra.Proxy.Classify.{
  contains_text, is_pool_artifact, path_base, is_metadata, any_suffix, has_suffix, behind_slash,
  or_slash,
}
use apt_cacher_ultra.Proxy.Request.{
  Parser, Request, mode_proxy, parse, target_of, request_of, canonicalize, build_upstream_url,
  has_control_byte, remap_host,
}
use apt_cacher_ultra.Proxy.Setup.{
  builtin_remap_rules, is_geo, behind_geo, is_lower, is_debian_mirror, is_country, behind_ftp,
}
use apt_cacher_ultra.Proxy.Setup.Builtin.{remap_host_twice}
use apt_cacher_ultra.Proxy.Uri.Splits.{split_host_port_joined}
use apt_cacher_ultra.Proxy.Request.Sound.{IsSound, parse-IsSound}

split_host_port_joined_example :
    (split_host_port (codes "localhost" ++ codes ":3142") ≡ (codes "localhost", codes "3142"))
    × (strip_port (codes "localhost" ++ codes ":3142") ≡ codes "localhost")
unfolding last_index_byte
split_host_port_joined_example =
    split_host_port_joined b'l' (codes "ocalhost") (codes "3142") refl refl

abbrev ubuntu : MirrorRoute
ubuntu = record {
  prefix = codes "/ubuntu";
  scheme = codes "http";
  host = codes "archive.ubuntu.com";
  base_path = codes "/ubuntu/";
}

abbrev debian : MirrorRoute
debian = record {
  prefix = codes "/debian";
  scheme = codes "http";
  host = codes "deb.debian.org";
  base_path = codes "/debian";
}

taken : match_mirror (ubuntu ∷ debian ∷ []) (codes "/debian/dists") ≡ some (debian, codes "/dists")
unfolding match_mirror match_route slash_rest cut_prefix bytes_eq
taken = refl

abbrev deb : Bytes
deb = codes "/pool/icons-x_1_all.deb"

no_by_hash : contains_text deb (codes "/by-hash/") ≡ false
unfolding contains_text has_prefix is_empty
no_by_hash = refl

is_artifact : is_pool_artifact (path_base deb) ≡ true
unfolding is_pool_artifact path_base any_suffix has_suffix behind_slash or_slash bytes_eq trim_right
    last_index_byte is_empty
is_artifact = refl

abbrev read_url : Option Bytes → Option Url
read_url none = none
read_url (some s) = elim (index_byte b'/' s) [
  | none ↦ none
  | some i ↦ some (record {
    scheme = codes "http";
    host = take i s;
    path = drop i s;
    raw_query = [];
    fragment = [];
    has_user = false;
  })
]

abbrev test_library : UrlLibrary
test_library = record {
  parse_url = λ raw. read_url (cut_prefix raw (codes "http://"));
  url_string = λ scheme host path raw. scheme ++ (codes "://" ++ (host ++ raw));
  escaped_path = λ path raw. raw;
  to_lower = λ s. s;
}

abbrev no_rules : Parser
no_rules = record { remap = []; mirrors = [] }

abbrev the_request : Request
the_request = record {
  mode = mode_proxy;
  canonical_scheme = codes "http";
  canonical_host = (canonicalize test_library no_rules (codes "a.org")).0;
  path = codes "/x";
  upstream_url =
      build_upstream_url test_library (codes "http")
        (canonicalize test_library no_rules (codes "a.org")).1 (codes "/x");
  metadata = is_metadata (codes "/x");
  suite = suite_path (codes "/x");
}

parsed_request : parse test_library no_rules (codes "http://a.org/x") ≡ inr the_request
unfolding parse is_empty and_then parse_request_uri has_prefix absolute_uri cut_prefix index_byte
    bytes_eq target_of is_https_magic equal_fold fold_width request_of has_control_byte
parsed_request = refl

parse-IsSound_example : IsSound test_library no_rules the_request
parse-IsSound_example =
    parse-IsSound test_library no_rules (codes "http://a.org/x") the_request parsed_request

remap_host_twice_example :
    (remap_host builtin_remap_rules
      (remap_host builtin_remap_rules (codes "us.archive.ubuntu.com") []).0
      []).0
    ≡ (remap_host builtin_remap_rules (codes "us.archive.ubuntu.com") []).0
remap_host_twice_example = remap_host_twice (codes "us.archive.ubuntu.com") []

-- A country's mirror of Debian is the archive.
debian_country :
    (remap_host builtin_remap_rules (codes "ftp.us.debian.org") []).0 ≡ codes "deb.debian.org"
unfolding remap_host is_geo behind_geo is_lower is_debian_mirror is_country behind_ftp cut_prefix
    bytes_eq
debian_country = refl
