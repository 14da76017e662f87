-- ===== src/Proxy/Setup.antt =====
-- internal/proxy/remap.go and New: the rules and routes that a parser is built from. regexp.Compile is a
-- function that the caller gives; the built-in expressions, which are constants, are tests by clauses.
pub mod Builtin
use apt_cacher_ultra.Base.{
  ℕ, Bool, true, false, not, ◌&&◌, ◌||◌, Option, none, some, List, [], ◌∷◌, ◌++◌, if◌then◌else◌,
  leb, ◌==◌, Bytes, codes, bytes_eq, has_prefix, cut_prefix, trim_right,
}
use apt_cacher_ultra.Proxy.Uri.{Url, UrlLibrary, is_empty, is_web}
use apt_cacher_ultra.Proxy.Mirror.{MirrorRoute}
use apt_cacher_ultra.Proxy.Request.{RemapRule, Parser}

-- `[a-z]`.
unfoldable pub is_lower : ℕ → Bool
is_lower c = leb b'a' c && leb c b'z'

-- `^([a-z]{2}\.)?text$`.
unfoldable pub behind_geo : Bytes → Bytes → Bool
behind_geo text (a ∷ b ∷ c ∷ s) = is_lower a && (is_lower b && (c == b'.' && bytes_eq s text))
behind_geo text _ = false

unfoldable pub is_geo : Bytes → Bytes → Bool
is_geo text host = bytes_eq host text || behind_geo text host

-- `^(ftp\.)?[a-z]{2}\.debian\.org$`.
unfoldable pub is_country : Bytes → Bool
is_country (a ∷ b ∷ s) = is_lower a && (is_lower b && bytes_eq s (codes ".debian.org"))
is_country _ = false

unfoldable pub behind_ftp : Option Bytes → Bool
behind_ftp none = false
behind_ftp (some s) = is_country s

unfoldable pub is_debian_mirror : Bytes → Bool
is_debian_mirror host = is_country host || behind_ftp (cut_prefix host (codes "ftp."))

abbrev pub builtin_remap_rules : List RemapRule
builtin_remap_rules =
    record {
      matches = is_geo (codes "archive.ubuntu.com");
      canonical_host = codes "archive.ubuntu.com";
    }
    ∷ record {
      matches = is_geo (codes "security.ubuntu.com");
      canonical_host = codes "security.ubuntu.com";
    }
    ∷ record {
      matches = is_geo (codes "ports.ubuntu.com");
      canonical_host = codes "ports.ubuntu.com";
    }
    ∷ record { matches = is_debian_mirror; canonical_host = codes "deb.debian.org" }
    ∷ record {
      matches = λ h. bytes_eq h (codes "deb.debian.org");
      canonical_host = codes "deb.debian.org";
    }
    ∷ record {
      matches = λ h. bytes_eq h (codes "security.debian.org");
      canonical_host = codes "security.debian.org";
    }
    ∷ []

-- config.RemapRule and config.MirrorRule.
pub record UserRule : Type 0 where
  pub match_host_regex : Bytes
  pub canonical_host : Bytes

pub record MirrorRule : Type 0 where
  pub prefix : Bytes
  pub upstream : Bytes

unfoldable pub keep_rule :
    Option (Bytes → Bool) → Bytes → Option (List RemapRule) → Option (List RemapRule)
keep_rule (some matches) host (some rules) =
    some (record { matches = matches; canonical_host = host } ∷ rules)
keep_rule _ _ _ = none

unfoldable pub compile_remap_rules :
    (Bytes → Option (Bytes → Bool)) → List UserRule → Option (List RemapRule)
compile_remap_rules regexp [] = some []
compile_remap_rules regexp (r ∷ rs) =
    let rest = compile_remap_rules regexp rs in
    if is_empty r.match_host_regex
    then none
    else if is_empty r.canonical_host
    then none
    else keep_rule (regexp r.match_host_regex) r.canonical_host rest

unfoldable pub or_root : Bytes → Bytes
or_root [] = codes "/"
or_root (c ∷ s) = c ∷ s

unfoldable pub compile_route : UrlLibrary → Bytes → Option Url → Option MirrorRoute
compile_route lib prefix none = none
compile_route lib prefix (some u) =
    let scheme = lib.to_lower u.scheme in
    if not (is_web scheme)
    then none
    else if is_empty u.host
    then none
    else if u.has_user
    then none
    else if not (is_empty u.raw_query)
    then none
    else if not (is_empty u.fragment)
    then none
    else some (record {
      prefix = or_root (trim_right (codes "/") prefix);
      scheme = scheme;
      host = lib.to_lower u.host;
      base_path = or_root u.path;
    })

unfoldable pub keep_route :
    Option MirrorRoute → Option (List MirrorRoute) → Option (List MirrorRoute)
keep_route (some r) (some rs) = some (r ∷ rs)
keep_route _ _ = none

unfoldable pub compile_mirror_routes : UrlLibrary → List MirrorRule → Option (List MirrorRoute)
compile_mirror_routes lib [] = some []
compile_mirror_routes lib (r ∷ rs) =
    let rest = compile_mirror_routes lib rs in
    if not (has_prefix r.prefix (codes "/"))
    then none
    else if is_empty r.upstream
    then none
    else keep_route (compile_route lib r.prefix (lib.parse_url r.upstream)) rest

unfoldable pub new_parser_of : Option (List RemapRule) → Option (List MirrorRoute) → Option Parser
new_parser_of (some rules) (some routes) =
    some (record { remap = rules ++ builtin_remap_rules; mirrors = routes })
new_parser_of _ _ = none

-- New. An error is none.
unfoldable pub new_parser :
    UrlLibrary → (Bytes → Option (Bytes → Bool)) → List UserRule → List MirrorRule → Option Parser
new_parser lib regexp remap mirror =
    new_parser_of (compile_remap_rules regexp remap) (compile_mirror_routes lib mirror)
