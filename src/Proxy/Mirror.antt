-- ===== src/Proxy/Mirror.antt =====
-- internal/proxy/remap.go: mirror routes, as they are once compiled.
pub mod Matches
use apt_cacher_ultra.Base.{
  Bool, true, false, ◌||◌, Option, none, some, List, [], ◌∷◌, ◌++◌, if◌then◌else◌, ◌==◌, Bytes,
  codes, bytes_eq, cut_prefix, trim_right,
}
use apt_cacher_ultra.Proxy.Uri.{is_empty}

pub record MirrorRoute : Type 0 where
  pub prefix : Bytes
  pub scheme : Bytes
  pub host : Bytes
  pub base_path : Bytes

-- What follows the prefix in the path, when it begins with a slash.
unfoldable pub slash_rest : Option Bytes → Option Bytes
slash_rest (some (c ∷ s)) = if c == b'/' then some (c ∷ s) else none
slash_rest (some []) = none
slash_rest none = none

-- The remainder of the path behind a route's prefix, if the route matches.
unfoldable pub match_route : MirrorRoute → Bytes → Option Bytes
match_route r path =
    if bytes_eq r.prefix (codes "/")
    then some path
    else if bytes_eq path r.prefix
    then some []
    else slash_rest (cut_prefix path r.prefix)

unfoldable pub match_mirror : List MirrorRoute → Bytes → Option (MirrorRoute × Bytes)
match_mirror [] path = none
match_mirror (r ∷ rs) path =
    let later = match_mirror rs path in
    elim (match_route r path) [ some rest ↦ some (r, rest) | none ↦ later ]

unfoldable pub join_mirror_path : Bytes → Bytes → Bytes
join_mirror_path base rest =
    if is_empty base || bytes_eq base (codes "/")
    then (if is_empty rest then codes "/" else rest)
    else trim_right (codes "/") base ++ rest
