-- ===== src/Proxy/Uri.antt =====
-- internal/proxy/url.go. url.Parse and strings.ToLower are functions that the caller gives.
pub mod Splits
use apt_cacher_ultra.Base.{
  ℕ, suc, ◌+◌, Bool, true, false, not, ◌&&◌, ◌||◌, ◌⊎◌, inl, inr, Option, none, some, [], ◌∷◌, take,
  drop, if◌then◌else◌, ◌==◌, Bytes, codes, bytes_eq, has_prefix, cut_prefix, index_byte,
  last_index_byte, equal_fold,
}

pub data ParseError : Type 0 where
  empty_uri invalid_uri unsupported_scheme : ParseError
  empty_host invalid_path no_mirror_match invalid_https_magic : ParseError

abbrev pub Parsed : Type 0 → Type 0
Parsed A = ParseError ⊎ A

unfoldable pub and_then : {A B : Type 0} → Parsed A → (A → Parsed B) → Parsed B
and_then (inl e) f = inl e
and_then (inr a) f = f a

-- The fields of url.URL that are read.
pub record Url : Type 0 where
  pub scheme : Bytes
  pub host : Bytes
  pub path : Bytes
  pub raw_query : Bytes
  pub fragment : Bytes
  pub has_user : Bool

-- What net/url and strings give: Parse, String and EscapedPath of a URL by its scheme, host, path and raw
-- path, and ToLower.
pub record UrlLibrary : Type 0 where
  pub parse_url : Bytes → Option Url
  pub url_string : Bytes → Bytes → Bytes → Bytes → Bytes
  pub escaped_path : Bytes → Bytes → Bytes
  pub to_lower : Bytes → Bytes

pub record ParsedUri : Type 0 where
  pub absolute : Bool
  pub scheme : Bytes
  pub host : Bytes
  pub path : Bytes

unfoldable pub is_empty : Bytes → Bool
is_empty [] = true
is_empty (c ∷ s) = false

abbrev pub is_web : Bytes → Bool
is_web scheme = bytes_eq scheme (codes "http") || bytes_eq scheme (codes "https")

unfoldable pub mirror_uri : Option Url → Parsed ParsedUri
mirror_uri none = inl invalid_uri
mirror_uri (some u) =
    if not (is_empty u.scheme) || not (is_empty u.host)
    then inl invalid_uri
    else if not (is_empty u.raw_query)
    then inl invalid_uri
    else if not (is_empty u.fragment)
    then inl invalid_uri
    else inr (record { absolute = false; scheme = []; host = []; path = u.path })

unfoldable pub absolute_uri : UrlLibrary → Option Url → Parsed ParsedUri
absolute_uri lib none = inl invalid_uri
absolute_uri lib (some u) =
    let scheme = lib.to_lower u.scheme in
    if is_empty u.scheme
    then inl invalid_uri
    else if not (is_web scheme)
    then inl unsupported_scheme
    else if u.has_user
    then inl invalid_uri
    else if not (is_empty u.raw_query)
    then inl invalid_uri
    else if not (is_empty u.fragment)
    then inl invalid_uri
    else inr (record {
      absolute = true;
      scheme = scheme;
      host = u.host;
      path = if is_empty u.path then codes "/" else u.path;
    })

unfoldable pub parse_request_uri : UrlLibrary → Bytes → Parsed ParsedUri
parse_request_uri lib raw =
    if has_prefix raw (codes "/")
    then mirror_uri (lib.parse_url raw)
    else absolute_uri lib (lib.parse_url raw)

unfoldable pub is_https_magic : Bytes → Bytes → Bool
is_https_magic host path = equal_fold host (codes "HTTPS") && has_prefix path (codes "///")

-- What follows the three slashes, split at its first slash.
unfoldable pub magic_parts : Bytes → Option ℕ → Parsed (Bytes × Bytes)
magic_parts rest none = inr (rest, codes "/")
magic_parts rest (some i) =
    if is_empty (take i rest) then inl invalid_https_magic else inr (take i rest, drop i rest)

unfoldable pub magic_rest : Bytes → Parsed (Bytes × Bytes)
magic_rest rest =
    if is_empty rest then inl invalid_https_magic else magic_parts rest (index_byte b'/' rest)

unfoldable pub split_https_magic : Bytes → Parsed (Bytes × Bytes)
split_https_magic path = elim (cut_prefix path (codes "///")) [
  | some rest ↦ magic_rest rest
  | none ↦ magic_rest path
]

-- A port behind the bracket at place i.
unfoldable pub bracket_port : Bytes → Bytes
bracket_port [] = []
bracket_port (c ∷ s) = if c == b':' then s else []

unfoldable pub split_bracketed : Bytes → Option ℕ → Bytes × Bytes
split_bracketed host none = (host, [])
split_bracketed host (some i) = (take (i + 1) host, bracket_port (drop (i + 1) host))

unfoldable pub split_last_colon : Bytes → Option ℕ → Bytes × Bytes
split_last_colon host none = (host, [])
split_last_colon host (some i) = (take i host, drop (i + 1) host)

unfoldable pub split_host_port : Bytes → Bytes × Bytes
split_host_port [] = ([], [])
split_host_port (c ∷ s) =
    if c == b'['
    then split_bracketed (c ∷ s) (index_byte b']' (c ∷ s))
    else split_last_colon (c ∷ s) (last_index_byte b':' (c ∷ s))

unfoldable pub strip_port : Bytes → Bytes
strip_port host = (split_host_port host).0
