-- ===== src/Proxy/Request/Sound.antt =====
-- What every request that Parse returns is.
use apt_cacher_ultra.Base.{
  ◌≡◌, ◌≢◌, refl, inl, inr, true, false, [], Bool-cases, Bytes, codes, subst, has_prefix,
}
use apt_cacher_ultra.Aptpath.Suite.{is_canonical_suite_path}
use apt_cacher_ultra.Aptpath.Canonical.{suite_path-IsCanonical}
use apt_cacher_ultra.Proxy.Uri.{Parsed, and_then, UrlLibrary, is_empty, is_web, parse_request_uri}
use apt_cacher_ultra.Proxy.Classify.{is_metadata}
use apt_cacher_ultra.Proxy.Request.{
  Parser, Target, Request, target_of, request_of, has_control_byte, parse, canonicalize,
  build_upstream_url,
}

-- Its scheme and path are fine, and what it says of the path is what the path's readers say.
pub record IsSound (lib : UrlLibrary) (p : Parser) (r : Request) : Type 0 where
  pub web : is_web r.canonical_scheme ≡ true
  pub rooted : has_prefix r.path (codes "/") ≡ true
  pub plain : has_control_byte r.path ≡ false
  pub same_kind : r.metadata ≡ is_metadata r.path
  pub canonical_suite : r.suite ≢ [] → is_canonical_suite_path r.suite ≡ true
  pub named :
      (h : Bytes) × (is_empty h ≡ false)
      × (r.canonical_host ≡ (canonicalize lib p h).0)
      × (r.upstream_url ≡ build_upstream_url lib r.canonical_scheme (canonicalize lib p h).1 r.path)

-- What is said of a result: of an error nothing.
Fine : UrlLibrary → Parser → Parsed Request → Type 0
Fine lib p (inl e) = Unit
Fine lib p (inr r) = IsSound lib p r

request_of-Fine : (lib : UrlLibrary) (p : Parser) (t : Target) → Fine lib p (request_of lib p t)
unfolding request_of Fine
request_of-Fine lib p t = elim (Bool-cases (is_empty t.host)) [
  | inl a ↦ rw a tt
  | inr a ↦ elim (Bool-cases (is_web t.scheme)) [
    | inr b ↦ rw (a, b) tt
    | inl b ↦ elim (Bool-cases (has_prefix t.path (codes "/"))) [
      | inr c ↦ rw (a, b, c) tt
      | inl c ↦ elim (Bool-cases (has_control_byte t.path)) [
        | inl d ↦ rw (a, b, c, d) tt
        | inr d ↦
            rw (a, b, c, d)
              (record {
                web = b;
                rooted = c;
                plain = d;
                same_kind = refl;
                canonical_suite = λ h. (suite_path-IsCanonical t.path h).0;
                named = (t.host, a, refl, refl);
              })
      ]
    ]
  ]
]

and_then-Fine :
    {A : Type 0} (lib : UrlLibrary) (p : Parser) (a : Parsed A) (f : A → Parsed Request)
    → ((x : A) → Fine lib p (f x))
    → Fine lib p (and_then a f)
unfolding and_then Fine
and_then-Fine lib p (inl e) f h = tt
and_then-Fine lib p (inr x) f h = h x

parse-Fine : (lib : UrlLibrary) (p : Parser) (raw : Bytes) → Fine lib p (parse lib p raw)
unfolding parse Fine
parse-Fine lib p raw = elim (Bool-cases (is_empty raw)) [
  | inl a ↦ rw a tt
  | inr a ↦ rw a (
      and_then-Fine lib p (parse_request_uri lib raw)
        (λ u. and_then (target_of p u) (request_of lib p))
        (λ u. and_then-Fine lib p (target_of p u) (request_of lib p) (request_of-Fine lib p)))
]

-- Whatever Parse returns, for any functions of net/url and any rules and routes, has the scheme http or
-- https, a path that begins with a slash and has no control byte, the host and the upstream URL that
-- canonicalize and BuildUpstreamURL make of a host that is not empty, the kind that IsMetadata says, and a
-- canonical suite path if it has any.
pub parse-IsSound :
    (lib : UrlLibrary) (p : Parser) (raw : Bytes) (r : Request)
    → parse lib p raw ≡ inr r
    → IsSound lib p r
unfolding Fine
parse-IsSound lib p raw r e = subst (Fine lib p) e (parse-Fine lib p raw)
