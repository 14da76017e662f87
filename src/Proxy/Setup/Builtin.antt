-- ===== src/Proxy/Setup/Builtin.antt =====
-- The built-in rules: a host that they give is one that they leave alone.
use apt_cacher_ultra.Base.{
  ◌≡◌, refl, inl, inr, [], ◌∷◌, List, Bool-cases, Bytes, codes, bytes_eq, cut_prefix, All, subst,
  sym, ◌⊎◌,
}
use apt_cacher_ultra.Proxy.Uri.{is_empty}
use apt_cacher_ultra.Proxy.Request.{RemapRule, remap_host}
use apt_cacher_ultra.Proxy.Setup.{
  is_lower, behind_geo, is_geo, is_country, behind_ftp, is_debian_mirror, builtin_remap_rules,
}

fixed :
    ((remap_host builtin_remap_rules (codes "archive.ubuntu.com") []).0
      ≡ codes "archive.ubuntu.com")
    × ((remap_host builtin_remap_rules (codes "security.ubuntu.com") []).0
        ≡ codes "security.ubuntu.com")
    × ((remap_host builtin_remap_rules (codes "ports.ubuntu.com") []).0 ≡ codes "ports.ubuntu.com")
    × ((remap_host builtin_remap_rules (codes "deb.debian.org") []).0 ≡ codes "deb.debian.org")
    × ((remap_host builtin_remap_rules (codes "security.debian.org") []).0
        ≡ codes "security.debian.org")
unfolding remap_host is_geo behind_geo is_lower is_debian_mirror is_country behind_ftp cut_prefix
    bytes_eq
fixed = (refl, refl, refl, refl, refl)

-- A rule list that leaves a host as it is.
abbrev Fixes : List RemapRule → Bytes → Type 0
Fixes rules h = (remap_host rules h []).0 ≡ h

-- The host that some rules give is one of theirs, or the host asked for, which no rule changes.
given :
    (rules rs : List RemapRule) (bare port : Bytes)
    → All (λ (r : RemapRule). Fixes rules r.canonical_host) rs
    → (((remap_host rs bare port).0 ≡ bare) × Fixes rs bare)
      ⊎ Fixes rules (remap_host rs bare port).0
unfolding remap_host is_empty
given rules [] bare [] w = inl (refl, refl)
given rules [] bare (c ∷ port) w = inl (refl, refl)
given rules (r ∷ rs) bare port w = elim (Bool-cases (r.matches bare)) [
  | inl a ↦ inr (rw a w.0)
  | inr a ↦ elim (given rules rs bare port w.1) [
    | inl (same, fixes) ↦ inl (rw a same, rw a fixes)
    | inr g ↦ inr (rw a g)
  ]
]

-- The built-in rules are idempotent: a host that they make of some host, whatever its port, they leave as it
-- is.
pub remap_host_twice :
    (bare port : Bytes)
    → (remap_host builtin_remap_rules (remap_host builtin_remap_rules bare port).0 []).0
      ≡ (remap_host builtin_remap_rules bare port).0
remap_host_twice bare port =
    let (archive, security, ports, debian, debian_security) = fixed in
    elim (given builtin_remap_rules builtin_remap_rules bare port
      (archive, (security, (ports, (debian, (debian, (debian_security, tt))))))) [
        | inl (same, fixes) ↦ subst (Fixes builtin_remap_rules) (sym same) fixes
        | inr g ↦ g
      ]
