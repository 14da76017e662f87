-- ===== src/Proxy/Mirror/Matches.antt =====
-- The route that a path takes.
use apt_cacher_ultra.Base.{
  ◌≡◌, refl, sym, ap, ◌∙◌, inl, inr, false, Option, none, some, List, [], ◌∷◌, ◌++◌, ◌==◌, ==_iff,
  Bool-cases, Option-cases, Bytes, codes, bytes_eq, bytes_eq_iff, cut_prefix, subst, All,
  append-nil,
}
use apt_cacher_ultra.Proxy.Mirror.{MirrorRoute, slash_rest, match_route, match_mirror}

-- The rest of a path: nothing, or what begins with a slash.
abbrev pub IsRest : Bytes → Type 0
IsRest [] = Unit
IsRest (c ∷ s) = c ≡ b'/'

cut_prefix_sound : (s t rest : Bytes) → cut_prefix s t ≡ some rest → s ≡ t ++ rest
unfolding cut_prefix
cut_prefix_sound s [] rest e = cc e
cut_prefix_sound [] (y ∷ t) rest e = cc e
cut_prefix_sound (x ∷ s) (y ∷ t) rest e = elim (Bool-cases (x == y)) [
  | inl a ↦ rw ((==_iff x y).0 a, cut_prefix_sound s t rest (rw a at e)) refl
  | inr a ↦ cc (rw a at e)
]

slash_rest_sound :
    (o : Option Bytes) (rest : Bytes) → slash_rest o ≡ some rest → (o ≡ some rest) × IsRest rest
unfolding slash_rest
slash_rest_sound none rest e = cc e
slash_rest_sound (some []) rest e = cc e
slash_rest_sound (some (c ∷ s)) rest e = elim (Bool-cases (c == b'/')) [
  | inl a ↦
      let same : some (c ∷ s) ≡ some rest = rw a at e in
      let text : c ∷ s ≡ rest = cc same in (same, subst IsRest text ((==_iff c b'/').0 a))
  | inr a ↦ cc (rw a at e)
]

-- A route other than "/" that matches splits the path.
match_route_sound :
    (r : MirrorRoute) (path rest : Bytes)
    → bytes_eq r.prefix (codes "/") ≡ false
    → match_route r path ≡ some rest
    → (path ≡ r.prefix ++ rest) × IsRest rest
unfolding match_route
match_route_sound r path rest a e = elim (Bool-cases (bytes_eq path r.prefix)) [
  | inl b ↦
      let none_left : some [] ≡ some rest = rw (a, b) at e in
      let text : [] ≡ rest = cc none_left in
      (
        (bytes_eq_iff path r.prefix).0 b ∙ sym (append-nil r.prefix) ∙ ap (λ z. r.prefix ++ z) text,
        subst IsRest text tt,
      )
  | inr b ↦
      let (cut, fine) = slash_rest_sound (cut_prefix path r.prefix) rest (rw (a, b) at e) in
      (cut_prefix_sound path r.prefix rest cut, fine)
]

-- The first route of a list that matches the path, and what is left of the path.
Matched : Bytes → List MirrorRoute → MirrorRoute → Bytes → Type 0
Matched path rs r rest =
    (before : List MirrorRoute) × (after : List MirrorRoute) × (rs ≡ before ++ (r ∷ after))
    × All (λ x. match_route x path ≡ none) before
    × (match_route r path ≡ some rest)

match_mirror-Matched :
    (rs : List MirrorRoute) (path rest : Bytes) (r : MirrorRoute)
    → match_mirror rs path ≡ some (r, rest)
    → Matched path rs r rest
unfolding match_mirror Matched
match_mirror-Matched [] path rest r e = cc e
match_mirror-Matched (x ∷ rs) path rest r e = elim (Option-cases (match_route x path)) [
  | inl a ↦
      let (before, after, all, passed, found) =
        match_mirror-Matched rs path rest r (rw (a, match_mirror) at e) in
      (x ∷ before, after, rw all refl, (a, passed), found)
  | inr (s, a) ↦
      let same : some (x, s) ≡ some (r, rest) = rw (a, match_mirror) at e in
      let route : x ≡ r = cc same in
      let text : s ≡ rest = cc same in
      (
        [],
        rs,
        rw route refl,
        tt,
        subst (λ (z : MirrorRoute). match_route z path ≡ some rest) route (a ∙ ap some text),
      )
]

-- matchMirror takes the first route that matches: no route in front of it matches, and unless its prefix is
-- "/" the path is the prefix and then the remainder, which is empty or begins with a slash.
pub match_mirror_first :
    (rs : List MirrorRoute) (path rest : Bytes) (r : MirrorRoute)
    → match_mirror rs path ≡ some (r, rest)
    → (bytes_eq r.prefix (codes "/") ≡ false → (path ≡ r.prefix ++ rest) × IsRest rest)
      × ((before : List MirrorRoute) × (after : List MirrorRoute) × (rs ≡ before ++ (r ∷ after))
          × All (λ x. match_route x path ≡ none) before)
unfolding Matched
match_mirror_first rs path rest r e =
    let (before, after, all, passed, found) = match_mirror-Matched rs path rest r e in
    (λ a. match_route_sound r path rest a found, (before, after, all, passed))
