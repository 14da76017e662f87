-- ===== src/Base/Segments.antt =====
-- strings.Split and strings.Join at one byte.
use Prim.Native.Nat.{ℕ}
use mathlib.Core.Path.{◌≡◌, refl, ap, ◌∙◌}
use mathlib.Core.Logic.{◌≢◌, inl, inr}
use mathlib.Core.Bool.{true, false, not}
use mathlib.Core.List.{List, [], ◌∷◌, ◌++◌, append_assoc}
use native.Mathlib.Omega.{arith}
use apt_cacher_ultra.Base.Tests.{◌==◌, ==_iff, if◌then◌else◌, Bool-cases}
use apt_cacher_ultra.Base.Lists.{All, all}
use apt_cacher_ultra.Base.Text.{Bytes}

-- A byte in front of the first of some segments.
unfoldable pub grow : ℕ → List Bytes → List Bytes
grow c [] = (c ∷ []) ∷ []
grow c (s ∷ ss) = (c ∷ s) ∷ ss

unfoldable pub split : ℕ → Bytes → List Bytes
unfolding grow
split sep [] = [] ∷ []
split sep (c ∷ cs) = if c == sep then [] ∷ split sep cs else grow c (split sep cs)

unfoldable pub join : ℕ → List Bytes → Bytes
join sep [] = []
join sep (s ∷ []) = s
join sep (s ∷ t ∷ ss) = s ++ (sep ∷ join sep (t ∷ ss))

-- No segment holds the separator.
abbrev pub Free : ℕ → Bytes → Type 0
Free sep s = all (λ c. not (c == sep)) s ≡ true

pub split-ne-nil : (sep : ℕ) (s : Bytes) → split sep s ≢ []
unfolding split
split-ne-nil sep [] h = cc
split-ne-nil sep (c ∷ cs) h = ground (arith, split-ne-nil sep cs)

grow-join : (sep c : ℕ) (ss : List Bytes) → ss ≢ [] → join sep (grow c ss) ≡ c ∷ join sep ss
unfolding grow join
grow-join sep c [] h = absurd (h refl)
grow-join sep c (s ∷ []) h = refl
grow-join sep c (s ∷ t ∷ ss) h = refl

join-cons :
    (sep : ℕ) (s : Bytes) (ss : List Bytes) → ss ≢ [] → join sep (s ∷ ss) ≡ s ++ (sep ∷ join sep ss)
unfolding join
join-cons sep s [] h = absurd (h refl)
join-cons sep s (t ∷ ss) h = refl

pub join-split : (sep : ℕ) (s : Bytes) → join sep (split sep s) ≡ s
unfolding split
join-split sep [] = unfold join in refl
join-split sep (c ∷ cs) = elim (Bool-cases (c == sep)) [
  | inl e ↦
      rw
        (
          e,
          join-cons sep [] (split sep cs) (split-ne-nil sep cs),
          join-split sep cs,
          (==_iff c sep).0 e,
        )
        refl
  | inr e ↦ rw (e, grow-join sep c (split sep cs) (split-ne-nil sep cs), join-split sep cs) refl
]

grow-Free :
    (sep c : ℕ) (ss : List Bytes)
    → (c == sep) ≡ false
    → All (Free sep) ss
    → All (Free sep) (grow c ss)
unfolding grow
grow-Free sep c [] h f = (ground arith, tt)
grow-Free sep c (s ∷ ss) h f = (rw h f.0, f.1)

pub split-Free : (sep : ℕ) (s : Bytes) → All (Free sep) (split sep s)
unfolding split
split-Free sep [] = (refl, tt)
split-Free sep (c ∷ cs) = elim (Bool-cases (c == sep)) [
  | inl e ↦ rw e (refl, split-Free sep cs)
  | inr e ↦ rw e (grow-Free sep c (split sep cs) e (split-Free sep cs))
]

split-append-sep :
    (sep : ℕ) (s t : Bytes) → Free sep s → split sep (s ++ (sep ∷ t)) ≡ s ∷ split sep t
unfolding split grow
split-append-sep sep [] t f = ground arith
split-append-sep sep (c ∷ s) t f = ground (arith, split-append-sep sep s t)

split_one : (sep : ℕ) (s : Bytes) → Free sep s → split sep s ≡ s ∷ []
unfolding split grow
split_one sep [] f = refl
split_one sep (c ∷ s) f = ground (arith, split_one sep s)

-- Splitting a joined list again, with more text behind it.
pub split-join-append :
    (sep : ℕ) (ss : List Bytes) (t : Bytes)
    → All (Free sep) ss
    → ss ≢ []
    → split sep (join sep ss ++ (sep ∷ t)) ≡ ss ++ split sep t
unfolding join
split-join-append sep [] t f h = absurd (h refl)
split-join-append sep (s ∷ []) t f h = split-append-sep sep s t f.0
split-join-append sep (s ∷ r ∷ ss) t f h = rw append_assoc (
    split-append-sep sep s (join sep (r ∷ ss) ++ (sep ∷ t)) f.0
    ∙ ap (◌∷◌ s) (split-join-append sep (r ∷ ss) t f.1 (λ e. cc e)))

pub split-join :
    (sep : ℕ) (ss : List Bytes) → All (Free sep) ss → ss ≢ [] → split sep (join sep ss) ≡ ss
unfolding join
split-join sep [] f h = absurd (h refl)
split-join sep (s ∷ []) f h = split_one sep s f.0
split-join sep (s ∷ t ∷ ss) f h =
    split-append-sep sep s (join sep (t ∷ ss)) f.0
    ∙ ap (◌∷◌ s) (split-join sep (t ∷ ss) f.1 (λ e. cc e))

pub join-append :
    (sep : ℕ) (ss ts : List Bytes)
    → ss ≢ []
    → ts ≢ []
    → join sep (ss ++ ts) ≡ join sep ss ++ (sep ∷ join sep ts)
unfolding join
join-append sep [] ts h k = absurd (h refl)
join-append sep (s ∷ []) ts h k = join-cons sep s ts k
join-append sep (s ∷ r ∷ ss) ts h k =
    rw (append_assoc, join-append sep (r ∷ ss) ts (λ e. cc e) k) refl
