-- ===== src/Freshness/SuiteLock/Frame.antt =====
-- What a goroutine can count on at each place, and that a step of another one leaves it so.
use apt_cacher_ultra.Base.{
  ℕ, ◌≡◌, sym, ap, ◌∙◌, ◌≢◌, inl, inr, Option, none, some, ◌==◌, ==_iff, Bytes, bytes_eq,
  bytes_eq_iff, Bool-cases,
}
use apt_cacher_ultra.Freshness.SuiteLock.{
  Place, outside, loaded, tried, holding, leaving, Locks, set_owner, set_entry,
}

-- What a goroutine at a place can count on.
unfoldable pub IsGood : (Bytes → Option ℕ) → (ℕ → Option ℕ) → ℕ → Place → Type 0
IsGood entry owner t outside = Unit {0}
IsGood entry owner t (loaded key m) = Unit {0}
IsGood entry owner t (tried key m) = owner m ≡ some t
IsGood entry owner t (holding key m) = (owner m ≡ some t) × (entry key ≡ some m)
IsGood entry owner t (leaving key m) = owner m ≡ some t

abbrev pub AllGood : Locks → Type 0
AllGood s = (t : ℕ) → IsGood s.entry s.owner t (s.place t)

pub some_eq : {a b : ℕ} → some a ≡ some b → a ≡ b
some_eq e = cc e

-- A mutex that a goroutine takes or gives up was not another one's.
owner-taken :
    (owner : ℕ → Option ℕ) (m n t u : ℕ)
    → owner m ≡ none
    → owner n ≡ some u
    → set_owner owner m (some t) n ≡ some u
owner-taken owner m n t u free e = elim (Bool-cases (m == n)) [
  | inl s ↦ cc (free, e, ap owner ((==_iff m n).0 s))
  | inr d ↦ rw d e
]

owner-given :
    (owner : ℕ → Option ℕ) (m n t u : ℕ)
    → owner m ≡ some t
    → t ≢ u
    → owner n ≡ some u
    → set_owner owner m none n ≡ some u
owner-given owner m n t u mine other e = elim (Bool-cases (m == n)) [
  | inl s ↦ absurd (other (some_eq (sym mine ∙ (ap owner ((==_iff m n).0 s) ∙ e))))
  | inr d ↦ rw d e
]

entry-stored :
    (entry : Bytes → Option ℕ) (k j : Bytes) (m n : ℕ)
    → entry k ≡ none
    → entry j ≡ some n
    → set_entry entry k (some m) j ≡ some n
entry-stored entry k j m n free e = elim (Bool-cases (bytes_eq k j)) [
  | inl s ↦ cc (free, e, ap entry ((bytes_eq_iff k j).0 s))
  | inr d ↦ rw d e
]

pub taken-IsGood :
    (entry : Bytes → Option ℕ) (owner : ℕ → Option ℕ) (m t u : ℕ) (p : Place)
    → owner m ≡ none
    → IsGood entry owner u p
    → IsGood entry (set_owner owner m (some t)) u p
unfolding IsGood
taken-IsGood entry owner m t u outside free g = g
taken-IsGood entry owner m t u (loaded key n) free g = g
taken-IsGood entry owner m t u (tried key n) free g = owner-taken owner m n t u free g
taken-IsGood entry owner m t u (holding key n) free g = (owner-taken owner m n t u free g.0, g.1)
taken-IsGood entry owner m t u (leaving key n) free g = owner-taken owner m n t u free g

pub given-IsGood :
    (entry : Bytes → Option ℕ) (owner : ℕ → Option ℕ) (m t u : ℕ) (p : Place)
    → owner m ≡ some t
    → t ≢ u
    → IsGood entry owner u p
    → IsGood entry (set_owner owner m none) u p
unfolding IsGood
given-IsGood entry owner m t u outside mine other g = g
given-IsGood entry owner m t u (loaded key n) mine other g = g
given-IsGood entry owner m t u (tried key n) mine other g = owner-given owner m n t u mine other g
given-IsGood entry owner m t u (holding key n) mine other g =
    (owner-given owner m n t u mine other g.0, g.1)
given-IsGood entry owner m t u (leaving key n) mine other g = owner-given owner m n t u mine other g

pub stored-IsGood :
    (entry : Bytes → Option ℕ) (owner : ℕ → Option ℕ) (k : Bytes) (m u : ℕ) (p : Place)
    → entry k ≡ none
    → IsGood entry owner u p
    → IsGood (set_entry entry k (some m)) owner u p
unfolding IsGood
stored-IsGood entry owner k m u outside free g = g
stored-IsGood entry owner k m u (loaded key n) free g = g
stored-IsGood entry owner k m u (tried key n) free g = g
stored-IsGood entry owner k m u (holding key n) free g =
    (g.0, entry-stored entry k key m n free g.1)
stored-IsGood entry owner k m u (leaving key n) free g = g

-- A drop by the goroutine that has the entry's mutex is no drop of another one's entry.
pub erased-IsGood :
    (entry : Bytes → Option ℕ) (owner : ℕ → Option ℕ) (k : Bytes) (m t u : ℕ) (p : Place)
    → entry k ≡ some m
    → owner m ≡ some t
    → t ≢ u
    → IsGood entry owner u p
    → IsGood (set_entry entry k none) owner u p
unfolding IsGood
erased-IsGood entry owner k m t u outside there mine other g = g
erased-IsGood entry owner k m t u (loaded key n) there mine other g = g
erased-IsGood entry owner k m t u (tried key n) there mine other g = g
erased-IsGood entry owner k m t u (leaving key n) there mine other g = g
erased-IsGood entry owner k m t u (holding key n) there mine other g =
    elim (Bool-cases (bytes_eq k key)) [
      | inl s ↦
          let same : m ≡ n = some_eq (sym there ∙ (ap entry ((bytes_eq_iff k key).0 s) ∙ g.1)) in
          absurd (other (some_eq (sym mine ∙ (ap owner same ∙ g.0))))
      | inr d ↦ (g.0, rw d g.1)
    ]
