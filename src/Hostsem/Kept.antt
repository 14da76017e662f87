-- ===== src/Hostsem/Kept.antt =====
-- The books of the semaphore: its slots against the calls that use them.
use apt_cacher_ultra.Base.{
  ℕ, ◌+◌, ◌≤◌, ◌≡◌, refl, sym, ap, ◌∙◌, inl, inr, Bool, true, false, ◌&&◌, Option, some, List, ◌==◌,
  ==_iff, if◌then◌else◌, arith, Bool-cases, subst, Bytes, elem_at, put_at, count_if,
  count_if-put_at, elem_at-put_at, count_if_pos,
}
use apt_cacher_ultra.Hostsem.{
  Phase, waiting, holding, leaving, done, Caller, HostSlot, Sem, put_slot,
}

abbrev pub is_active : Phase → Bool
is_active waiting = true
is_active holding = true
is_active leaving = true
is_active done = false

abbrev pub is_holding : Phase → Bool
is_holding waiting = false
is_holding holding = true
is_holding leaving = false
is_holding done = false

-- A call in such a phase that has this slot.
abbrev pub has_slot : (Phase → Bool) → ℕ → Caller → Bool
has_slot p i c = p c.phase && c.slot == i

-- The references of a slot are the calls that use it, its tokens the calls that hold one and within
-- the limit; the map has the slot of every call that is not done, and no slot that no call uses, nor
-- one slot for two hosts.
pub record IsKept (s : Sem) : Type 0 where
  pub counted : (i : ℕ) → (s.slots i).refs ≡ count_if (has_slot is_active i) s.callers
  pub held : (i : ℕ) → (s.slots i).tokens ≡ count_if (has_slot is_holding i) s.callers
  pub bound : (i : ℕ) → (s.slots i).tokens ≤ s.limit
  pub fresh : (i : ℕ) → s.next_slot ≤ i → (s.slots i).refs ≡ 0
  pub found :
      (t : ℕ) (c : Caller)
      → elem_at t s.callers ≡ some c
      → is_active c.phase ≡ true
      → s.entry c.host ≡ some c.slot
  pub in_use : (h : Bytes) (i : ℕ) → s.entry h ≡ some i → 1 ≤ (s.slots i).refs
  pub one_host : (h g : Bytes) (i : ℕ) → s.entry h ≡ some i → s.entry g ≡ some i → h ≡ g

-- A call that goes to another phase, with the slot that it uses.
pub changed_count :
    (p : Phase → Bool) (f : HostSlot → ℕ) (slots : ℕ → HostSlot) (cs : List Caller) (t : ℕ)
    (c : Caller) (q : Phase) (v : HostSlot)
    → ((i : ℕ) → f (slots i) ≡ count_if (has_slot p i) cs)
    → elem_at t cs ≡ some c
    → f v + (if p c.phase then 1 else 0) ≡ f (slots c.slot) + (if p q then 1 else 0)
    → (i : ℕ)
    → f (put_slot slots c.slot v i) ≡ count_if (has_slot p i) (put_at t (record c { phase = q }) cs)
changed_count p f slots cs t c q v books at_t e i =
    let moved = count_if-put_at (has_slot p i) t cs c (record c { phase = q }) at_t in
    elim (Bool-cases (c.slot == i)) [
      | inl same ↦ ground (arith, moved, books i, ap (λ j. f (slots j)) ((==_iff c.slot i).0 same))
      | inr other ↦ ground (arith, moved, books i)
    ]

-- The other calls that are not done keep their place, and the one that moves keeps its slot.
pub found_after :
    (entry : Bytes → Option ℕ) (cs : List Caller) (t : ℕ) (c : Caller) (q : Phase)
    → ((u : ℕ) (d : Caller)
        → elem_at u cs ≡ some d
        → is_active d.phase ≡ true
        → entry d.host ≡ some d.slot)
    → elem_at t cs ≡ some c
    → is_active c.phase ≡ true
    → (u : ℕ) (d : Caller) → elem_at u (put_at t (record c { phase = q }) cs) ≡ some d
    → is_active d.phase ≡ true
    → entry d.host ≡ some d.slot
found_after entry cs t c q found at_t live u d e l =
    elim (elem_at-put_at t u cs (record c { phase = q }) d e) [
      | inl same ↦
          subst (λ (x : Caller). entry x.host ≡ some x.slot) (sym same) (found t c at_t live)
      | inr old ↦ found u d old l
    ]

pub same_field :
    (f : HostSlot → ℕ) (slots : ℕ → HostSlot) (j : ℕ) (v : HostSlot)
    → f v ≡ f (slots j)
    → (i : ℕ) → f (put_slot slots j v i) ≡ f (slots i)
same_field f slots j v e i = elim (Bool-cases (j == i)) [
  | inl same ↦ rw same (e ∙ ap (λ n. f (slots n)) ((==_iff j i).0 same))
  | inr other ↦ rw other refl
]

abbrev pub refs_of : HostSlot → ℕ
refs_of v = v.refs

abbrev pub tokens_of : HostSlot → ℕ
tokens_of v = v.tokens

-- The call is among those that its slot counts.
pub is_counted :
    (cs : List Caller) (t : ℕ) (c : Caller) (p : Phase → Bool)
    → elem_at t cs ≡ some c
    → p c.phase ≡ true
    → 1 ≤ count_if (has_slot p c.slot) cs
is_counted cs t c p at_t e =
    count_if_pos (has_slot p c.slot) t cs c at_t (rw (e, (==_iff c.slot c.slot).1 refl) refl)
