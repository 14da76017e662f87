-- ===== src/Hostsem/Enters.antt =====
-- The section of Acquire under the lock keeps the books.
use apt_cacher_ultra.Base.{
  ℕ, ◌+◌, ◌≤◌, ◌<◌, ◌≡◌, refl, sym, ap, ◌∙◌, ◌⊎◌, inl, inr, Bool, true, ◌&&◌, Option, none, some,
  List, [], ◌∷◌, ◌++◌, ltb, ◌==◌, ==_iff, if◌then◌else◌, arith, Bool-cases, Option-cases, subst,
  Bytes, bytes_eq, bytes_eq_iff, elem_at, count_if, count_if-append, elem_at-append, count_if_le,
}
use apt_cacher_ultra.Hostsem.{
  Phase, waiting, holding, leaving, done, Caller, HostSlot, Sem, put_slot, put_entry, enter_at,
  enter,
}
use apt_cacher_ultra.Hostsem.Kept.{
  is_active, is_holding, has_slot, IsKept, same_field, refs_of, tokens_of,
}

-- A new call, in a slot whose references grow by one.
entered_count :
    (p : Phase → Bool) (f : HostSlot → ℕ) (slots : ℕ → HostSlot) (cs : List Caller) (j : ℕ)
    (host : Bytes) (v : HostSlot)
    → ((i : ℕ) → f (slots i) ≡ count_if (has_slot p i) cs)
    → f v ≡ f (slots j) + (if p waiting then 1 else 0)
    → (i : ℕ)
    → f (put_slot slots j v i)
      ≡ count_if (has_slot p i) (cs ++ (record { host = host; slot = j; phase = waiting } ∷ []))
entered_count p f slots cs j host v books e i =
    let grown =
      count_if-append (has_slot p i) cs (record { host = host; slot = j; phase = waiting }) in
    elim (Bool-cases (j == i)) [
      | inl same ↦ ground (arith, grown, books i, ap (λ n. f (slots n)) ((==_iff j i).0 same))
      | inr other ↦ ground (arith, grown, books i)
    ]

module _ (s : Sem) (host : Bytes) (k : IsKept s) where
  found_new :
      (entry : Bytes → Option ℕ) (j : ℕ)
      → ((h : Bytes) (i : ℕ) → s.entry h ≡ some i → entry h ≡ some i)
      → entry host ≡ some j
      → (u : ℕ) (d : Caller)
      → elem_at u (s.callers ++ (record { host = host; slot = j; phase = waiting } ∷ [])) ≡ some d
      → is_active d.phase ≡ true
      → entry d.host ≡ some d.slot
  found_new entry j kept mine u d e l =
      elim (elem_at-append u s.callers (record { host = host; slot = j; phase = waiting }) d e) [
        | inl same ↦ subst (λ (x : Caller). entry x.host ≡ some x.slot) (sym same) mine
        | inr old ↦ kept d.host d.slot (k.found u d old l)
      ]

  enter_old : (j : ℕ) → s.entry host ≡ some j → IsKept (enter_at s host (some j))
  unfolding enter_at
  enter_old j e =
      let v : HostSlot = record (s.slots j) { refs = (s.slots j).refs + 1 } in
      record {
        counted = entered_count is_active refs_of s.slots s.callers j host v k.counted refl;
        held = entered_count is_holding tokens_of s.slots s.callers j host v k.held (omega arith);
        bound = λ i. omega (arith, same_field tokens_of s.slots j v refl i, k.bound i);
        fresh = λ i h. ground (arith, k.fresh i h, k.in_use host j e);
        found = found_new s.entry j (λ h i same. same) e;
        in_use = λ h i f. ground (arith, k.in_use h i f);
        one_host = k.one_host;
      }

  -- A slot that has not been made yet has no tokens.
  no_token : (i : ℕ) → s.next_slot ≤ i → (s.slots i).tokens ≡ 0
  no_token i h = omega (
    arith,
    k.held i,
    k.counted i,
    k.fresh i h,
    count_if_le (has_slot is_holding i) (has_slot is_active i) s.callers
        (λ t c e held. holds_active c.phase (c.slot == i) held),
  )
    where
      holds_active : (p : Phase) (b : Bool) → (is_holding p && b) ≡ true → (is_active p && b) ≡ true
      holds_active holding b e = e
      holds_active waiting b e = cc e
      holds_active leaving b e = cc e
      holds_active done b e = cc e

  new_entry :
      (h : Bytes) (i : ℕ)
      → put_entry s.entry host (some s.next_slot) h ≡ some i
      → ((host ≡ h) × (s.next_slot ≡ i)) ⊎ (s.entry h ≡ some i)
  new_entry h i e = elim (Bool-cases (bytes_eq host h)) [
    | inl same ↦ inl ((bytes_eq_iff host h).0 same, cc (rw same at e))
    | inr other ↦ inr (rw other at e)
  ]

  old_entry :
      (h : Bytes) (i : ℕ)
      → s.entry host ≡ none
      → s.entry h ≡ some i
      → put_entry s.entry host (some s.next_slot) h ≡ some i
  old_entry h i none_yet e = elim (Bool-cases (bytes_eq host h)) [
    | inl same ↦ cc (none_yet, e, ap s.entry ((bytes_eq_iff host h).0 same))
    | inr other ↦ rw other e
  ]

  -- An entry leads to a slot that has been made.
  made : (h : Bytes) (i : ℕ) → s.entry h ≡ some i → i < s.next_slot
  made h i e = elim (Bool-cases (ltb i s.next_slot)) [
    | inl l ↦ ground arith
    | inr l ↦ absurd (omega (arith, k.in_use h i e, k.fresh i (ground arith)))
  ]

  new_one_host :
      (h g : Bytes) (i : ℕ)
      → put_entry s.entry host (some s.next_slot) h ≡ some i
      → put_entry s.entry host (some s.next_slot) g ≡ some i
      → h ≡ g
  new_one_host h g i e f = elim (new_entry h i e) [
    | inl (a, same) ↦ elim (new_entry g i f) [
      | inl (b, _) ↦ sym a ∙ b
      | inr old ↦ absurd (omega (arith, made g i old, same))
    ]
    | inr old ↦ elim (new_entry g i f) [
      | inl (b, same) ↦ absurd (omega (arith, made h i old, same))
      | inr older ↦ k.one_host h g i old older
    ]
  ]

  enter_new : s.entry host ≡ none → IsKept (enter_at s host none)
  unfolding enter_at
  enter_new none_yet =
      let v : HostSlot = record { tokens = 0; refs = 1 } in
      let j = s.next_slot in
      record {
        counted =
            entered_count is_active refs_of s.slots s.callers j host v k.counted
              (omega (arith, k.fresh j (omega arith)));
        held =
            entered_count is_holding tokens_of s.slots s.callers j host v k.held
              (omega (arith, no_token j (omega arith)));
        bound = λ i. ground (arith, k.bound i);
        fresh = λ i h. ground (arith, k.fresh i (omega arith));
        found =
            found_new (put_entry s.entry host (some j)) j (λ h i e. old_entry h i none_yet e)
              (rw ((bytes_eq_iff host host).1 refl) refl);
        in_use = λ h i e. elim (new_entry h i e) [
          | inl (a, same) ↦ ground (arith, same)
          | inr old ↦ ground (arith, k.in_use h i old, made h i old)
        ];
        one_host = new_one_host;
      }

pub enter-IsKept : (s : Sem) (host : Bytes) → IsKept s → IsKept (enter s host)
unfolding enter
enter-IsKept s host k = elim (Option-cases (s.entry host)) [
  | inl e ↦ rw e (enter_new s host k e)
  | inr (j, e) ↦ rw e (enter_old s host k j e)
]
