-- ===== src/Hostsem/Drops.antt =====
-- dropRef keeps the books.
use apt_cacher_ultra.Base.{
  ℕ, ◌+◌, ◌-◌, ◌≤◌, ◌≡◌, ◌≢◌, refl, sym, ap, ◌∙◌, inl, inr, true, Option, none, some, List, ◌==◌,
  ==_iff, if◌then◌else◌, arith, Bool-cases, subst, Bytes, bytes_eq, bytes_eq_iff, elem_at, put_at,
  count_if, count_if_pos,
}
use apt_cacher_ultra.Hostsem.{
  leaving, done, Caller, HostSlot, Sem, put_slot, put_entry, is_slot, drop_ref,
}
use apt_cacher_ultra.Hostsem.Kept.{
  is_active, is_holding, has_slot, IsKept, changed_count, found_after, same_field, refs_of,
  tokens_of, is_counted,
}

module _ (s : Sem) (t : ℕ) (c : Caller) (k : IsKept s) (at_t : elem_at t s.callers ≡ some c) where
  less : ℕ
  less = (s.slots c.slot).refs - 1

  slots' : ℕ → HostSlot
  unfolding less
  slots' = put_slot s.slots c.slot (record (s.slots c.slot) { refs = less })

  callers' : List Caller
  callers' = put_at t (record c { phase = done }) s.callers

  dropped_counted :
      is_active c.phase ≡ true
      → (i : ℕ) → (slots' i).refs ≡ count_if (has_slot is_active i) callers'
  unfolding less slots' callers'
  dropped_counted live =
      changed_count is_active refs_of s.slots s.callers t c done
        (record (s.slots c.slot) { refs = less }) k.counted at_t
        (rw live (omega (arith, is_counted s.callers t c is_active at_t live, k.counted c.slot)))

  -- dropRef with what becomes of the map.
  dropped-IsKept :
      (entry : Bytes → Option ℕ)
      → c.phase ≡ leaving
      → ((u : ℕ) (d : Caller)
          → elem_at u callers' ≡ some d
          → is_active d.phase ≡ true
          → entry d.host ≡ some d.slot)
      → ((h : Bytes) (i : ℕ) → entry h ≡ some i → 1 ≤ (slots' i).refs)
      → ((h g : Bytes) (i : ℕ) → entry h ≡ some i → entry g ≡ some i → h ≡ g)
      → IsKept (record s { slots = slots'; entry = entry; callers = callers' })
  unfolding less slots' callers'
  dropped-IsKept entry w found in_use one_host =
      let v : HostSlot = record (s.slots c.slot) { refs = less } in
      record {
        counted = dropped_counted (ap is_active w);
        held =
            changed_count is_holding tokens_of s.slots s.callers t c done v k.held at_t
              (ap (λ x. (s.slots c.slot).tokens + (if is_holding x then 1 else 0)) w);
        bound = λ i. omega (arith, same_field tokens_of s.slots c.slot v refl i, k.bound i);
        fresh = λ i h. ground (arith, k.fresh i h);
        found = found;
        in_use = in_use;
        one_host = one_host;
      }

  refs_here : (slots' c.slot).refs ≡ less
  unfolding slots'
  refs_here = rw ((==_iff c.slot c.slot).1 refl) refl

  -- The other calls that are not done, and their entries.
  others_found :
      (u : ℕ) (d : Caller)
      → c.phase ≡ leaving
      → elem_at u callers' ≡ some d
      → is_active d.phase ≡ true
      → s.entry d.host ≡ some d.slot
  unfolding callers'
  others_found u d w e l =
      found_after s.entry s.callers t c done k.found at_t (ap is_active w) u d e l

  my_entry : c.phase ≡ leaving → s.entry c.host ≡ some c.slot
  my_entry w = k.found t c at_t (ap is_active w)

  -- When the last reference goes, no call with this slot is left.
  no_other :
      (u : ℕ) (d : Caller)
      → c.phase ≡ leaving
      → less ≡ 0
      → elem_at u callers' ≡ some d
      → is_active d.phase ≡ true
      → c.host ≢ d.host
  unfolding slots'
  no_other u d w gone e l same =
      let one : some c.slot ≡ some d.slot =
        sym (my_entry w) ∙ (ap s.entry same ∙ others_found u d w e l) in
      let mine : d.slot ≡ c.slot = cc one in
      let left =
        count_if_pos (has_slot is_active c.slot) u callers' d e
          (rw (l, (==_iff d.slot c.slot).1 mine) refl) in
      absurd (omega (arith, left, dropped_counted (ap is_active w) c.slot, refs_here))

  -- The map behind the last reference.
  emptied : Bytes → Option ℕ
  emptied = put_entry s.entry c.host none

  emptied_entry : (h : Bytes) (i : ℕ) → emptied h ≡ some i → (c.host ≢ h) × (s.entry h ≡ some i)
  unfolding emptied
  emptied_entry h i e = elim (Bool-cases (bytes_eq c.host h)) [
    | inl same ↦ cc (rw same at e)
    | inr other ↦ ((λ p. cc (other, (bytes_eq_iff c.host h).1 p)), rw other at e)
  ]

  kept_entry : (h : Bytes) → c.host ≢ h → emptied h ≡ s.entry h
  unfolding emptied
  kept_entry h d = elim (Bool-cases (bytes_eq c.host h)) [
    | inl same ↦ absurd (d ((bytes_eq_iff c.host h).0 same))
    | inr other ↦ rw other refl
  ]

  refs_elsewhere : (i : ℕ) → c.slot ≢ i → (slots' i).refs ≡ (s.slots i).refs
  unfolding slots'
  refs_elsewhere i d = elim (Bool-cases (c.slot == i)) [
    | inl same ↦ absurd (d ((==_iff c.slot i).0 same))
    | inr other ↦ rw other refl
  ]

  last_dropped :
      c.phase ≡ leaving
      → less ≡ 0
      → IsKept (record s { slots = slots'; entry = emptied; callers = callers' })
  last_dropped w gone =
      dropped-IsKept emptied w
        (λ u d e l. kept_entry d.host (no_other u d w gone e l) ∙ others_found u d w e l)
        (λ h i e.
          let (other, old) = emptied_entry h i e in
          rw
            (refs_elsewhere i
              (λ mine. other (k.one_host c.host h i (my_entry w ∙ ap some mine) old)))
            (k.in_use h i old))
        (λ h g i e f. k.one_host h g i (emptied_entry h i e).1 (emptied_entry g i f).1)

  some_dropped :
      c.phase ≡ leaving → less ≢ 0 → IsKept (record s { slots = slots'; callers = callers' })
  some_dropped w left =
      dropped-IsKept s.entry w (λ u d e l. others_found u d w e l)
        (λ h i e. elim (Bool-cases (c.slot == i)) [
          | inl mine ↦
              subst (λ j. 1 ≤ (slots' j).refs) ((==_iff c.slot i).0 mine)
                (rw refs_here (omega (arith, left)))
          | inr other ↦
              rw (refs_elsewhere i (λ p. cc (other, (==_iff c.slot i).1 p))) (k.in_use h i e)
        ])
        k.one_host

  pub drop_ref-IsKept : c.phase ≡ leaving → IsKept (drop_ref s t c)
  unfolding drop_ref less slots' callers' emptied is_slot
  drop_ref-IsKept w = elim (Bool-cases ((s.slots c.slot).refs - 1 == 0)) [
    | inl e ↦
        rw (e, my_entry w, (==_iff c.slot c.slot).1 refl)
          (last_dropped w ((==_iff ((s.slots c.slot).refs - 1) 0).0 e))
    | inr e ↦ rw e (some_dropped w (λ p. cc (e, (==_iff ((s.slots c.slot).refs - 1) 0).1 p)))
  ]
