-- ===== src/Hostsem/Tokens.antt =====
-- A call that takes a token, gives it back or gives up keeps the books.
use apt_cacher_ultra.Base.{
  ℕ, ◌+◌, ◌-◌, ◌≤◌, ◌≡◌, refl, sym, ap, ◌∙◌, inl, inr, Bool, true, some, ltb, if◌then◌else◌, arith,
  Bool-cases, elem_at, put_at, count_if,
}
use apt_cacher_ultra.Hostsem.{
  Phase, waiting, holding, leaving, Caller, HostSlot, Sem, put_slot, take_token, give_token,
}
use apt_cacher_ultra.Hostsem.Kept.{
  is_active, is_holding, has_slot, IsKept, changed_count, found_after, same_field, refs_of,
  tokens_of, is_counted,
}

module _ (s : Sem) (t : ℕ) (c : Caller) (k : IsKept s) (at_t : elem_at t s.callers ≡ some c) where
  -- A call that takes a token or gives one back.
  retoken-IsKept :
      (q : Phase) (n : ℕ)
      → is_active c.phase ≡ true
      → is_active q ≡ true
      → n + (if is_holding c.phase then 1 else 0)
        ≡ (s.slots c.slot).tokens + (if is_holding q then 1 else 0)
      → n ≤ s.limit
      → IsKept (record s {
        slots = put_slot s.slots c.slot (record (s.slots c.slot) { tokens = n });
        callers = put_at t (record c { phase = q }) s.callers;
      })
  retoken-IsKept q n live live' moved room =
      let v : HostSlot = record (s.slots c.slot) { tokens = n } in
      record {
        counted =
            changed_count is_active refs_of s.slots s.callers t c q v k.counted at_t
              (rw (live, live') refl);
        held = changed_count is_holding tokens_of s.slots s.callers t c q v k.held at_t moved;
        bound = λ i. ground (arith, k.bound i);
        fresh = λ i h. same_field refs_of s.slots c.slot v refl i ∙ k.fresh i h;
        found = found_after s.entry s.callers t c q k.found at_t live;
        in_use = λ h i e. omega (arith, same_field refs_of s.slots c.slot v refl i, k.in_use h i e);
        one_host = k.one_host;
      }

  pub take_token-IsKept : c.phase ≡ waiting → IsKept (take_token s t c)
  unfolding take_token
  take_token-IsKept w = elim (Bool-cases (ltb (s.slots c.slot).tokens s.limit)) [
    | inr e ↦ rw e k
    | inl e ↦ rw e (
        retoken-IsKept holding ((s.slots c.slot).tokens + 1) (ap is_active w) refl
          (ap (λ x. (s.slots c.slot).tokens + 1 + (if is_holding x then 1 else 0)) w ∙ omega arith)
          (ground arith))
  ]

  same_count :
      (p : Phase → Bool) (f : HostSlot → ℕ) (q : Phase)
      → ((i : ℕ) → f (s.slots i) ≡ count_if (has_slot p i) s.callers)
      → p c.phase ≡ p q
      → (i : ℕ)
      → f (s.slots i) ≡ count_if (has_slot p i) (put_at t (record c { phase = q }) s.callers)
  same_count p f q books e i =
      sym (same_field f s.slots c.slot (s.slots c.slot) refl i)
      ∙ changed_count p f s.slots s.callers t c q (s.slots c.slot) books at_t
          (ap (λ b. f (s.slots c.slot) + (if b then 1 else 0)) e) i

  pub cancel-IsKept :
      c.phase ≡ waiting
      → IsKept (record s { callers = put_at t (record c { phase = leaving }) s.callers })
  cancel-IsKept w = record {
    counted = same_count is_active refs_of leaving k.counted (ap is_active w);
    held = same_count is_holding tokens_of leaving k.held (ap is_holding w);
    bound = k.bound;
    fresh = k.fresh;
    found = found_after s.entry s.callers t c leaving k.found at_t (ap is_active w);
    in_use = k.in_use;
    one_host = k.one_host;
  }

  pub give_token-IsKept : c.phase ≡ holding → IsKept (give_token s t c)
  unfolding give_token
  give_token-IsKept w =
      let some_token = is_counted s.callers t c is_holding at_t (ap is_holding w) in
      retoken-IsKept leaving ((s.slots c.slot).tokens - 1) (ap is_active w) refl
        (ap (λ x. (s.slots c.slot).tokens - 1 + (if is_holding x then 1 else 0)) w
          ∙ omega (arith, some_token, k.held c.slot))
        (omega (arith, k.bound c.slot))
