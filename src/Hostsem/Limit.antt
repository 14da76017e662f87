-- ===== src/Hostsem/Limit.antt =====
-- The limit of each host, and what Snapshot shows.
use apt_cacher_ultra.Base.{
  ℕ, ◌≤◌, ◌≡◌, refl, sym, ap, ◌∙◌, inl, inr, Bool, true, false, ◌&&◌, none, some, ltb, ◌==◌, ==_iff,
  if◌then◌else◌, arith, Bool-cases, Option-cases, subst, Bytes, bytes_eq, bytes_eq_iff, elem_at,
  count_if, count_if_le, count_if_zero,
}
use apt_cacher_ultra.Hostsem.{
  Phase, waiting, holding, leaving, done, Caller, Sem, stat_at, host_stat,
}
use apt_cacher_ultra.Hostsem.Kept.{is_active, is_holding, has_slot, IsKept}
use apt_cacher_ultra.Hostsem.Runs.{Reach, Reach-IsKept, Reach-limit}

-- A call for this host in such a phase.
abbrev pub on_host : (Phase → Bool) → Bytes → Caller → Bool
on_host p host c = p c.phase && bytes_eq c.host host

both : (a b : Bool) → (a && b) ≡ true → (a ≡ true) × (b ≡ true)
both true b e = (refl, e)
both false b e = cc e

module _ (s : Sem) (host : Bytes) (k : IsKept s) (p : Phase → Bool)
    (live : (x : Phase) → p x ≡ true → is_active x ≡ true) where
  entry_of :
      (t : ℕ) (c : Caller)
      → elem_at t s.callers ≡ some c
      → on_host p host c ≡ true
      → s.entry host ≡ some c.slot
  entry_of t c at_t call =
      let (a, b) = both (p c.phase) (bytes_eq c.host host) call in
      subst (λ h. s.entry h ≡ some c.slot) ((bytes_eq_iff c.host host).0 b)
        (k.found t c at_t (live c.phase a))

  host-none : s.entry host ≡ none → count_if (on_host p host) s.callers ≡ 0
  host-none e = count_if_zero (on_host p host) s.callers (λ t c at_t. absent t c at_t)
    where
      absent : (t : ℕ) (c : Caller) → elem_at t s.callers ≡ some c → on_host p host c ≡ false
      absent t c at_t = elim (Bool-cases (on_host p host c)) [
        | inr no_call ↦ no_call
        | inl call ↦ cc (e, entry_of t c at_t call)
      ]

  -- The calls for a host are the calls with its slot.
  host_counts :
      (i : ℕ)
      → s.entry host ≡ some i
      → count_if (on_host p host) s.callers ≡ count_if (has_slot p i) s.callers
  host_counts i e = omega (
    arith,
    count_if_le (on_host p host) (has_slot p i) s.callers (λ t c at_t call. to_slot t c at_t call),
    count_if_le (has_slot p i) (on_host p host) s.callers (λ t c at_t call. to_host t c at_t call),
  )
    where
      to_slot :
          (t : ℕ) (c : Caller)
          → elem_at t s.callers ≡ some c
          → on_host p host c ≡ true
          → has_slot p i c ≡ true
      to_slot t c at_t call =
          let (a, b) = both (p c.phase) (bytes_eq c.host host) call in
          let same : some c.slot ≡ some i = sym (entry_of t c at_t call) ∙ e in
          let mine : c.slot ≡ i = cc same in rw (a, (==_iff c.slot i).1 mine) refl

      to_host :
          (t : ℕ) (c : Caller)
          → elem_at t s.callers ≡ some c
          → has_slot p i c ≡ true
          → on_host p host c ≡ true
      to_host t c at_t call =
          let (a, b) = both (p c.phase) (c.slot == i) call in
          let same : s.entry c.host ≡ some i =
            k.found t c at_t (live c.phase a) ∙ ap some ((==_iff c.slot i).0 b) in
          rw (a, (bytes_eq_iff c.host host).1 (k.one_host c.host host i same e)) refl

active_active : (x : Phase) → is_active x ≡ true → is_active x ≡ true
active_active x e = e

holding_active : (x : Phase) → is_holding x ≡ true → is_active x ≡ true
holding_active waiting e = cc
holding_active holding e = refl
holding_active leaving e = cc
holding_active done e = cc

-- In whatever order calls of Acquire start, get their tokens, are cancelled and run their closures, the
-- calls that hold a token for one host are never more than the limit.
pub in_flight-le-limit :
    (limit : ℕ) (s : Sem)
    → Reach limit s
    → (host : Bytes) → count_if (on_host is_holding host) s.callers ≤ limit
in_flight-le-limit limit s r host =
    let k = Reach-IsKept limit s r in
    elim (Option-cases (s.entry host)) [
      | inl e ↦ omega (arith, host-none s host k is_holding holding_active e)
      | inr (i, e) ↦ omega (
        arith,
        host_counts s host k is_holding holding_active i e,
        k.held i,
        k.bound i,
        Reach-limit limit s r,
      )
    ]

-- In every semaphore that calls of Acquire lead to, as they start, get their tokens, are cancelled and
-- run their closures, the map has a host just when some call for it is not done, and Snapshot then
-- shows how many calls hold a token for it, and the limit.
pub host_stat_lem :
    (limit : ℕ) (s : Sem)
    → Reach limit s
    → (host : Bytes)
    → host_stat s host ≡ (
        if ltb 0 (count_if (on_host is_active host) s.callers)
        then some
            (record { inflight = count_if (on_host is_holding host) s.callers; capacity = limit })
        else none)
unfolding host_stat stat_at
host_stat_lem limit s r host =
    let k = Reach-IsKept limit s r in
    elim (Option-cases (s.entry host)) [
      | inl e ↦ rw (e, host-none s host k is_active active_active e) refl
      | inr (i, e) ↦
          let users = host_counts s host k is_active active_active i e in
          let some_user : ltb 0 (count_if (on_host is_active host) s.callers) ≡ true =
            ground (arith, users, k.counted i, k.in_use host i e) in
          rw
            (
              e,
              some_user,
              host_counts s host k is_holding holding_active i e,
              ← k.held i,
              Reach-limit limit s r,
            )
            refl
    ]
