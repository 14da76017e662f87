-- ===== src/Singleflight/Shared.antt =====
-- One run of fn for a key, and no waiter left alone.
use apt_cacher_ultra.Base.{
  ℕ, ◌≤◌, ◌≡◌, ◌≢◌, refl, sym, ap, ◌∙◌, ◌⊎◌, inl, inr, Bool, true, false, ◌&&◌, Option, none, some,
  arith, Option-cases, subst, Bytes, bytes_eq, bytes_eq_iff, elem_at, count_if, elem_at-put_at_self,
  count_if-some, count_if_le,
}
use apt_cacher_ultra.Singleflight.{
  Phase, leading, crashed, waiting, panicked, finished, returned, Doer, Group, wake, wake_with,
  move_phase, move_at, move,
}
use apt_cacher_ultra.Singleflight.Kept.{
  has_value, is_running, is_closing, is_waiting, is_leader, leads, IsKept,
}
use apt_cacher_ultra.Singleflight.Runs.{Reach, Reach-IsKept}

both : (a b : Bool) → (a && b) ≡ true → (a ≡ true) × (b ≡ true)
both true b e = (refl, e)
both false b e = cc e

-- A call of Do that runs fn for this key.
abbrev pub runs_key : {A : Type 0} → Bytes → Doer A → Bool
runs_key key c = is_running c.phase && bytes_eq c.key key

-- In whatever order calls of Do start, end their fn or panic, delete their key and wake, at most one
-- of them runs fn for one key.
pub one_run :
    {A : Type 0} (p : A) (g : Group A)
    → Reach p g
    → (key : Bytes) → count_if (runs_key key) g.doers ≤ 1
one_run {A} p g r key =
    let k = Reach-IsKept p g r in
    ground (
      arith,
      k.one key,
      count_if_le (runs_key key) (leads key) g.doers
          (λ t c e h. running_leads c.phase (bytes_eq c.key key) h),
    )
  where
    running_leads :
        (x : Phase A) (b : Bool) → (is_running x && b) ≡ true → (is_leader x && b) ≡ true
    running_leads leading b e = e
    running_leads crashed b e = cc e
    running_leads waiting b e = cc e
    running_leads panicked b e = cc e
    running_leads (finished a) b e = cc e
    running_leads (returned a s n) b e = cc e

leader_cases :
    {A : Type 0} (x : Phase A) → is_leader x ≡ true → (is_running x ≡ true) ⊎ (is_closing x ≡ true)
leader_cases leading e = inl refl
leader_cases crashed e = inr refl
leader_cases waiting e = cc e
leader_cases panicked e = cc e
leader_cases (finished a) e = inr refl
leader_cases (returned a s n) e = cc e

module _ {A : Type 0} (g : Group A) (k : IsKept g) (t : ℕ) (c : Doer A)
    (at_t : elem_at t g.doers ≡ some c) (w : c.phase ≡ waiting) where
  wake_result :
      (r : A)
      → g.res c.call ≡ some r
      → elem_at t (move wake g t).doers ≡ some (record c { phase = returned r true 0 })
  unfolding move move_at move_phase wake_with
  wake_result r e =
      rw (at_t, woken, e)
        (elem_at-put_at_self t g.doers c (record c { phase = returned r true 0 }) at_t)
    where
      woken : move_phase wake c.phase g t c ≡ wake_with g t c (g.res c.call)
      woken = subst (λ x. move_phase wake x g t c ≡ wake_with g t c (g.res c.call)) (sym w) refl

  still_running :
      g.res c.call ≡ none
      → (u : ℕ) × (d : Doer A) × (elem_at u g.doers ≡ some d)
        × (is_running d.phase ≡ true)
        × (d.key ≡ c.key)
        × (d.call ≡ c.call)
  still_running e =
      let mine = k.joined t c at_t (ap is_waiting w) e in
      let leader : 1 ≤ count_if (leads c.key) g.doers = omega (arith, rw mine at (k.one c.key)) in
      let (u, d, at_u, l) = count_if-some (leads c.key) g.doers leader in
      let (lead, same) = both (is_leader d.phase) (bytes_eq d.key c.key) l in
      let key_same = (bytes_eq_iff d.key c.key).0 same in
      let call_same : some d.call ≡ some c.call =
        sym (k.found u d at_u lead) ∙ (ap g.calls key_same ∙ mine) in
      let one_call : d.call ≡ c.call = cc call_same in
      elim (leader_cases d.phase lead) [
        | inl run ↦ (u, d, at_u, run, key_same, one_call)
        | inr over ↦
            absurd (no_result (g.res d.call) (k.closed u d at_u over) (ap g.res one_call ∙ e))
      ]
    where
      no_result : (o : Option A) → has_value o ≡ true → o ≢ none
      no_result none h n = cc h
      no_result (some a) h n = cc n

-- In every group that calls of Do lead to, as they start, end their fn or panic, delete their key and
-- wake, a call that waits either returns a result, as shared, at its next step, or the leader of the
-- sfCall that it joined still runs fn, for the same key.
pub waiting_served :
    {A : Type 0} (p : A) (g : Group A) (t : ℕ) (c : Doer A)
    → Reach p g
    → elem_at t g.doers ≡ some c
    → c.phase ≡ waiting
    → ((r : A) × (elem_at t (move wake g t).doers ≡ some (record c { phase = returned r true 0 })))
      ⊎ ((u : ℕ) × (d : Doer A) × (elem_at u g.doers ≡ some d)
          × (is_running d.phase ≡ true)
          × (d.key ≡ c.key)
          × (d.call ≡ c.call))
waiting_served p g t c r at_t w =
    let k = Reach-IsKept p g r in
    elim (Option-cases (g.res c.call)) [
      | inl e ↦ inr (still_running g k t c at_t w e)
      | inr (v, e) ↦ inl (v, wake_result g k t c at_t w v e)
    ]
