-- ===== src/Singleflight/Results.antt =====
-- What the calls of Do that share an sfCall return.
use apt_cacher_ultra.Base.{
  ℕ, ◌≡◌, refl, sym, ap, ◌∙◌, inl, inr, true, false, Option, none, some, ◌==◌, ==_iff, arith,
  Bool-cases, Option-cases, Bytes, elem_at, put_at, elem_at-put_at, elem_at-append, count_if_pos,
}
use apt_cacher_ultra.Singleflight.{
  Phase, leading, crashed, waiting, panicked, finished, returned, Doer, Group, start_at, start,
  Move, finish, crash, remove, wake, complete, delete_key, wake_with, move_phase, move_at, move,
}
use apt_cacher_ultra.Singleflight.Kept.{runs, IsKept}
use apt_cacher_ultra.Singleflight.Runs.{Reach, begins, starts, moves, Reach-IsKept}

module _ {A : Type 0} where
  -- The result that a call of Do returns, or is about to return, if any.
  abbrev pub outcome : Phase A → Option A
  outcome leading = none
  outcome crashed = none
  outcome waiting = none
  outcome panicked = none
  outcome (finished r) = some r
  outcome (returned r s n) = some r

  -- Each result that a call returns is the one of its sfCall.
  abbrev Agree : Group A → Type 0
  Agree g =
      (t : ℕ) (c : Doer A) (r : A)
      → elem_at t g.doers ≡ some c
      → outcome c.phase ≡ some r
      → g.res c.call ≡ some r

  put_at-Agree :
      (g : Group A) (t : ℕ) (c : Doer A) (p : Phase A)
      → Agree g
      → ((r : A) → outcome p ≡ some r → g.res c.call ≡ some r)
      → (u : ℕ) (d : Doer A) (r : A)
      → elem_at u (put_at t (record c { phase = p }) g.doers) ≡ some d
      → outcome d.phase ≡ some r
      → g.res d.call ≡ some r
  put_at-Agree g t c p a new u d r at_u out =
      elim (elem_at-put_at t u g.doers (record c { phase = p }) d at_u) [
        | inl same ↦
            ap (λ (x : Doer A). g.res x.call) same
            ∙ new r (ap (λ (x : Doer A). outcome x.phase) (sym same) ∙ out)
        | inr old ↦ a u d r old out
      ]

  -- While fn runs, its sfCall has no result.
  no_result_yet :
      (g : Group A) (t : ℕ) (c : Doer A)
      → IsKept g
      → elem_at t g.doers ≡ some c
      → c.phase ≡ leading
      → g.res c.call ≡ none
  no_result_yet g t c k at_t w =
      let running =
        count_if_pos (runs c.call) t g.doers c at_t (rw (w, (==_iff c.call c.call).1 refl) refl) in
      elim (Option-cases (g.res c.call)) [
        | inl e ↦ e
        | inr (r, e) ↦ absurd (omega (arith, running, rw e at (k.once c.call)))
      ]

  complete-Agree :
      (g : Group A) (t : ℕ) (c : Doer A) (r : A) (p : Phase A)
      → IsKept g
      → elem_at t g.doers ≡ some c
      → c.phase ≡ leading
      → ((v : A) → outcome p ≡ some v → v ≡ r)
      → Agree g
      → Agree (complete g t c r p)
  unfolding complete
  complete-Agree g t c r p k at_t w mine a = λ u d v at_u out.
      elim (elem_at-put_at t u g.doers (record c { phase = p }) d at_u) [
        | inl same ↦
            let call : c.call ≡ d.call = ap (λ (x : Doer A). x.call) (sym same) in
            rw ((==_iff c.call d.call).1 call)
              (ap some (sym (mine v (ap (λ (x : Doer A). outcome x.phase) (sym same) ∙ out))))
        | inr old ↦ elim (Bool-cases (c.call == d.call)) [
          | inl same ↦ cc (
            no_result_yet g t c k at_t w,
            a u d v old out,
            ap g.res ((==_iff c.call d.call).0 same),
          )
          | inr other ↦ rw other (a u d v old out)
        ]
      ]

  move_phase-Agree :
      (m : Move A) (p : Phase A) (g : Group A) (t : ℕ) (c : Doer A)
      → c.phase ≡ p
      → elem_at t g.doers ≡ some c
      → IsKept g
      → Agree g
      → Agree (move_phase m p g t c)
  unfolding move_phase delete_key wake_with
  move_phase-Agree (finish r) leading g t c w e k a =
      complete-Agree g t c r (finished r) k e w (λ v h. cc h) a
  move_phase-Agree crash leading g t c w e k a =
      complete-Agree g t c g.panic_result crashed k e w (λ v h. cc h) a
  move_phase-Agree remove (finished r) g t c w e k a =
      put_at-Agree g t c (returned r false (g.waiters c.call)) a
        (λ v h. a t c v e (ap outcome w ∙ h))
  move_phase-Agree remove crashed g t c w e k a = put_at-Agree g t c panicked a (λ v h. cc h)
  move_phase-Agree wake waiting g t c w e k a = elim (Option-cases (g.res c.call)) [
    | inl f ↦ rw f a
    | inr (r, f) ↦ rw f (put_at-Agree g t c (returned r true 0) a (λ v h. f ∙ h))
  ]
  move_phase-Agree (finish r) _ g t c w e k a = a
  move_phase-Agree crash _ g t c w e k a = a
  move_phase-Agree remove _ g t c w e k a = a
  move_phase-Agree wake _ g t c w e k a = a

  move-Agree : (m : Move A) (g : Group A) (t : ℕ) → IsKept g → Agree g → Agree (move m g t)
  unfolding move move_at
  move-Agree m g t k a = elim (Option-cases (elem_at t g.doers)) [
    | inl e ↦ rw e a
    | inr (c, e) ↦ rw e (move_phase-Agree m c.phase g t c refl e k a)
  ]

  start-Agree : (g : Group A) (key : Bytes) → Agree g → Agree (start g key)
  unfolding start start_at
  start-Agree g key a = elim (Option-cases (g.calls key)) [
    | inl e ↦ rw e (λ u d r at_u out.
        elim (elem_at-append u g.doers (record { key = key; call = g.next_call; phase = leading }) d
          at_u) [
            | inl same ↦ cc (out, ap (λ (x : Doer A). outcome x.phase) same)
            | inr old ↦ a u d r old out
          ])
    | inr (i, e) ↦ rw e (λ u d r at_u out.
        elim (elem_at-append u g.doers (record { key = key; call = i; phase = waiting }) d at_u) [
          | inl same ↦ cc (out, ap (λ (x : Doer A). outcome x.phase) same)
          | inr old ↦ a u d r old out
        ])
  ]

pub Reach-Agree : {A : Type 0} (p : A) (g : Group A) → Reach p g → Agree g
unfolding elem_at
Reach-Agree p _ begins = λ t c r e out. cc e
Reach-Agree p _ (starts g key r) = start-Agree g key (Reach-Agree p g r)
Reach-Agree p _ (moves m g t r) = move-Agree m g t (Reach-IsKept p g r) (Reach-Agree p g r)

-- In every group that calls of Do lead to, as they start, end their fn or panic, delete their key and
-- wake, two calls that share an sfCall and have a result have the same one, whichever of them led it.
pub one_result :
    {A : Type 0} (p : A) (g : Group A) (t u : ℕ) (c d : Doer A) (r s : A)
    → Reach p g
    → elem_at t g.doers ≡ some c
    → elem_at u g.doers ≡ some d
    → c.call ≡ d.call
    → outcome c.phase ≡ some r
    → outcome d.phase ≡ some s
    → r ≡ s
one_result p g t u c d r s reach at_t at_u same out_c out_d =
    let a = Reach-Agree p g reach in
    let e : some r ≡ some s = sym (a t c r at_t out_c) ∙ (ap g.res same ∙ a u d s at_u out_d) in
    cc e
