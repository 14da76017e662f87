-- ===== src/Singleflight/Ends.antt =====
-- The steps that calls of Do have left.
use apt_cacher_ultra.Base.{
  ℕ, suc, ◌+◌, ◌≤◌, ◌≡◌, ◌≢◌, refl, sym, ap, ◌∙◌, ◌⊎◌, inl, inr, true, false, some, List, [], ◌∷◌,
  arith, leb, leb→le, Bool-cases, Option-cases, subst, elem_at, put_at, sum_of, sum_of-put_at,
}
use apt_cacher_ultra.Singleflight.{
  Phase, leading, crashed, waiting, panicked, finished, returned, Doer, Group, Move, finish, crash,
  remove, wake, complete, delete_key, wake_with, move_phase, move_at, move,
}
use apt_cacher_ultra.Singleflight.Kept.{is_running, is_leader, is_waiting}
use apt_cacher_ultra.Singleflight.Runs.{Reach}
use apt_cacher_ultra.Singleflight.Shared.{waiting_served}

module _ {A : Type 0} where
  -- How many steps a call has left at most.
  abbrev pub to_go : Phase A → ℕ
  to_go leading = 2
  to_go crashed = 1
  to_go waiting = 1
  to_go panicked = 0
  to_go (finished r) = 1
  to_go (returned r s n) = 0

  abbrev pub steps_left : Group A → ℕ
  steps_left g = sum_of (λ (c : Doer A). to_go c.phase) g.doers

  -- The step that a call takes next when its fn returns r.
  abbrev pub next_move : A → Phase A → Move A
  next_move r leading = finish r
  next_move r crashed = remove
  next_move r (finished v) = remove
  next_move r _ = wake

  -- So many steps, each of which does something.
  pub data Steps : Group A → ℕ → Group A → Type 0 where
    rest : (g : Group A) → Steps g 0 g
    step :
        (g h : Group A) (n t : ℕ) (m : Move A)
        → move m g t ≢ g
        → Steps (move m g t) n h
        → Steps g (suc n) h

  put_spends :
      (g : Group A) (t : ℕ) (c : Doer A) (p : Phase A)
      → elem_at t g.doers ≡ some c
      → to_go p + 1 ≡ to_go c.phase
      → sum_of (λ (d : Doer A). to_go d.phase) (put_at t (record c { phase = p }) g.doers) + 1
        ≡ steps_left g
  put_spends g t c p e w = omega (
    arith,
    sum_of-put_at (λ (d : Doer A). to_go d.phase) t g.doers c (record c { phase = p }) e,
    w,
  )

  phase_spends :
      (m : Move A) (p : Phase A) (g : Group A) (t : ℕ) (c : Doer A)
      → c.phase ≡ p
      → elem_at t g.doers ≡ some c
      → (move_phase m p g t c ≡ g) ⊎ (steps_left (move_phase m p g t c) + 1 ≡ steps_left g)
  unfolding move_phase complete delete_key wake_with
  phase_spends (finish r) leading g t c w e =
      inr (put_spends g t c (finished r) e (ap to_go (sym w)))
  phase_spends crash leading g t c w e = inr (put_spends g t c crashed e (ap to_go (sym w)))
  phase_spends remove (finished r) g t c w e =
      inr (put_spends g t c (returned r false (g.waiters c.call)) e (ap to_go (sym w)))
  phase_spends remove crashed g t c w e = inr (put_spends g t c panicked e (ap to_go (sym w)))
  phase_spends wake waiting g t c w e = elim (Option-cases (g.res c.call)) [
    | inl f ↦ rw f (inl refl)
    | inr (r, f) ↦ rw f (inr (put_spends g t c (returned r true 0) e (ap to_go (sym w))))
  ]
  phase_spends (finish r) _ g t c w e = inl refl
  phase_spends crash _ g t c w e = inl refl
  phase_spends remove _ g t c w e = inl refl
  phase_spends wake _ g t c w e = inl refl

  move_spends :
      (m : Move A) (g : Group A) (t : ℕ)
      → (move m g t ≡ g) ⊎ (steps_left (move m g t) + 1 ≡ steps_left g)
  unfolding move move_at
  move_spends m g t = elim (Option-cases (elem_at t g.doers)) [
    | inl e ↦ rw e (inl refl)
    | inr (c, e) ↦ rw e (phase_spends m c.phase g t c refl e)
  ]

  Steps-spend : (g h : Group A) (n : ℕ) → Steps g n h → n + steps_left h ≡ steps_left g
  Steps-spend g _ _ (rest _) = omega arith
  Steps-spend g h _ (step _ _ n t m acts s) = elim (move_spends m g t) [
    | inl idle ↦ absurd (acts idle)
    | inr spent ↦ omega (arith, Steps-spend (move m g t) h n s, spent)
  ]

  some_left :
      (cs : List (Doer A))
      → 1 ≤ sum_of (λ (c : Doer A). to_go c.phase) cs
      → (t : ℕ) × (c : Doer A) × (elem_at t cs ≡ some c) × (1 ≤ to_go c.phase)
  unfolding sum_of elem_at
  some_left [] h = absurd (omega arith)
  some_left (c ∷ cs) h = elim (Bool-cases (leb 1 (to_go c.phase))) [
    | inl a ↦ (0, c, refl, leb→le 1 (to_go c.phase) a)
    | inr a ↦ let (t, d, e, w) = some_left cs (ground (arith, a, h)) in (suc t, d, e, w)
  ]

  left_cases : (p : Phase A) → 1 ≤ to_go p → (is_leader p ≡ true) ⊎ (p ≡ waiting)
  left_cases leading h = inl refl
  left_cases crashed h = inl refl
  left_cases waiting h = inr refl
  left_cases panicked h = absurd (omega arith)
  left_cases (finished r) h = inl refl
  left_cases (returned r s n) h = absurd (omega arith)

  running_leads : (p : Phase A) → is_running p ≡ true → is_leader p ≡ true
  running_leads leading h = refl
  running_leads crashed h = refl
  running_leads waiting h = cc h
  running_leads panicked h = cc h
  running_leads (finished r) h = refl
  running_leads (returned r s n) h = cc h

  phase_steps :
      (g : Group A) (t : ℕ) (c : Doer A) (r : A) (p : Phase A)
      → elem_at t g.doers ≡ some c
      → c.phase ≡ p
      → is_leader p ≡ true
      → steps_left (move_phase (next_move r p) p g t c) + 1 ≡ steps_left g
  unfolding move_phase complete delete_key
  phase_steps g t c r leading e w l = put_spends g t c (finished r) e (ap to_go (sym w))
  phase_steps g t c r crashed e w l = put_spends g t c panicked e (ap to_go (sym w))
  phase_steps g t c r (finished v) e w l =
      put_spends g t c (returned v false (g.waiters c.call)) e (ap to_go (sym w))
  phase_steps g t c r waiting e w l = cc l
  phase_steps g t c r panicked e w l = cc l
  phase_steps g t c r (returned v s n) e w l = cc l

  leader_steps :
      (g : Group A) (t : ℕ) (c : Doer A) (r : A)
      → elem_at t g.doers ≡ some c
      → is_leader c.phase ≡ true
      → steps_left (move (next_move r c.phase) g t) + 1 ≡ steps_left g
  unfolding move move_at
  leader_steps g t c r e l = rw e (phase_steps g t c r c.phase e refl l)

  -- A call that waits and gets its result has one step less.
  woken_steps :
      (g : Group A) (t : ℕ) (c : Doer A) (r : A)
      → elem_at t g.doers ≡ some c
      → c.phase ≡ waiting
      → elem_at t (move wake g t).doers ≡ some (record c { phase = returned r true 0 })
      → steps_left (move wake g t) + 1 ≡ steps_left g
  woken_steps g t c r e w woken = elim (move_spends wake g t) [
    | inr spent ↦ spent
    | inl idle ↦
        let same : some c ≡ some (record c { phase = returned r true 0 }) =
          sym e ∙ (ap (λ (h : Group A). elem_at t h.doers) (sym idle) ∙ woken) in
        let one : c ≡ record c { phase = returned r true 0 } = cc same in
        cc (ap is_waiting w, ap (λ (x : Doer A). is_waiting x.phase) one)
  ]

-- The calls of Do that have started end, whatever order they take their steps in: of the steps that do
-- something no more follow than are left, and in every group that calls of Do lead to, while any are
-- left, some call takes one at its next move if a leader's fn returns.
pub calls_end :
    {A : Type 0} (p : A) (g : Group A)
    → Reach p g
    → ((h : Group A) (n : ℕ) → Steps g n h → n + steps_left h ≡ steps_left g)
      × ((r : A)
          → 1 ≤ steps_left g
          → (t : ℕ) × (c : Doer A) × (elem_at t g.doers ≡ some c)
            × (steps_left (move (next_move r c.phase) g t) + 1 ≡ steps_left g))
calls_end p g reach = (
  Steps-spend g,
  λ r h.
      let (t, c, e, w) = some_left g.doers h in
      elim (left_cases c.phase w) [
        | inl l ↦ (t, c, e, leader_steps g t c r e l)
        | inr l ↦ elim (waiting_served p g t c reach e l) [
          | inl (v, woken) ↦ (
            t,
            c,
            e,
            subst (λ x. steps_left (move (next_move r x) g t) + 1 ≡ steps_left g) (sym l)
                (woken_steps g t c v e l woken),
          )
          | inr (u, d, at_u, run, same_key, same_call) ↦
              (u, d, at_u, leader_steps g u d r at_u (running_leads d.phase run))
        ]
      ],
)
