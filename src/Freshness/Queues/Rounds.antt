-- ===== src/Freshness/Queues/Rounds.antt =====
-- pop's round: it takes the first host behind the turn that has something to check.
use apt_cacher_ultra.Base.{
  ℕ, zero, suc, ◌+◌, ◌-◌, ◌%◌, ◌≤◌, ◌<◌, ◌≡◌, refl, ◌∙◌, ap, sym, inl, inr, true, false, Option,
  none, some, arith, elem_at, elem_at-length, length, subst, Bool-cases, Option-cases, leb, leb→le,
  ◌==◌, ==_iff, ◌↔◌,
}
use native.Mathlib.Nat.{mod-lt, mod-eq_of_lt, mod-add-mod, add-mod_right}
use apt_cacher_ultra.Freshness.Queues.{
  SchedItem, HostQueue, SchedQueues, Admit, pop, pop_from, host_turn, or_else,
}
use apt_cacher_ultra.Freshness.Queues.Ready.{
  is_ready, is_found, ready_at, host_turn-ready_at, host_turn_next,
}

-- The place of the ring that pop looks at in round i.
abbrev pub place_of : SchedQueues → ℕ → ℕ
place_of q i = (q.next + i) % length q.ring

-- Behind the turn, every place comes up within one round.
pub round_covers : (next p n : ℕ) → p < n → (i : ℕ) × (i < n) × ((next + i) % n ≡ p)
round_covers next p n h =
    let m = next % n in
    let small : m < n = mod-lt next (omega (arith, h)) in
    let turned = λ (i : ℕ). sym (mod-add-mod next n i) in
    elim (Bool-cases (leb m p)) [
      | inl a ↦
          let sum : m + (p - m) ≡ p = omega (arith, leb→le m p a) in
          (p - m, omega (arith, h), turned (p - m) ∙ ap (λ z. z % n) sum ∙ mod-eq_of_lt h)
      | inr a ↦
          let more : p < m = ground (arith, a) in
          let sum : m + (p + n - m) ≡ p + n = omega (arith, small) in
          (
            p + n - m,
            omega (arith, more, small),
            turned (p + n - m) ∙ ap (λ z. z % n) sum ∙ add-mod_right p n ∙ mod-eq_of_lt h,
          )
    ]

-- What stands at the place of a round, and whether it is ready.
abbrev host_in : SchedQueues → ℕ → Option HostQueue
host_in q i = elem_at (place_of q i) q.ring

pop_from-none :
    (admit : Admit) (q : SchedQueues) (i left : ℕ)
    → pop_from admit q i left ≡ none
    → (j : ℕ) → i ≤ j
    → j < i + left
    → ready_at admit (host_in q j) ≡ false
unfolding pop_from or_else
pop_from-none admit q i zero e j h k = absurd (omega arith)
pop_from-none admit q i (suc left) e j h k =
    let turn = host_turn admit q (place_of q i) (host_in q i) in
    let same = host_turn-ready_at admit q (place_of q i) (host_in q i) in
    let later = λ (w : pop_from admit q (suc i) left ≡ none) (l : suc i ≤ j).
      pop_from-none admit q (suc i) left w j l (omega (arith, k)) in
    elim (Option-cases turn) [
      | inl f ↦ elim (Bool-cases (i == j)) [
        | inl a ↦
            subst (λ z. ready_at admit (host_in q z) ≡ false) ((==_iff i j).0 a)
              (sym same ∙ ap is_found f)
        | inr a ↦ later (rw f at e) (ground (arith, a, h))
      ]
      | inr (r, f) ↦ cc (rw f at e)
    ]

-- The round in which pop finds its item.
pub record IsRound (admit : Admit) (q : SchedQueues) (from : ℕ) (x : SchedItem) (r : SchedQueues)
    : Type 0 where
  pub round : ℕ
  pub not_before : from ≤ round
  pub found : host_turn admit q (place_of q round) (elem_at (place_of q round) q.ring) ≡ some (x, r)
  pub passed :
      (j : ℕ) → from ≤ j → j < round → ready_at admit (elem_at (place_of q j) q.ring) ≡ false

pop_from-IsRound :
    (admit : Admit) (q : SchedQueues) (i left : ℕ) (x : SchedItem) (r : SchedQueues)
    → pop_from admit q i left ≡ some (x, r)
    → (t : IsRound admit q i x r) × (t.round < i + left)
unfolding pop_from or_else
pop_from-IsRound admit q i zero x r e = cc e
pop_from-IsRound admit q i (suc left) x r e =
    let turn = host_turn admit q (place_of q i) (host_in q i) in
    let same = host_turn-ready_at admit q (place_of q i) (host_in q i) in
    let later = λ (w : pop_from admit q (suc i) left ≡ some (x, r)).
      pop_from-IsRound admit q (suc i) left x r w in
    elim (Option-cases turn) [
      | inl f ↦
          let (t, h) = later (rw f at e) in
          (
            record {
              round = t.round;
              not_before = omega (arith, t.not_before);
              found = t.found;
              passed = λ j a b. elim (Bool-cases (i == j)) [
                | inl c ↦
                    subst (λ z. ready_at admit (host_in q z) ≡ false) ((==_iff i j).0 c)
                      (sym same ∙ ap is_found f)
                | inr c ↦ t.passed j (ground (arith, c, a)) b
              ];
            },
            omega (arith, h),
          )
      | inr (s, f) ↦ (
        record {
          round = i;
          not_before = omega arith;
          found = f ∙ (rw f at e);
          passed = λ j a b. absurd (omega (arith, a, b));
        },
        omega arith,
      )
    ]

no_host : (admit : Admit) (q : SchedQueues) (idx : ℕ) → host_turn admit q idx none ≡ none
unfolding host_turn
no_host admit q idx = refl

-- Hosts take turns: when pop returns an item, it is that of the host in some round i of fewer than the
-- ring has hosts, at place (next + i) mod the length; that host is ready, no host in a round before it
-- is, and the next turn is that of the place behind it.
pub pop_round :
    (q r : SchedQueues) (admit : Admit) (x : SchedItem)
    → pop q admit ≡ some (x, r)
    → (i : ℕ) × (h : HostQueue) × (i < length q.ring)
      × (elem_at (place_of q i) q.ring ≡ some h)
      × (is_ready admit h ≡ true)
      × (host_turn admit q (place_of q i) (some h) ≡ some (x, r))
      × (r.next ≡ (place_of q i + 1) % length q.ring)
      × ((j : ℕ) (g : HostQueue)
          → j < i
          → elem_at (place_of q j) q.ring ≡ some g
          → is_ready admit g ≡ false)
unfolding pop ready_at
pop_round q r admit x e =
    let (t, h) = pop_from-IsRound admit q 0 (length q.ring) x r e in
    elim (Option-cases (host_in q t.round)) [
      | inl e ↦ cc (no_host admit q (place_of q t.round), rw e at t.found)
      | inr (g, e) ↦
          let turn = rw e at t.found in
          (
            t.round,
            g,
            omega (arith, h),
            e,
            sym (host_turn-ready_at admit q (place_of q t.round) (some g)) ∙ ap is_found turn,
            turn,
            host_turn_next admit q (place_of q t.round) g x r turn,
            λ j k a b. rw (b) at (t.passed j (omega arith) a),
          )
    ]

-- pop returns nothing exactly when no host of the ring is ready: each has a check in flight, or neither
-- an item in a class nor a waiter that is not held and that admit allows.
pub pop_idle :
    (q : SchedQueues) (admit : Admit)
    → (pop q admit ≡ none)
      ↔ ((p : ℕ) (h : HostQueue) → elem_at p q.ring ≡ some h → is_ready admit h ≡ false)
unfolding pop ready_at
pop_idle q admit = (
  λ e p h at_p.
      let (i, small, w) = round_covers q.next p (length q.ring) (elem_at-length p q.ring h at_p) in
      let unready =
        pop_from-none admit q 0 (length q.ring) e i (omega arith) (omega (arith, small)) in
      rw (w, at_p) at (unready),
  λ none_ready. elim (Option-cases (pop q admit)) [
    | inl e ↦ e
    | inr ((x, r), e) ↦
        let (i, h, small, at_i, ready, turn, next, before) = pop_round q r admit x e in
        cc (none_ready (place_of q i) h at_i, ready)
  ],
)
