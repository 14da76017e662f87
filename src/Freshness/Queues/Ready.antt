-- ===== src/Freshness/Queues/Ready.antt =====
-- A host is ready when its turn would yield an item.
use apt_cacher_ultra.Base.{
  ℕ, ◌+◌, ◌%◌, ◌≡◌, refl, ◌∙◌, ap, sym, inl, inr, Bool, true, false, not, ◌&&◌, ◌||◌, Option, none,
  some, List, [], ◌∷◌, if◌then◌else◌, length, subst, Bool-cases, Option-cases,
}
use apt_cacher_ultra.Freshness.Queues.{
  SchedItem, HostQueue, SchedQueues, Admit, Popped, host_turn, waiter_turn, best_turn, take_waiter,
  take_best, best_of, is_nil,
}

-- Some waiter is not held and is admitted.
unfoldable pub offers : (Bool → Bool) → List SchedItem → Bool
offers admit [] = false
offers admit (w ∷ ws) = not w.held && admit w.signed || offers admit ws

-- A host with no check in flight, and a waiter that may go or an item of some class.
unfoldable pub is_ready : Admit → HostQueue → Bool
is_ready admit h =
    not h.in_flight
    && (offers (admit h.host) h.waiting
        || not (is_nil h.healthy && (is_nil h.never_checked && is_nil h.failing)))

abbrev pub is_found : Popped → Bool
is_found none = false
is_found (some r) = true

unfoldable pub ready_at : Admit → Option HostQueue → Bool
ready_at admit none = false
ready_at admit (some h) = is_ready admit h

abbrev is_taken : Option (SchedItem × List SchedItem) → Bool
is_taken none = false
is_taken (some r) = true

take_waiter-offers :
    (admit : Bool → Bool) (ws : List SchedItem) → is_taken (take_waiter admit ws) ≡ offers admit ws
unfolding take_waiter offers
take_waiter-offers admit [] = refl
take_waiter-offers admit (w ∷ ws) =
    let rest = take_waiter-offers admit ws in
    elim (Bool-cases (not w.held && admit w.signed)) [
      | inl a ↦ rw a refl
      | inr a ↦ elim (Option-cases (take_waiter admit ws)) [
        | inl e ↦ rw (a, e) (rw e at rest)
        | inr (r, e) ↦ rw (a, e) (rw e at rest)
      ]
    ]

best_turn-found :
    (q : SchedQueues) (idx : ℕ) (h : HostQueue) (hs ns fs : List SchedItem)
    → is_found (best_turn q idx (best_of h hs ns fs)) ≡ not (is_nil hs && (is_nil ns && is_nil fs))
unfolding best_turn best_of is_nil
best_turn-found q idx h (x ∷ hs) ns fs = refl
best_turn-found q idx h [] (x ∷ ns) fs = refl
best_turn-found q idx h [] [] (x ∷ fs) = refl
best_turn-found q idx h [] [] [] = refl

waiter_turn-found :
    (q : SchedQueues) (idx : ℕ) (h : HostQueue) (o : Option (SchedItem × List SchedItem))
    → is_found (waiter_turn q idx h o)
      ≡ (is_taken o || not (is_nil h.healthy && (is_nil h.never_checked && is_nil h.failing)))
unfolding waiter_turn take_best
waiter_turn-found q idx h none = best_turn-found q idx h h.healthy h.never_checked h.failing
waiter_turn-found q idx h (some (w, ws)) = refl

-- The turn of a host yields an item exactly when the host is ready.
pub host_turn-ready_at :
    (admit : Admit) (q : SchedQueues) (idx : ℕ) (o : Option HostQueue)
    → is_found (host_turn admit q idx o) ≡ ready_at admit o
unfolding host_turn ready_at is_ready
host_turn-ready_at admit q idx none = refl
host_turn-ready_at admit q idx (some h) =
    let taken = take_waiter (admit h.host) h.waiting in
    let turn = waiter_turn-found q idx h taken in
    let same = take_waiter-offers (admit h.host) h.waiting in
    elim (Bool-cases h.in_flight) [
      | inl a ↦
          subst
            (λ b. is_found (if b then none else waiter_turn q idx h taken) ≡ (
              not b
              && (offers (admit h.host) h.waiting
                  || not (is_nil h.healthy && (is_nil h.never_checked && is_nil h.failing)))))
            (sym a) refl
      | inr a ↦
          subst
            (λ b. is_found (if b then none else waiter_turn q idx h taken) ≡ (
              not b
              && (offers (admit h.host) h.waiting
                  || not (is_nil h.healthy && (is_nil h.never_checked && is_nil h.failing)))))
            (sym a)
            (turn
              ∙ ap
                  (λ b. b || not (is_nil h.healthy && (is_nil h.never_checked && is_nil h.failing)))
                  same)
    ]

-- The turn behind one that yields an item.
unfoldable NextIs : SchedQueues → ℕ → Popped → Type 0
NextIs q idx none = Unit
NextIs q idx (some (x, r)) = r.next ≡ (idx + 1) % length q.ring

best_turn-NextIs :
    (q : SchedQueues) (idx : ℕ) (o : Option (SchedItem × HostQueue))
    → NextIs q idx (best_turn q idx o)
unfolding best_turn NextIs
best_turn-NextIs q idx none = tt
best_turn-NextIs q idx (some (x, h)) = refl

waiter_turn-NextIs :
    (q : SchedQueues) (idx : ℕ) (h : HostQueue) (o : Option (SchedItem × List SchedItem))
    → NextIs q idx (waiter_turn q idx h o)
unfolding waiter_turn NextIs
waiter_turn-NextIs q idx h none = best_turn-NextIs q idx (take_best h)
waiter_turn-NextIs q idx h (some (w, ws)) = refl

host_turn-NextIs :
    (admit : Admit) (q : SchedQueues) (idx : ℕ) (h : HostQueue) (b : Bool)
    → NextIs q idx (if b then none else waiter_turn q idx h (take_waiter (admit h.host) h.waiting))
unfolding NextIs
host_turn-NextIs admit q idx h true = tt
host_turn-NextIs admit q idx h false =
    waiter_turn-NextIs q idx h (take_waiter (admit h.host) h.waiting)

pub host_turn_next :
    (admit : Admit) (q : SchedQueues) (idx : ℕ) (h : HostQueue) (x : SchedItem) (r : SchedQueues)
    → host_turn admit q idx (some h) ≡ some (x, r)
    → r.next ≡ (idx + 1) % length q.ring
unfolding host_turn NextIs
host_turn_next admit q idx h x r e =
    subst (NextIs q idx) e (host_turn-NextIs admit q idx h h.in_flight)
