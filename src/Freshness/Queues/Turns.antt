-- ===== src/Freshness/Queues/Turns.antt =====
-- pop: the first host of the round whose turn yields an item, and what that host loses.
use apt_cacher_ultra.Base.{
  ℕ, zero, suc, ◌+◌, ◌%◌, ◌≡◌, refl, sym, ◌⊎◌, inl, inr, Bool, true, false, Option, none, some,
  List, [], ◌∷◌, if◌then◌else◌, arith, Bool-cases, elem_at, put_at, count_if, subst, length,
}
use apt_cacher_ultra.Cache.Newest.{is_in}
use apt_cacher_ultra.Freshness.Queues.{
  SchedItem, HostQueue, SchedQueues, take_waiter, take_best, best_of, Admit, Popped, best_turn,
  waiter_turn, host_turn, or_else, pop_from, pop,
}
use apt_cacher_ultra.Freshness.Queues.Tally.{ItemTest, host_sum, of_item, one_if, take_waiter-count}

-- What a turn does: a host of the ring with no check in flight gives up one item, and is in flight.
pub record IsTurn (q : SchedQueues) (x : SchedItem) (r : SchedQueues) : Type 0 where
  pub place : ℕ
  pub before : HostQueue
  pub after : HostQueue
  pub stood : elem_at place q.ring ≡ some before
  pub rested : before.in_flight ≡ false
  pub ring_after : r.ring ≡ put_at place after q.ring
  pub same_host : after.host ≡ before.host
  pub flies : after.in_flight ≡ true
  pub lost :
      (p : ItemTest) → host_sum p after + one_if (of_item p before.host x) ≡ host_sum p before
  pub waiters :
      (after.waiting ≡ before.waiting)
      ⊎ ((admit : Bool → Bool) × (take_waiter admit before.waiting ≡ some (x, after.waiting)))
  pub same_queued : r.queued ≡ q.queued
  pub next_after : r.next ≡ (place + 1) % length q.ring
  pub same_seq : r.wait_seq ≡ q.wait_seq

-- What is said of an item that is found, and of the queues that it leaves.
unfoldable pub Yields : SchedQueues → Popped → Type 0
Yields q none = Unit
Yields q (some (x, r)) = IsTurn q x r

-- The first item of the best class, and the host without it.
IsBest : HostQueue → Option (SchedItem × HostQueue) → Type 0
IsBest h none = Unit
IsBest h (some (x, g)) =
    (g.host ≡ h.host)
    × (g.waiting ≡ h.waiting)
    × ((p : ItemTest) → host_sum p g + one_if (of_item p h.host x) ≡ host_sum p h)

best_of-IsBest :
    (h : HostQueue) (hs ns fs : List SchedItem)
    → h.healthy ≡ hs
    → h.never_checked ≡ ns
    → h.failing ≡ fs
    → IsBest h (best_of h hs ns fs)
unfolding best_of IsBest host_sum count_if
best_of-IsBest h (x ∷ xs) ns fs a b c = (refl, refl, λ p. rw a (omega arith))
best_of-IsBest h [] (x ∷ xs) fs a b c = (refl, refl, λ p. rw b (omega arith))
best_of-IsBest h [] [] (x ∷ xs) a b c = (refl, refl, λ p. rw c (omega arith))
best_of-IsBest h [] [] [] a b c = tt

take_best-IsBest : (h : HostQueue) → IsBest h (take_best h)
unfolding take_best
take_best-IsBest h = best_of-IsBest h h.healthy h.never_checked h.failing refl refl refl

best_turn-Yields :
    (q : SchedQueues) (idx : ℕ) (h : HostQueue) (o : Option (SchedItem × HostQueue))
    → elem_at idx q.ring ≡ some h
    → h.in_flight ≡ false
    → IsBest h o
    → Yields q (best_turn q idx o)
unfolding best_turn Yields IsBest host_sum
best_turn-Yields q idx h none at_i rest w = tt
best_turn-Yields q idx h (some (x, g)) at_i rest (same, waits, lost) = record {
  place = idx;
  before = h;
  after = record g { in_flight = true };
  stood = at_i;
  rested = rest;
  ring_after = refl;
  same_host = same;
  flies = refl;
  lost = λ p. elim (Bool-cases (is_in x.key q.pending)) [
    | inl a ↦ rw a (lost p)
    | inr a ↦ rw a (lost p)
  ];
  waiters = inl waits;
  same_queued = refl;
  next_after = refl;
  same_seq = refl;
}

waiter_turn-Yields :
    (q : SchedQueues) (idx : ℕ) (h : HostQueue) (admit : Bool → Bool)
    (o : Option (SchedItem × List SchedItem))
    → elem_at idx q.ring ≡ some h
    → h.in_flight ≡ false
    → take_waiter admit h.waiting ≡ o
    → Yields q (waiter_turn q idx h o)
unfolding waiter_turn Yields host_sum
waiter_turn-Yields q idx h admit none at_i rest e =
    best_turn-Yields q idx h (take_best h) at_i rest (take_best-IsBest h)
waiter_turn-Yields q idx h admit (some (w, ws)) at_i rest e = record {
  place = idx;
  before = h;
  after = record h { waiting = ws; in_flight = true };
  stood = at_i;
  rested = rest;
  ring_after = refl;
  same_host = refl;
  flies = refl;
  lost = λ p. omega (arith, take_waiter-count (of_item p h.host) admit h.waiting ws w e);
  waiters = inr (admit, e);
  same_queued = refl;
  next_after = refl;
  same_seq = refl;
}

host_turn-Yields :
    (admit : Admit) (q : SchedQueues) (idx : ℕ) (o : Option HostQueue)
    → elem_at idx q.ring ≡ o
    → Yields q (host_turn admit q idx o)
unfolding host_turn Yields
host_turn-Yields admit q idx none e = tt
host_turn-Yields admit q idx (some h) e =
    let turn = waiter_turn q idx h (take_waiter (admit h.host) h.waiting) in
    elim (Bool-cases h.in_flight) [
      | inl a ↦ subst (λ b. Yields q (if b then none else turn)) (sym a) tt
      | inr a ↦
          subst (λ b. Yields q (if b then none else turn)) (sym a)
            (waiter_turn-Yields q idx h (admit h.host) (take_waiter (admit h.host) h.waiting) e a
              refl)
    ]

or_else-Yields : (q : SchedQueues) (a b : Popped) → Yields q a → Yields q b → Yields q (or_else a b)
unfolding or_else Yields
or_else-Yields q none b v w = w
or_else-Yields q (some r) b v w = v

pop_from-Yields :
    (admit : Admit) (q : SchedQueues) (i left : ℕ) → Yields q (pop_from admit q i left)
unfolding pop_from Yields
pop_from-Yields admit q i zero = tt
pop_from-Yields admit q i (suc left) =
    let idx = (q.next + i) % length q.ring in
    or_else-Yields q (host_turn admit q idx (elem_at idx q.ring)) (pop_from admit q (suc i) left)
      (host_turn-Yields admit q idx (elem_at idx q.ring) refl)
      (pop_from-Yields admit q (suc i) left)

pub pop-IsTurn :
    (q : SchedQueues) (admit : Admit) (x : SchedItem) (r : SchedQueues)
    → pop q admit ≡ some (x, r)
    → IsTurn q x r
unfolding pop Yields
pop-IsTurn q admit x r e = subst (Yields q) e (pop_from-Yields admit q 0 (length q.ring))
