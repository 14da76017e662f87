-- ===== src/Freshness/Queues/Order.antt =====
-- The waiting lists stay in order, whatever the scheduler does.
use apt_cacher_ultra.Base.{
  ℕ, zero, suc, ◌+◌, ◌≤◌, ◌≡◌, refl, inl, inr, Bool, true, false, not, ◌&&◌, ◌||◌, Option, none,
  some, List, [], ◌∷◌, if◌then◌else◌, Bytes, bytes_eq, elem_at, put_at, subst, Bool-cases, All,
  All-append, ◌==◌,
}
use apt_cacher_ultra.Cache.Newest.{is_in}
use apt_cacher_ultra.Freshness.Queues.{
  SchedItem, HostQueue, SchedQueues, SuiteFreshness, SchedClass, class_healthy, class_never_checked,
  class_failing, CheckReport, take_waiter, insert_waiter, each_waiter, is_idle, push_item, push_at,
  new_host_queue, new_item, class_of, find_from, enqueue, insert_key, ref_key, delete_key, landed,
  done, park_at, park, finish, is_queued_result, result_busy, unhold, refresh_signed,
}
use apt_cacher_ultra.Freshness.Queues.Hosts.{used_hosts, prune-used_hosts}
use apt_cacher_ultra.Freshness.Queues.Turns.{IsTurn, pop-IsTurn}
use apt_cacher_ultra.Freshness.Queues.Tally.{found_host}
use apt_cacher_ultra.Freshness.Queues.Runs.{
  Reach, starts, enqueues, pops, finishes, unholds, refreshes,
}
use apt_cacher_ultra.Freshness.Queues.Waiters.{
  IsSorted, insert_waiter-IsSorted, may_go, IsOldest, take_waiter-IsOldest, each_item-IsSorted,
}

-- Every host has its waiters in order.
abbrev pub InOrder : List HostQueue → Type 0
InOrder ring = All (λ (h : HostQueue). IsSorted h.waiting) ring

put_at-InOrder :
    (i : ℕ) (g : HostQueue) (ring : List HostQueue)
    → IsSorted g.waiting
    → InOrder ring
    → InOrder (put_at i g ring)
unfolding put_at
put_at-InOrder i g [] s o = tt
put_at-InOrder zero g (h ∷ ring) s o = (s, o.1)
put_at-InOrder (suc i) g (h ∷ ring) s o = (o.0, put_at-InOrder i g ring s o.1)

pub InOrder-at :
    (i : ℕ) (h : HostQueue) (ring : List HostQueue)
    → elem_at i ring ≡ some h
    → InOrder ring
    → IsSorted h.waiting
unfolding elem_at
InOrder-at i h [] e o = cc e
InOrder-at zero h (g ∷ ring) e o =
    let same : g ≡ h = cc e in subst (λ (z : HostQueue). IsSorted z.waiting) same o.0
InOrder-at (suc i) h (g ∷ ring) e o = InOrder-at i h ring e o.1

used_hosts-InOrder : (ring : List HostQueue) → InOrder ring → InOrder (used_hosts ring)
unfolding used_hosts
used_hosts-InOrder [] o = tt
used_hosts-InOrder (h ∷ ring) o = elim (Bool-cases (h.in_flight || not (is_idle h))) [
  | inl a ↦ rw a (o.0, used_hosts-InOrder ring o.1)
  | inr a ↦ rw a (used_hosts-InOrder ring o.1)
]

each_waiter-InOrder :
    (f : SchedItem → SchedItem) (ring : List HostQueue)
    → ((x : SchedItem) → (f x).wait_seq ≡ x.wait_seq)
    → InOrder ring
    → InOrder (each_waiter f ring)
unfolding each_waiter
each_waiter-InOrder f [] same o = tt
each_waiter-InOrder f (h ∷ ring) same o =
    (each_item-IsSorted f h.waiting same o.0, each_waiter-InOrder f ring same o.1)

push_item-waiting :
    (c : SchedClass) (x : SchedItem) (h : HostQueue) → (push_item c x h).waiting ≡ h.waiting
unfolding push_item
push_item-waiting class_healthy x h = refl
push_item-waiting class_never_checked x h = refl
push_item-waiting class_failing x h = refl

push_at-InOrder :
    (c : SchedClass) (x : SchedItem) (ring : List HostQueue) (o : Option (ℕ × HostQueue))
    → find_from 0 x.ref.canonical_host ring ≡ o
    → InOrder ring
    → InOrder (push_at c x o ring)
unfolding push_at
push_at-InOrder c x ring none e w =
    All-append (λ (h : HostQueue). IsSorted h.waiting) ring
      (push_item c x (new_host_queue x.ref.canonical_host) ∷ []) w
      (rw (push_item-waiting c x (new_host_queue x.ref.canonical_host)) tt, tt)
push_at-InOrder c x ring (some (i, h)) e w =
    let at_i = (found_host x.ref.canonical_host ring i h e).0 in
    put_at-InOrder i (push_item c x h) ring
      (rw (push_item-waiting c x h) (InOrder-at i h ring at_i w)) w

marked :
    (mark : Bool) (q : SchedQueues) (key : Bytes)
    → InOrder q.ring
    → InOrder (if mark then record q { pending = insert_key key q.pending } else q).ring
marked true q key w = w
marked false q key w = w

enqueue-InOrder :
    (q : SchedQueues) (s : SuiteFreshness) (mark : Bool)
    → InOrder q.ring
    → InOrder (enqueue q s mark).0.ring
unfolding enqueue
enqueue-InOrder q s mark w = elim (Bool-cases (is_in (ref_key s.suite) q.queued)) [
  | inl a ↦ rw a (marked mark q (ref_key s.suite) w)
  | inr a ↦ rw a (
      push_at-InOrder (class_of s) (new_item s mark) q.ring
        (find_from 0 s.suite.canonical_host q.ring) refl w)
]

landed-InOrder :
    (b : Bytes) (ring : List HostQueue) (o : Option (ℕ × HostQueue))
    → find_from 0 b ring ≡ o
    → InOrder ring
    → InOrder (landed o ring)
unfolding landed
landed-InOrder b ring none e w = w
landed-InOrder b ring (some (i, h)) e w =
    put_at-InOrder i (record h { in_flight = false }) ring
      (InOrder-at i h ring (found_host b ring i h e).0 w) w

done-InOrder : (q : SchedQueues) (x : SchedItem) → InOrder q.ring → InOrder (done q x).ring
unfolding done
done-InOrder q x w =
    let ring = landed (find_from 0 x.ref.canonical_host q.ring) q.ring in
    let ended = record q {
      queued = delete_key x.key q.queued;
      pending = delete_key x.key q.pending;
      ring = ring;
    } in
    rw (prune-used_hosts ended) (
      used_hosts-InOrder ring (
        landed-InOrder x.ref.canonical_host q.ring (find_from 0 x.ref.canonical_host q.ring) refl
          w))

park_at-InOrder :
    (q : SchedQueues) (x : SchedItem) (signed : Bool) (o : Option (ℕ × HostQueue))
    → find_from 0 x.ref.canonical_host q.ring ≡ o
    → InOrder q.ring
    → InOrder (park_at q x signed o).ring
unfolding park_at
park_at-InOrder q x signed none e w = done-InOrder q x w
park_at-InOrder q x signed (some (i, h)) e w =
    let seq = if x.waiting then q.wait_seq else q.wait_seq + 1 in
    let parked = record x {
      wait_seq = if x.waiting then x.wait_seq else seq;
      waiting = true;
      signed = signed;
    } in
    put_at-InOrder i (record h { in_flight = false; waiting = insert_waiter parked h.waiting })
      q.ring
      (insert_waiter-IsSorted parked h.waiting
        (InOrder-at i h q.ring (found_host x.ref.canonical_host q.ring i h e).0 w))
      w

park-InOrder :
    (q : SchedQueues) (x : SchedItem) (signed : Bool)
    → InOrder q.ring
    → InOrder (park q x signed).ring
unfolding park
park-InOrder q x signed w =
    park_at-InOrder q x signed (find_from 0 x.ref.canonical_host q.ring) refl w

finish-InOrder :
    (q : SchedQueues) (x : SchedItem) (report : CheckReport) (gen : ℕ)
    → InOrder q.ring
    → InOrder (finish q x report gen).ring
unfolding finish
finish-InOrder q x report gen w = elim (Bool-cases (is_queued_result report.result)) [
  | inl a ↦
      rw a (park-InOrder q (record x { held = x.waiting && gen == x.gen }) report.signed_current w)
  | inr a ↦ elim (Bool-cases (x.waiting && bytes_eq report.result result_busy)) [
    | inl b ↦ rw (a, b) (park-InOrder q (record x { held = true }) x.signed w)
    | inr b ↦ rw (a, b) (done-InOrder q x w)
  ]
]

turn-InOrder : (q r : SchedQueues) (x : SchedItem) → IsTurn q x r → InOrder q.ring → InOrder r.ring
unfolding IsOldest
turn-InOrder q r x t w =
    let before = InOrder-at t.place t.before q.ring t.stood w in
    let after : IsSorted t.after.waiting = elim t.waiters [
      | inl same ↦ rw same before
      | inr (admit, e) ↦ (rw e at (take_waiter-IsOldest admit t.before.waiting before)).1
    ] in
    rw t.ring_after (put_at-InOrder t.place t.after q.ring after w)

pub Reach-InOrder : (q : SchedQueues) (flying : List SchedItem) → Reach q flying → InOrder q.ring
unfolding unhold refresh_signed
Reach-InOrder _ _ starts = tt
Reach-InOrder _ _ (enqueues q flying s mark w) = enqueue-InOrder q s mark (Reach-InOrder q flying w)
Reach-InOrder _ _ (pops q r flying admit x gen e w) =
    turn-InOrder q r x (pop-IsTurn q admit x r e) (Reach-InOrder q flying w)
Reach-InOrder _ _ (finishes q flying t x report gen e w) =
    finish-InOrder q x report gen (Reach-InOrder q flying w)
Reach-InOrder _ _ (unholds q flying w) =
    each_waiter-InOrder (λ x. record x { held = false }) q.ring (λ x. refl)
      (Reach-InOrder q flying w)
Reach-InOrder _ _ (refreshes q flying signed w) =
    each_waiter-InOrder (λ x. record x { signed = signed x.key }) q.ring (λ x. refl)
      (Reach-InOrder q flying w)

-- In whatever order the operations run, the waiter that a host offers, if any, is not held and is
-- admitted, and no waiter of the host that is not held and is admitted has a smaller wait_seq.
pub oldest_offered :
    (q : SchedQueues) (flying : List SchedItem) (i : ℕ) (h : HostQueue) (admit : Bool → Bool)
    (w : SchedItem) (rest : List SchedItem)
    → Reach q flying
    → elem_at i q.ring ≡ some h
    → take_waiter admit h.waiting ≡ some (w, rest)
    → (may_go admit w ≡ true)
      × ((j : ℕ) (v : SchedItem)
          → elem_at j h.waiting ≡ some v
          → may_go admit v ≡ true
          → w.wait_seq ≤ v.wait_seq)
unfolding IsOldest
oldest_offered q flying i h admit w rest r at_i e =
    let sorted = InOrder-at i h q.ring at_i (Reach-InOrder q flying r) in
    let oldest = rw e at (take_waiter-IsOldest admit h.waiting sorted) in (oldest.0, oldest.3)
