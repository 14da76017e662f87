-- ===== src/Freshness/Run/Classes.antt =====
-- No item of a class queue has waited: what pop counts as an offer is a waiter that admit lets go.
use apt_cacher_ultra.Base.{
  ℕ, ◌+◌, ◌≤◌, ◌≡◌, refl, sym, ◌∙◌, ◌⊎◌, inl, inr, Bool, true, false, ◌&&◌, Option, none, some,
  List, [], ◌∷◌, ◌==◌, arith, if◌then◌else◌, subst, Bool-cases, Bytes, bytes_eq, bytes_eq_iff,
  put_at, count_if, count_if-append, sum_of, sum_of-append, sum_of-put_at, sum_of-at,
}
use apt_cacher_ultra.Cache.Newest.{is_in}
use apt_cacher_ultra.Freshness.Queues.{
  SchedItem, HostQueue, SchedQueues, SuiteFreshness, SchedClass, class_healthy, class_never_checked,
  class_failing, CheckReport, Admit, take_waiter, take_best, best_of, best_turn, waiter_turn,
  host_turn, pop, each_waiter, push_item, push_at, new_host_queue, new_item, class_of, find_from,
  enqueue, insert_waiter, ref_key, delete_key, landed, done, park_at, park, finish,
  is_queued_result, result_busy, unhold, refresh_signed,
}
use apt_cacher_ultra.Freshness.Queues.Hosts.{used_hosts, prune-used_hosts}
use apt_cacher_ultra.Freshness.Queues.Tally.{
  found_host, host_sum, one_if, of_item, take_waiter-count, ring_sum,
}
use apt_cacher_ultra.Freshness.Queues.Kept.{strays}
use apt_cacher_ultra.Freshness.Queues.Rounds.{place_of, pop_round}
use apt_cacher_ultra.Freshness.Queues.Order.{oldest_offered}
use apt_cacher_ultra.Freshness.Queues.Runs.{
  Reach, starts, enqueues, pops, finishes, unholds, refreshes, Reach-IsKept,
}

abbrev pub is_offer : SchedItem → Bool
is_offer x = x.waiting

-- The items of the class queues of a host that have waited.
abbrev pub misplaced : HostQueue → ℕ
misplaced h =
    count_if is_offer h.healthy + count_if is_offer h.never_checked + count_if is_offer h.failing

push_item-misplaced :
    (c : SchedClass) (x : SchedItem) (h : HostQueue)
    → x.waiting ≡ false
    → misplaced (push_item c x h) ≡ misplaced h
unfolding push_item
push_item-misplaced class_healthy x h e = ground (arith, e, count_if-append is_offer h.healthy x)
push_item-misplaced class_never_checked x h e =
    ground (arith, e, count_if-append is_offer h.never_checked x)
push_item-misplaced class_failing x h e = ground (arith, e, count_if-append is_offer h.failing x)

push_at-misplaced :
    (c : SchedClass) (x : SchedItem) (ring : List HostQueue) (o : Option (ℕ × HostQueue))
    → find_from 0 x.ref.canonical_host ring ≡ o
    → x.waiting ≡ false
    → sum_of misplaced (push_at c x o ring) ≡ sum_of misplaced ring
unfolding push_at count_if
push_at-misplaced c x ring none e w =
    let new = new_host_queue x.ref.canonical_host in
    omega (arith, sum_of-append misplaced ring (push_item c x new), push_item-misplaced c x new w)
push_at-misplaced c x ring (some (i, h)) e w =
    let at_i = (found_host x.ref.canonical_host ring i h e).0 in
    omega
      (arith, sum_of-put_at misplaced i ring h (push_item c x h) at_i, push_item-misplaced c x h w)

enqueue-misplaced :
    (q : SchedQueues) (s : SuiteFreshness) (mark : Bool)
    → sum_of misplaced (enqueue q s mark).0.ring ≡ sum_of misplaced q.ring
unfolding enqueue
enqueue-misplaced q s mark = elim (Bool-cases (is_in (ref_key s.suite) q.queued)) [
  | inl a ↦ elim (Bool-cases mark) [ inl b ↦ rw (a, b) refl | inr b ↦ rw (a, b) refl ]
  | inr a ↦ rw a (
      push_at-misplaced (class_of s) (new_item s mark) q.ring
        (find_from 0 s.suite.canonical_host q.ring) refl refl)
]

used_hosts-misplaced :
    (ring : List HostQueue) → sum_of misplaced (used_hosts ring) ≤ sum_of misplaced ring
unfolding used_hosts sum_of
used_hosts-misplaced [] = omega arith
used_hosts-misplaced (h ∷ ring) = ground (arith, used_hosts-misplaced ring)

landed-misplaced :
    (b : Bytes) (ring : List HostQueue) (o : Option (ℕ × HostQueue))
    → find_from 0 b ring ≡ o
    → sum_of misplaced (landed o ring) ≡ sum_of misplaced ring
unfolding landed
landed-misplaced b ring none e = refl
landed-misplaced b ring (some (i, h)) e = omega (
  arith,
  sum_of-put_at misplaced i ring h (record h { in_flight = false }) (found_host b ring i h e).0,
)

done-misplaced :
    (q : SchedQueues) (x : SchedItem) → sum_of misplaced (done q x).ring ≤ sum_of misplaced q.ring
unfolding done
done-misplaced q x =
    let found = find_from 0 x.ref.canonical_host q.ring in
    let ended = record q {
      queued = delete_key x.key q.queued;
      pending = delete_key x.key q.pending;
      ring = landed found q.ring;
    } in
    rw (prune-used_hosts ended) (
      omega (
        arith,
        used_hosts-misplaced (landed found q.ring),
        landed-misplaced x.ref.canonical_host q.ring found refl,
      ))

park_at-misplaced :
    (q : SchedQueues) (x : SchedItem) (signed : Bool) (o : Option (ℕ × HostQueue))
    → find_from 0 x.ref.canonical_host q.ring ≡ o
    → sum_of misplaced (park_at q x signed o).ring ≤ sum_of misplaced q.ring
unfolding park_at
park_at-misplaced q x signed none e = done-misplaced q x
park_at-misplaced q x signed (some (i, h)) e =
    let seq = if x.waiting then q.wait_seq else q.wait_seq + 1 in
    let parked = record x {
      wait_seq = if x.waiting then x.wait_seq else seq;
      waiting = true;
      signed = signed;
    } in
    omega (
      arith,
      sum_of-put_at misplaced i q.ring h
          (record h { in_flight = false; waiting = insert_waiter parked h.waiting })
          (found_host x.ref.canonical_host q.ring i h e).0,
    )

finish-misplaced :
    (q : SchedQueues) (x : SchedItem) (report : CheckReport) (gen : ℕ)
    → sum_of misplaced (finish q x report gen).ring ≤ sum_of misplaced q.ring
unfolding finish park
finish-misplaced q x report gen =
    let found = find_from 0 x.ref.canonical_host q.ring in
    elim (Bool-cases (is_queued_result report.result)) [
      | inl a ↦ rw a (
          park_at-misplaced q (record x { held = x.waiting && gen == x.gen }) report.signed_current
            found refl)
      | inr a ↦ elim (Bool-cases (x.waiting && bytes_eq report.result result_busy)) [
        | inl b ↦ rw (a, b) (park_at-misplaced q (record x { held = true }) x.signed found refl)
        | inr b ↦ rw (a, b) (done-misplaced q x)
      ]
    ]

each_waiter-misplaced :
    (f : SchedItem → SchedItem) (ring : List HostQueue)
    → sum_of misplaced (each_waiter f ring) ≡ sum_of misplaced ring
unfolding each_waiter sum_of
each_waiter-misplaced f [] = refl
each_waiter-misplaced f (h ∷ ring) = omega (arith, each_waiter-misplaced f ring)

-- What a turn yields: a waiter that the host offers, or an item of a class, which has left its queue.
pub record IsSource (admit : Admit) (q : SchedQueues) (idx : ℕ) (h : HostQueue) (x : SchedItem)
    (r : SchedQueues) : Type 0 where
  pub after : HostQueue
  pub ring_after : r.ring ≡ put_at idx after q.ring
  pub fewer : misplaced after ≤ misplaced h
  pub source :
      ((ws : List SchedItem) × (take_waiter (admit h.host) h.waiting ≡ some (x, ws)))
      ⊎ (one_if (is_offer x) ≤ misplaced h)

unfoldable Sourced : Admit → SchedQueues → ℕ → HostQueue → Option (SchedItem × SchedQueues) → Type 0
Sourced admit q idx h none = Unit
Sourced admit q idx h (some (x, r)) = IsSource admit q idx h x r

LeavesClass : HostQueue → Option (SchedItem × HostQueue) → Type 0
LeavesClass h none = Unit
LeavesClass h (some (x, g)) = misplaced g + one_if (is_offer x) ≤ misplaced h

best_of-LeavesClass :
    (h : HostQueue) (hs ns fs : List SchedItem)
    → h.healthy ≡ hs
    → h.never_checked ≡ ns
    → h.failing ≡ fs
    → LeavesClass h (best_of h hs ns fs)
unfolding best_of LeavesClass count_if
best_of-LeavesClass h (x ∷ xs) ns fs a b c = rw a (omega arith)
best_of-LeavesClass h [] (x ∷ xs) fs a b c = rw b (omega arith)
best_of-LeavesClass h [] [] (x ∷ xs) a b c = rw c (omega arith)
best_of-LeavesClass h [] [] [] a b c = tt

best_turn-Sourced :
    (admit : Admit) (q : SchedQueues) (idx : ℕ) (h : HostQueue) (o : Option (SchedItem × HostQueue))
    → LeavesClass h o
    → Sourced admit q idx h (best_turn q idx o)
unfolding best_turn Sourced LeavesClass
best_turn-Sourced admit q idx h none w = tt
best_turn-Sourced admit q idx h (some (x, g)) w = record {
  after = record g { in_flight = true };
  ring_after = refl;
  fewer = omega (arith, w);
  source = elim (Bool-cases (is_in x.key q.pending)) [
    | inl a ↦ rw a (inr (omega (arith, w)))
    | inr a ↦ rw a (inr (omega (arith, w)))
  ];
}

waiter_turn-Sourced :
    (admit : Admit) (q : SchedQueues) (idx : ℕ) (h : HostQueue)
    (o : Option (SchedItem × List SchedItem))
    → take_waiter (admit h.host) h.waiting ≡ o
    → Sourced admit q idx h (waiter_turn q idx h o)
unfolding waiter_turn Sourced take_best
waiter_turn-Sourced admit q idx h none e =
    best_turn-Sourced admit q idx h (take_best h)
      (best_of-LeavesClass h h.healthy h.never_checked h.failing refl refl refl)
waiter_turn-Sourced admit q idx h (some (w, ws)) e = record {
  after = record h { waiting = ws; in_flight = true };
  ring_after = refl;
  fewer = omega arith;
  source = inl (ws, e);
}

pub host_turn-IsSource :
    (admit : Admit) (q : SchedQueues) (idx : ℕ) (h : HostQueue) (x : SchedItem) (r : SchedQueues)
    → host_turn admit q idx (some h) ≡ some (x, r)
    → IsSource admit q idx h x r
unfolding host_turn Sourced
host_turn-IsSource admit q idx h x r e = subst (Sourced admit q idx h) e (turned h.in_flight)
  where
    turned :
        (b : Bool)
        → Sourced admit q idx h
            (if b then none else waiter_turn q idx h (take_waiter (admit h.host) h.waiting))
    turned true = tt
    turned false = waiter_turn-Sourced admit q idx h (take_waiter (admit h.host) h.waiting) refl

pop-misplaced :
    (q r : SchedQueues) (admit : Admit) (x : SchedItem)
    → pop q admit ≡ some (x, r)
    → sum_of misplaced r.ring ≤ sum_of misplaced q.ring
pop-misplaced q r admit x e =
    let (i, h, small, at_i, ready, turn, next, before) = pop_round q r admit x e in
    let s = host_turn-IsSource admit q (place_of q i) h x r turn in
    rw (s.ring_after)
      (omega (arith, sum_of-put_at misplaced (place_of q i) q.ring h s.after at_i, s.fewer))

Reach-misplaced :
    (q : SchedQueues) (flying : List SchedItem) → Reach q flying → sum_of misplaced q.ring ≡ 0
unfolding sum_of unhold refresh_signed
Reach-misplaced _ _ starts = refl
Reach-misplaced _ _ (enqueues q flying s mark w) =
    enqueue-misplaced q s mark ∙ Reach-misplaced q flying w
Reach-misplaced _ _ (pops q r flying admit x gen e w) =
    omega (arith, pop-misplaced q r admit x e, Reach-misplaced q flying w)
Reach-misplaced _ _ (finishes q flying t x report gen e w) =
    omega (arith, finish-misplaced q x report gen, Reach-misplaced q flying w)
Reach-misplaced _ _ (unholds q flying w) =
    each_waiter-misplaced (λ x. record x { held = false }) q.ring ∙ Reach-misplaced q flying w
Reach-misplaced _ _ (refreshes q flying signed w) =
    each_waiter-misplaced (λ x. record x { signed = signed x.key }) q.ring
    ∙ Reach-misplaced q flying w

-- A waiter stands under the host of its suite.
waiter_host :
    (h : HostQueue) (admit : Bool → Bool) (x : SchedItem) (ws : List SchedItem)
    → host_sum strays h ≡ 0
    → take_waiter admit h.waiting ≡ some (x, ws)
    → h.host ≡ x.ref.canonical_host
unfolding host_sum
waiter_host h admit x ws home e =
    let counted = take_waiter-count (of_item strays h.host) admit h.waiting ws x e in
    sym ((bytes_eq_iff x.ref.canonical_host h.host).0 (ground (arith, home, counted)))

-- A waiter that pop returns is one that admit lets go, for its host and its signed flag.
pub offer_admitted :
    (q r : SchedQueues) (flying : List SchedItem) (admit : Admit) (x : SchedItem)
    → Reach q flying
    → pop q admit ≡ some (x, r)
    → x.waiting ≡ true
    → admit x.ref.canonical_host x.signed ≡ true
unfolding ring_sum
offer_admitted q r flying admit x w e waits =
    let (i, h, small, at_i, ready, turn, next, before) = pop_round q r admit x e in
    let s = host_turn-IsSource admit q (place_of q i) h x r turn in
    let none_there = sum_of-at misplaced (place_of q i) q.ring h at_i in
    elim s.source [
      | inr a ↦ absurd (ground (arith, a, waits, none_there, Reach-misplaced q flying w))
      | inl (ws, taken) ↦
          let (goes, oldest) =
            oldest_offered q flying (place_of q i) h (admit h.host) x ws w at_i taken in
          let home = sum_of-at (host_sum strays) (place_of q i) q.ring h at_i in
          let k = Reach-IsKept q flying w in
          let host = waiter_host h (admit h.host) x ws (omega (arith, home, k.at_home)) taken in
          subst (λ b. admit b x.signed ≡ true) host (ground (arith, goes))
    ]
