-- ===== src/Freshness/Queues/Runs.antt =====
-- The scheduler's queues in whatever order suites are queued, checks start and end, and ticks and
-- wakes come.
use apt_cacher_ultra.Base.{
  ℕ, ◌+◌, ◌≤◌, ◌≡◌, refl, sym, Bool, true, false, some, List, [], ◌∷◌, arith, Bytes, bytes_eq_iff,
  elem_at, drop_at, count_if, sum_of, length,
}
use apt_cacher_ultra.Freshness.Queues.{
  SuiteFreshness, SchedItem, SchedQueues, CheckReport, Admit, new_sched_queues, enqueue, pop,
  with_gen, finish, unhold, refresh_signed, has, ref_key,
}
use apt_cacher_ultra.Freshness.Queues.Tally.{ring_sum, one_if}
use apt_cacher_ultra.Freshness.Queues.Hosts.{is_running, running_or_resting}
use apt_cacher_ultra.Freshness.Queues.Keys.{times, is_in-times}
use apt_cacher_ultra.Freshness.Queues.Turns.{pop-IsTurn}
use apt_cacher_ultra.Freshness.Queues.Kept.{
  has_key, any_item, flies_on, keyed, IsKept, each_waiter-IsKept,
}
use apt_cacher_ultra.Freshness.Queues.Enqueues.{enqueue-IsKept}
use apt_cacher_ultra.Freshness.Queues.Pops.{pop-IsKept}
use apt_cacher_ultra.Freshness.Queues.Lands.{finish-IsKept}

-- The queues and the items whose checks are in flight.
pub data Reach : SchedQueues → List SchedItem → Type 0 where
  starts : Reach new_sched_queues []
  enqueues :
      (q : SchedQueues) (flying : List SchedItem) (s : SuiteFreshness) (pending_change : Bool)
      → Reach q flying
      → Reach (enqueue q s pending_change).0 flying
  pops :
      (q r : SchedQueues) (flying : List SchedItem) (admit : Admit) (x : SchedItem) (gen : ℕ)
      → pop q admit ≡ some (x, r)
      → Reach q flying
      → Reach r (with_gen x gen ∷ flying)
  finishes :
      (q : SchedQueues) (flying : List SchedItem) (t : ℕ) (x : SchedItem) (report : CheckReport)
      (gen : ℕ)
      → elem_at t flying ≡ some x
      → Reach q flying
      → Reach (finish q x report gen) (drop_at t flying)
  unholds : (q : SchedQueues) (flying : List SchedItem) → Reach q flying → Reach (unhold q) flying
  refreshes :
      (q : SchedQueues) (flying : List SchedItem) (signed : Bytes → Bool)
      → Reach q flying
      → Reach (refresh_signed q signed) flying

pub Reach-IsKept : (q : SchedQueues) (flying : List SchedItem) → Reach q flying → IsKept q flying
unfolding count_if ring_sum sum_of unhold refresh_signed
Reach-IsKept _ _ starts = record {
  counted = λ k. refl;
  once = λ k. omega arith;
  total = refl;
  at_home = refl;
  right_key = refl;
  runs = λ b. refl;
  named = λ b. omega arith;
  used = refl;
}
Reach-IsKept _ _ (enqueues q flying s c r) = enqueue-IsKept q flying s c (Reach-IsKept q flying r)
Reach-IsKept _ _ (pops q r flying admit x gen e w) =
    pop-IsKept q r flying x gen (pop-IsTurn q admit x r e) (Reach-IsKept q flying w)
Reach-IsKept _ _ (finishes q flying t x report gen e w) =
    finish-IsKept q flying t x report gen (Reach-IsKept q flying w) e
Reach-IsKept _ _ (unholds q flying w) =
    each_waiter-IsKept q flying (λ x. record x { held = false }) (λ p b x. refl)
      (Reach-IsKept q flying w)
Reach-IsKept _ _ (refreshes q flying signed w) =
    each_waiter-IsKept q flying (λ x. record x { signed = signed x.key }) (λ p b x. refl)
      (Reach-IsKept q flying w)

-- In whatever order suites are queued, checks start and end, and waiters are held and released, each
-- key that `has` answers for stands in exactly one place, a class queue, a waiting list or a check in
-- flight, and every other key in none.
pub suite-has :
    (q : SchedQueues) (flying : List SchedItem) (key : Bytes)
    → Reach q flying
    → ring_sum (has_key key) q.ring + count_if (keyed key) flying ≡ one_if (has q key)
unfolding has
suite-has q flying key w =
    let k = Reach-IsKept q flying w in
    ground (arith, k.counted key, k.once key, is_in-times key q.queued)

-- In whatever order the operations run, no host has two checks in flight, and it has one exactly when a
-- host of the ring with its name is marked in flight; the suites queued, waiting or in flight are as
-- many as the keys of `queued`, whose length is what `len` answers.
pub one_check :
    (q : SchedQueues) (flying : List SchedItem) (host : Bytes)
    → Reach q flying
    → (count_if (flies_on host) flying ≤ 1)
      × (count_if (flies_on host) flying ≡ count_if (is_running host) q.ring)
      × (ring_sum any_item q.ring + length flying ≡ length q.queued)
one_check q flying host w =
    let k = Reach-IsKept q flying w in
    let same = k.runs host in
    (omega (arith, same, k.named host, running_or_resting host q.ring), sym same, k.total)

-- In whatever order the operations run, what pop returns is the item of a suite that is queued, under
-- the key of that suite, with no check of its host in flight, and its key is in no queue any more.
pub pop_alone :
    (q r : SchedQueues) (flying : List SchedItem) (admit : Admit) (x : SchedItem)
    → Reach q flying
    → pop q admit ≡ some (x, r)
    → (has q x.key ≡ true)
      × (x.key ≡ ref_key x.ref)
      × (count_if (flies_on x.ref.canonical_host) flying ≡ 0)
      × (ring_sum (has_key x.key) r.ring ≡ 0)
unfolding has with_gen count_if
pop_alone q r flying admit x w e =
    let t = pop-IsTurn q admit x r e in
    let k = Reach-IsKept r (with_gen x 0 ∷ flying) (pops q r flying admit x 0 e w) in
    let host = x.ref.canonical_host in
    let itself = (bytes_eq_iff host host).1 refl in
    let own_key = (bytes_eq_iff x.key x.key).1 refl in
    let queued : times x.key r.queued ≡ 1 =
      ground (arith, k.counted x.key, k.once x.key, own_key) in
    let same : times x.key q.queued ≡ 1 = rw t.same_queued at (queued) in
    (
      ground (arith, same, is_in-times x.key q.queued),
      (bytes_eq_iff x.key (ref_key x.ref)).0 (ground (arith, k.right_key)),
      ground (arith, itself, k.runs host, k.named host, running_or_resting host r.ring),
      ground (arith, own_key, k.counted x.key, k.once x.key),
    )
