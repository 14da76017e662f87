-- ===== src/Freshness/Queues/Kept.antt =====
-- The books of the scheduler: the items in its queues and the checks in flight, against the set queued
-- and the flags of the hosts.
use apt_cacher_ultra.Base.{
  ◌+◌, ◌≤◌, ◌≡◌, refl, ◌∙◌, Bool, true, not, ◌&&◌, List, [], ◌∷◌, arith, Bytes, bytes_eq, count_if,
  length,
}
use apt_cacher_ultra.Freshness.Queues.{
  SchedItem, HostQueue, SchedQueues, ref_key, each_waiter, each_item, is_nil, is_idle,
}
use apt_cacher_ultra.Freshness.Queues.Tally.{ItemTest, ring_sum, of_item, each_waiter-ring_sum}
use apt_cacher_ultra.Freshness.Queues.Hosts.{is_named, is_running, is_unused}
use apt_cacher_ultra.Freshness.Queues.Keys.{times}

abbrev pub has_key : Bytes → ItemTest
has_key k b ref key = bytes_eq key k

-- An item under another host, or under the key of another suite.
abbrev pub strays : ItemTest
strays b ref key = not (bytes_eq ref.canonical_host b && bytes_eq key (ref_key ref))

abbrev pub any_item : ItemTest
any_item b ref key = true

abbrev pub flies_on : Bytes → SchedItem → Bool
flies_on b x = bytes_eq x.ref.canonical_host b

abbrev pub keyed : Bytes → SchedItem → Bool
keyed k x = bytes_eq x.key k

abbrev pub is_lost : SchedItem → Bool
is_lost x = not (bytes_eq x.key (ref_key x.ref))

-- A key is in the set once for the one place where its suite is: in a queue, in a waiting list, or in
-- flight. A host is in the ring once, has as many checks in flight as its flag says, and has work.
pub record IsKept (q : SchedQueues) (flying : List SchedItem) : Type 0 where
  pub counted :
      (k : Bytes) → ring_sum (has_key k) q.ring + count_if (keyed k) flying ≡ times k q.queued
  pub once : (k : Bytes) → times k q.queued ≤ 1
  pub total : ring_sum any_item q.ring + length flying ≡ length q.queued
  pub at_home : ring_sum strays q.ring ≡ 0
  pub right_key : count_if is_lost flying ≡ 0
  pub runs : (b : Bytes) → count_if (is_running b) q.ring ≡ count_if (flies_on b) flying
  pub named : (b : Bytes) → count_if (is_named b) q.ring ≤ 1
  pub used : count_if is_unused q.ring ≡ 0

each_waiter-count_if :
    (p : HostQueue → Bool) (f : SchedItem → SchedItem) (ring : List HostQueue)
    → ((h : HostQueue) → p (record h { waiting = each_item f h.waiting }) ≡ p h)
    → count_if p (each_waiter f ring) ≡ count_if p ring
unfolding count_if each_waiter
each_waiter-count_if p f [] same = refl
each_waiter-count_if p f (h ∷ hs) same = rw (same h, each_waiter-count_if p f hs same) refl

each_item-is_nil :
    (f : SchedItem → SchedItem) (ws : List SchedItem) → is_nil (each_item f ws) ≡ is_nil ws
unfolding each_item is_nil
each_item-is_nil f [] = refl
each_item-is_nil f (w ∷ ws) = refl

each_item-is_unused :
    (f : SchedItem → SchedItem) (h : HostQueue)
    → is_unused (record h { waiting = each_item f h.waiting }) ≡ is_unused h
unfolding is_idle
each_item-is_unused f h = rw (each_item-is_nil f h.waiting) refl

-- The waiters are marked anew: unhold and refresh_signed.
pub each_waiter-IsKept :
    (q : SchedQueues) (flying : List SchedItem) (f : SchedItem → SchedItem)
    → ((p : ItemTest) (b : Bytes) (x : SchedItem) → of_item p b (f x) ≡ of_item p b x)
    → IsKept q flying
    → IsKept (record q { ring = each_waiter f q.ring }) flying
each_waiter-IsKept q flying f same k = record {
  counted =
      λ j. omega (arith, each_waiter-ring_sum (has_key j) f q.ring (same (has_key j)), k.counted j);
  once = k.once;
  total = omega (arith, each_waiter-ring_sum any_item f q.ring (same any_item), k.total);
  at_home = each_waiter-ring_sum strays f q.ring (same strays) ∙ k.at_home;
  right_key = k.right_key;
  runs = λ b. each_waiter-count_if (is_running b) f q.ring (λ h. refl) ∙ k.runs b;
  named = λ b. omega (arith, each_waiter-count_if (is_named b) f q.ring (λ h. refl), k.named b);
  used = each_waiter-count_if is_unused f q.ring (each_item-is_unused f) ∙ k.used;
}
