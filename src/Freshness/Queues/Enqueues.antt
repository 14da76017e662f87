-- ===== src/Freshness/Queues/Enqueues.antt =====
-- enqueue keeps the books.
use apt_cacher_ultra.Base.{
  ℕ, ◌+◌, ◌≤◌, ◌≡◌, refl, ap, inl, inr, Bool, true, false, ◌&&◌, Option, none, some, List, [], ◌∷◌,
  ◌++◌, if◌then◌else◌, arith, Bool-cases, Bytes, bytes_eq, bytes_eq_iff, count_if, count_if-put_at,
  count_if-append,
}
use apt_cacher_ultra.Cache.Newest.{is_in}
use apt_cacher_ultra.Freshness.Queues.{
  SuiteFreshness, SchedItem, HostQueue, SchedQueues, ref_key, insert_key, is_idle, is_nil,
  SchedClass, class_healthy, class_never_checked, class_failing, enqueue, push_at, push_item,
  class_of, new_item, new_host_queue, find_from,
}
use apt_cacher_ultra.Freshness.Queues.Tally.{
  ItemTest, one_if, push_at-ring_sum, push_item-host, found_host,
}
use apt_cacher_ultra.Freshness.Queues.Hosts.{is_named, is_running, is_unused, not_found}
use apt_cacher_ultra.Freshness.Queues.Keys.{times, not_in-times}
use apt_cacher_ultra.Freshness.Queues.Kept.{has_key, strays, any_item, IsKept}

push_item-in_flight :
    (c : SchedClass) (x : SchedItem) (h : HostQueue) → (push_item c x h).in_flight ≡ h.in_flight
unfolding push_item
push_item-in_flight class_healthy x h = refl
push_item-in_flight class_never_checked x h = refl
push_item-in_flight class_failing x h = refl

not_nil : (xs : List SchedItem) (x : SchedItem) → is_nil (xs ++ (x ∷ [])) ≡ false
unfolding is_nil
not_nil [] x = refl
not_nil (y ∷ xs) x = refl

push_item-is_idle :
    (c : SchedClass) (x : SchedItem) (h : HostQueue) → is_idle (push_item c x h) ≡ false
unfolding push_item is_idle
push_item-is_idle class_healthy x h = ground (arith, not_nil h.healthy x)
push_item-is_idle class_never_checked x h = ground (arith, not_nil h.never_checked x)
push_item-is_idle class_failing x h = ground (arith, not_nil h.failing x)

abbrev is_missing : Option (ℕ × HostQueue) → Bool
is_missing none = true
is_missing (some r) = false

-- A test of hosts that an item pushed on one does not change.
push_at-count_if :
    (p : HostQueue → Bool) (c : SchedClass) (x : SchedItem) (ring : List HostQueue)
    (o : Option (ℕ × HostQueue))
    → ((h : HostQueue) → p (push_item c x h) ≡ p h)
    → find_from 0 x.ref.canonical_host ring ≡ o
    → count_if p (push_at c x o ring)
      ≡ count_if p ring + one_if (is_missing o && p (new_host_queue x.ref.canonical_host))
unfolding push_at
push_at-count_if p c x ring none same e =
    let new = new_host_queue x.ref.canonical_host in
    ground (arith, count_if-append p ring (push_item c x new), same new)
push_at-count_if p c x ring (some (i, h)) same e =
    let (at_i, w) = found_host x.ref.canonical_host ring i h e in
    ground (arith, count_if-put_at p i ring h (push_item c x h) at_i, same h)

push_at-is_unused :
    (c : SchedClass) (x : SchedItem) (ring : List HostQueue) (o : Option (ℕ × HostQueue))
    → count_if is_unused ring ≡ 0
    → find_from 0 x.ref.canonical_host ring ≡ o
    → count_if is_unused (push_at c x o ring) ≡ 0
unfolding push_at
push_at-is_unused c x ring none u e =
    let new = new_host_queue x.ref.canonical_host in
    ground (arith, u, count_if-append is_unused ring (push_item c x new), push_item-is_idle c x new)
push_at-is_unused c x ring (some (i, h)) u e =
    let (at_i, w) = found_host x.ref.canonical_host ring i h e in
    ground
      (arith, u, count_if-put_at is_unused i ring h (push_item c x h) at_i, push_item-is_idle c x h)

push_at-is_named :
    (b : Bytes) (c : SchedClass) (x : SchedItem) (ring : List HostQueue)
    (o : Option (ℕ × HostQueue))
    → count_if (is_named b) ring ≤ 1
    → find_from 0 x.ref.canonical_host ring ≡ o
    → count_if (is_named b) (push_at c x o ring) ≤ 1
push_at-is_named b c x ring none n e = elim (Bool-cases (bytes_eq x.ref.canonical_host b)) [
  | inl a ↦
      let none_there = not_found 0 x.ref.canonical_host ring e in
      let same = ap (λ z. count_if (is_named z) ring) ((bytes_eq_iff x.ref.canonical_host b).0 a) in
      ground (
        arith,
        push_at-count_if (is_named b) c x ring none
            (λ h. ap (λ z. bytes_eq z b) (push_item-host c x h)) e,
        none_there,
        same,
      )
  | inr a ↦ ground (
    arith,
    n,
    a,
    push_at-count_if (is_named b) c x ring none (λ h. ap (λ z. bytes_eq z b) (push_item-host c x h))
        e,
  )
]
push_at-is_named b c x ring (some r) n e = ground (
  arith,
  n,
  push_at-count_if (is_named b) c x ring (some r)
      (λ h. ap (λ z. bytes_eq z b) (push_item-host c x h)) e,
)

running_same :
    (b : Bytes) (c : SchedClass) (x : SchedItem) (h : HostQueue)
    → is_running b (push_item c x h) ≡ is_running b h
running_same b c x h = rw (push_item-host c x h, push_item-in_flight c x h) refl

-- The suite is in the set, and at most marked.
marked :
    (q : SchedQueues) (flying : List SchedItem) (key : Bytes) (mark : Bool)
    → IsKept q flying
    → IsKept (if mark then record q { pending = insert_key key q.pending } else q) flying
marked q flying key true k = record {
  counted = k.counted;
  once = k.once;
  total = k.total;
  at_home = k.at_home;
  right_key = k.right_key;
  runs = k.runs;
  named = k.named;
  used = k.used;
}
marked q flying key false k = k

-- The suite is not in the set: its item goes into the ring.
fresh-IsKept :
    (q : SchedQueues) (flying : List SchedItem) (c : SchedClass) (x : SchedItem)
    → x.key ≡ ref_key x.ref
    → is_in x.key q.queued ≡ false
    → IsKept q flying
    → IsKept
        (record q {
          ring = push_at c x (find_from 0 x.ref.canonical_host q.ring) q.ring;
          queued = x.key ∷ q.queued;
        })
        flying
unfolding count_if
fresh-IsKept q flying c x w e k =
    let missing = not_in-times x.key q.queued e in
    let pushed = λ (p : ItemTest). push_at-ring_sum p c x q.ring in
    let home : strays x.ref.canonical_host x.ref x.key ≡ false = ground (
      arith,
      w,
      bytes_eq_iff x.ref.canonical_host x.ref.canonical_host,
      bytes_eq_iff x.key (ref_key x.ref),
    ) in
    record {
      counted = λ j. omega (arith, pushed (has_key j), k.counted j);
      once = λ j. elim (Bool-cases (bytes_eq x.key j)) [
        | inl a ↦
            ground (arith, a, missing, ap (λ z. times z q.queued) ((bytes_eq_iff x.key j).0 a))
        | inr a ↦ ground (arith, a, k.once j)
      ];
      total = omega (arith, pushed any_item, k.total);
      at_home = ground (arith, pushed strays, home, k.at_home);
      right_key = k.right_key;
      runs = λ b. ground (
        arith,
        k.runs b,
        push_at-count_if (is_running b) c x q.ring (find_from 0 x.ref.canonical_host q.ring)
            (running_same b c x) refl,
      );
      named = λ b.
          push_at-is_named b c x q.ring (find_from 0 x.ref.canonical_host q.ring) (k.named b) refl;
      used = push_at-is_unused c x q.ring (find_from 0 x.ref.canonical_host q.ring) k.used refl;
    }

pub enqueue-IsKept :
    (q : SchedQueues) (flying : List SchedItem) (s : SuiteFreshness) (pending_change : Bool)
    → IsKept q flying
    → IsKept (enqueue q s pending_change).0 flying
unfolding enqueue insert_key
enqueue-IsKept q flying s c k = elim (Bool-cases (is_in (ref_key s.suite) q.queued)) [
  | inl a ↦ rw a (marked q flying (ref_key s.suite) c k)
  | inr a ↦ rw (a) (fresh-IsKept q flying (class_of s) (new_item s c) refl a k)
]
