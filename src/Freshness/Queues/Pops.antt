-- ===== src/Freshness/Queues/Pops.antt =====
-- pop keeps the books: its item is in flight.
use apt_cacher_ultra.Base.{
  ℕ, ◌+◌, ◌≡◌, ap, false, List, ◌∷◌, arith, Bytes, bytes_eq, bytes_eq_iff, put_at, count_if,
  count_if-put_at, sum_of-put_at, sum_of-at,
}
use apt_cacher_ultra.Freshness.Queues.{SchedItem, SchedQueues, with_gen}
use apt_cacher_ultra.Freshness.Queues.Tally.{ItemTest, host_sum, ring_sum, one_if}
use apt_cacher_ultra.Freshness.Queues.Hosts.{is_named, is_running, is_unused}
use apt_cacher_ultra.Freshness.Queues.Turns.{IsTurn}
use apt_cacher_ultra.Freshness.Queues.Kept.{has_key, strays, any_item, flies_on, is_lost, IsKept}

-- The item of a turn is one of the host that gives it up, under the key of its suite.
not_stray :
    (q r : SchedQueues) (x : SchedItem)
    → (t : IsTurn q x r) → ring_sum strays q.ring ≡ 0
    → (x.ref.canonical_host ≡ t.before.host) × (is_lost x ≡ false)
unfolding ring_sum
not_stray q r x t home =
    let none_there = sum_of-at (host_sum strays) t.place q.ring t.before t.stood in
    let fine : strays t.before.host x.ref x.key ≡ false =
      ground (arith, none_there, home, t.lost strays) in
    ((bytes_eq_iff x.ref.canonical_host t.before.host).0 (ground arith), ground arith)

turn-is_running :
    (q r : SchedQueues) (x : SchedItem)
    → (t : IsTurn q x r) → x.ref.canonical_host ≡ t.before.host
    → (b : Bytes)
    → count_if (is_running b) (put_at t.place t.after q.ring)
      ≡ count_if (is_running b) q.ring + one_if (flies_on b x)
turn-is_running q r x t home b =
    let moved = count_if-put_at (is_running b) t.place q.ring t.before t.after t.stood in
    let idle : is_running b t.before ≡ false = ground (arith, t.rested) in
    let flies : is_running b t.after ≡ flies_on b x =
      ground (arith, t.flies, ap (λ z. bytes_eq z b) home, ap (λ z. bytes_eq z b) t.same_host) in
    ground (arith, moved, idle, flies)

pub pop-IsKept :
    (q r : SchedQueues) (flying : List SchedItem) (x : SchedItem) (gen : ℕ)
    → IsTurn q x r
    → IsKept q flying
    → IsKept r (with_gen x gen ∷ flying)
unfolding ring_sum count_if with_gen
pop-IsKept q r flying x gen t k =
    let moved =
      λ (p : ItemTest). sum_of-put_at (host_sum p) t.place q.ring t.before t.after t.stood in
    let (home, right) = not_stray q r x t k.at_home in
    record {
      counted = λ j.
          rw (t.ring_after, t.same_queued)
            (omega (arith, moved (has_key j), t.lost (has_key j), k.counted j));
      once = λ j. rw t.same_queued (k.once j);
      total =
          rw (t.ring_after, t.same_queued)
            (omega (arith, moved any_item, t.lost any_item, k.total));
      at_home = rw (t.ring_after) (omega (arith, moved strays, t.lost strays, k.at_home));
      right_key = omega (arith, ap one_if right, k.right_key);
      runs = λ b. rw (t.ring_after) (omega (arith, turn-is_running q r x t home b, k.runs b));
      named = λ b. rw (t.ring_after) (
          omega (
            arith,
            k.named b,
            count_if-put_at (is_named b) t.place q.ring t.before t.after t.stood,
            ap (λ c. one_if (bytes_eq c b)) t.same_host,
          ));
      used = rw (t.ring_after) (
          ground (
            arith,
            k.used,
            count_if-put_at is_unused t.place q.ring t.before t.after t.stood,
            t.flies,
          ));
    }
