-- ===== src/Freshness/Queues/Lands.antt =====
-- finish keeps the books: the check is no longer in flight, and its suite waits or is gone.
use apt_cacher_ultra.Base.{
  ℕ, ◌+◌, ◌≤◌, ◌≡◌, ◌==◌, refl, ap, ◌∙◌, inl, inr, Bool, true, false, ◌&&◌, some, List, [], ◌∷◌,
  if◌then◌else◌, arith, Bool-cases, Option-cases, Bytes, bytes_eq, bytes_eq_iff, elem_at, put_at,
  drop_at, count_if, count_if_pos, count_if-put_at, count_if-drop_at, sum_of-put_at, length-drop_at,
}
use apt_cacher_ultra.Freshness.Queues.{
  SchedItem, HostQueue, SchedQueues, insert_waiter, finish, CheckReport, is_queued_result,
  result_busy, delete_key, is_idle, is_nil, find_from, landed, done, park, park_at,
}
use apt_cacher_ultra.Freshness.Queues.Tally.{
  ItemTest, host_sum, ring_sum, of_item, one_if, insert_waiter-count, found_host,
}
use apt_cacher_ultra.Freshness.Queues.Hosts.{
  is_named, is_running, is_unused, used_hosts, prune-used_hosts, prune-queued, used_hosts-ring_sum,
  used_hosts-is_running, used_hosts-is_named, used_hosts-is_unused, not_found, is_the_running,
  running_or_resting,
}
use apt_cacher_ultra.Freshness.Queues.Keys.{times, delete_key-times, length-delete_key}
use apt_cacher_ultra.Freshness.Queues.Kept.{
  has_key, strays, any_item, flies_on, keyed, is_lost, IsKept,
}

-- The host of a check in flight is in the ring, and in flight.
pub flying_host :
    (q : SchedQueues) (flying : List SchedItem) (t : ℕ) (x : SchedItem)
    → IsKept q flying
    → elem_at t flying ≡ some x
    → (i : ℕ) × (h : HostQueue) × (find_from 0 x.ref.canonical_host q.ring ≡ some (i, h))
      × (elem_at i q.ring ≡ some h)
      × (h.host ≡ x.ref.canonical_host)
      × (h.in_flight ≡ true)
flying_host q flying t x k at_t =
    let b = x.ref.canonical_host in
    let flies = count_if_pos (flies_on b) t flying x at_t ((bytes_eq_iff b b).1 refl) in
    let some_run : 1 ≤ count_if (is_running b) q.ring = omega (arith, flies, k.runs b) in
    elim (Option-cases (find_from 0 b q.ring)) [
      | inl e ↦ absurd (omega (arith, not_found 0 b q.ring e, running_or_resting b q.ring))
      | inr ((i, h), e) ↦
          let (at_i, same) = found_host b q.ring i h e in
          (i, h, e, at_i, same, is_the_running b q.ring i h at_i same (k.named b) some_run)
    ]

-- The flag of its host is reset.
landing-is_running :
    (q : SchedQueues) (flying : List SchedItem) (t i : ℕ) (x : SchedItem) (h g : HostQueue)
    → IsKept q flying
    → elem_at t flying ≡ some x
    → elem_at i q.ring ≡ some h
    → h.host ≡ x.ref.canonical_host
    → h.in_flight ≡ true
    → g.host ≡ h.host
    → g.in_flight ≡ false
    → (b : Bytes)
    → count_if (is_running b) (put_at i g q.ring) ≡ count_if (flies_on b) (drop_at t flying)
landing-is_running q flying t i x h g k at_t at_i same flies same' landed b = ground (
  arith,
  k.runs b,
  count_if-put_at (is_running b) i q.ring h g at_i,
  landed,
  flies,
  ap (λ z. bytes_eq z b) same,
  count_if-drop_at (flies_on b) t flying x at_t,
)

right_left :
    (flying : List SchedItem) (t : ℕ) (x : SchedItem)
    → elem_at t flying ≡ some x
    → count_if is_lost flying ≡ 0
    → (count_if is_lost (drop_at t flying) ≡ 0) × (is_lost x ≡ false)
right_left flying t x at_t e =
    let left = count_if-drop_at is_lost t flying x at_t in
    (omega (arith, left), ground (arith, left))

done_books :
    (q : SchedQueues) (flying : List SchedItem) (t i : ℕ) (x : SchedItem) (h : HostQueue)
    → IsKept q flying
    → elem_at t flying ≡ some x
    → elem_at i q.ring ≡ some h
    → h.host ≡ x.ref.canonical_host
    → h.in_flight ≡ true
    → (r : SchedQueues) → r.queued ≡ delete_key x.key q.queued
    → r.ring ≡ used_hosts (put_at i (record h { in_flight = false }) q.ring)
    → IsKept r (drop_at t flying)
unfolding ring_sum host_sum
done_books q flying t i x h k at_t at_i same flies r w v =
    let g = record h { in_flight = false } in
    let ring = put_at i g q.ring in
    let moved = λ (p : ItemTest). sum_of-put_at (host_sum p) i q.ring h g at_i in
    let dropped = λ (j : Bytes). count_if-drop_at (keyed j) t flying x at_t in
    let here = count_if_pos (keyed x.key) t flying x at_t ((bytes_eq_iff x.key x.key).1 refl) in
    let one : times x.key q.queued ≡ 1 = omega (arith, here, k.counted x.key, k.once x.key) in
    let counted_after : (j : Bytes)
        → ring_sum (has_key j) ring + count_if (keyed j) (drop_at t flying)
          ≡ (if bytes_eq x.key j then 0 else times j q.queued) =
      λ j. elim (Bool-cases (bytes_eq x.key j)) [
        | inl a ↦ ground (arith, a, moved (has_key j), dropped j, k.counted j, k.once j)
        | inr a ↦ ground (arith, a, moved (has_key j), dropped j, k.counted j)
      ] in
    record {
      counted = λ j.
          rw (v, w, used_hosts-ring_sum (has_key j) ring, delete_key-times x.key j q.queued)
            (counted_after j);
      once = λ j. rw (w, delete_key-times x.key j q.queued) (ground (arith, k.once j));
      total =
          rw (v, w)
            (omega (
              arith,
              used_hosts-ring_sum any_item ring,
              moved any_item,
              k.total,
              length-drop_at t flying x at_t,
              length-delete_key x.key q.queued,
              one,
            ));
      at_home = rw v (omega (arith, used_hosts-ring_sum strays ring, moved strays, k.at_home));
      right_key = (right_left flying t x at_t k.right_key).0;
      runs = λ b. rw v (
          used_hosts-is_running b ring
          ∙ landing-is_running q flying t i x h g k at_t at_i same flies refl refl b);
      named = λ b. rw v (
          omega (
            arith,
            used_hosts-is_named b ring,
            k.named b,
            count_if-put_at (is_named b) i q.ring h g at_i,
          ));
      used = rw v (used_hosts-is_unused ring);
    }

pub done-IsKept :
    (q : SchedQueues) (flying : List SchedItem) (t : ℕ) (x : SchedItem)
    → IsKept q flying
    → elem_at t flying ≡ some x
    → IsKept (done q x) (drop_at t flying)
unfolding done landed
done-IsKept q flying t x k at_t =
    let (i, h, e, at_i, same, flies) = flying_host q flying t x k at_t in
    let ended = record q {
      queued = delete_key x.key q.queued;
      pending = delete_key x.key q.pending;
      ring = landed (find_from 0 x.ref.canonical_host q.ring) q.ring;
    } in
    done_books q flying t i x h k at_t at_i same flies (done q x) (prune-queued ended)
      (prune-used_hosts ended ∙ ap used_hosts (ap (λ o. landed o q.ring) e))

inserted : (x : SchedItem) (ws : List SchedItem) → is_nil (insert_waiter x ws) ≡ false
unfolding insert_waiter is_nil
inserted x [] = refl
inserted x (w ∷ ws) = ground arith

-- The suite waits with another mark, order or place.
park_books :
    (q : SchedQueues) (flying : List SchedItem) (t i : ℕ) (x y : SchedItem) (h : HostQueue)
    → IsKept q flying
    → elem_at t flying ≡ some x
    → elem_at i q.ring ≡ some h
    → h.host ≡ x.ref.canonical_host
    → h.in_flight ≡ true
    → y.ref ≡ x.ref
    → y.key ≡ x.key
    → (r : SchedQueues) → r.queued ≡ q.queued
    → r.ring ≡ put_at i (record h { in_flight = false; waiting = insert_waiter y h.waiting }) q.ring
    → IsKept r (drop_at t flying)
unfolding ring_sum host_sum is_idle
park_books q flying t i x y h k at_t at_i same flies ref key r w v =
    let g = record h { in_flight = false; waiting = insert_waiter y h.waiting } in
    let placed = λ (p : ItemTest). sum_of-put_at (host_sum p) i q.ring h g at_i in
    let added = λ (p : ItemTest). insert_waiter-count (of_item p h.host) y h.waiting in
    let is_x = λ (p : ItemTest).
      ap (λ z. one_if (p h.host y.ref z)) key ∙ ap (λ z. one_if (p h.host z x.key)) ref in
    let (left, right) = right_left flying t x at_t k.right_key in
    let home : strays h.host x.ref x.key ≡ false =
      ground (arith, right, bytes_eq_iff x.ref.canonical_host h.host, same) in
    record {
      counted = λ j.
          rw (v, w)
            (omega (
              arith,
              placed (has_key j),
              added (has_key j),
              is_x (has_key j),
              count_if-drop_at (keyed j) t flying x at_t,
              k.counted j,
            ));
      once = λ j. rw w (k.once j);
      total =
          rw (v, w)
            (omega
              (arith, placed any_item, added any_item, k.total, length-drop_at t flying x at_t));
      at_home =
          rw v (omega (arith, placed strays, added strays, is_x strays, ap one_if home, k.at_home));
      right_key = left;
      runs = λ b. rw v (landing-is_running q flying t i x h g k at_t at_i same flies refl refl b);
      named = λ b. rw v (omega (arith, k.named b, count_if-put_at (is_named b) i q.ring h g at_i));
      used = rw v (
          ground
            (arith, k.used, count_if-put_at is_unused i q.ring h g at_i, inserted y h.waiting));
    }

pub park-IsKept :
    (q : SchedQueues) (flying : List SchedItem) (t : ℕ) (x : SchedItem) (held signed : Bool)
    → IsKept q flying
    → elem_at t flying ≡ some x
    → IsKept (park q (record x { held = held }) signed) (drop_at t flying)
unfolding park park_at
park-IsKept q flying t x held signed k at_t =
    let (i, h, e, at_i, same, flies) = flying_host q flying t x k at_t in
    let y = record x {
      held = held;
      waiting = true;
      signed = signed;
      wait_seq =
          if x.waiting then x.wait_seq else (if x.waiting then q.wait_seq else q.wait_seq + 1);
    } in
    rw e (
      park_books q flying t i x y h k at_t at_i same flies refl refl
        (park_at q (record x { held = held }) signed (some (i, h))) refl refl)

pub finish-IsKept :
    (q : SchedQueues) (flying : List SchedItem) (t : ℕ) (x : SchedItem) (report : CheckReport)
    (gen : ℕ)
    → IsKept q flying
    → elem_at t flying ≡ some x
    → IsKept (finish q x report gen) (drop_at t flying)
unfolding finish
finish-IsKept q flying t x report gen k at_t = elim (Bool-cases (is_queued_result report.result)) [
  | inl a ↦ rw a (park-IsKept q flying t x (x.waiting && gen == x.gen) report.signed_current k at_t)
  | inr a ↦ elim (Bool-cases (x.waiting && bytes_eq report.result result_busy)) [
    | inl b ↦ rw (a, b) (park-IsKept q flying t x true x.signed k at_t)
    | inr b ↦ rw (a, b) (done-IsKept q flying t x k at_t)
  ]
]
