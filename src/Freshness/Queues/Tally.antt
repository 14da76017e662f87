-- ===== src/Freshness/Queues/Tally.antt =====
-- How many items of the queues pass a test on their host, suite and key, and what each operation on
-- the ring does to that number.
use apt_cacher_ultra.Base.{
  ℕ, suc, ◌+◌, ◌≡◌, refl, sym, ap, ◌∙◌, inl, inr, Bool, not, ◌&&◌, some, List, [], ◌∷◌,
  if◌then◌else◌, arith, Bool-cases, Option-cases, Bytes, bytes_eq, bytes_eq_iff, elem_at, subst,
  count_if, count_if-append, sum_of, sum_of-append, sum_of-put_at,
}
use apt_cacher_ultra.Freshness.Queues.{
  SuiteRef, SchedItem, HostQueue, SchedClass, class_healthy, class_never_checked, class_failing,
  push_item, push_at, find_from, new_host_queue, take_waiter, insert_waiter, each_item, each_waiter,
}

-- A test on the host of a queue, and the suite and the key of an item.
abbrev pub ItemTest : Type 0
ItemTest = Bytes → SuiteRef → Bytes → Bool

abbrev pub of_item : ItemTest → Bytes → SchedItem → Bool
of_item p b x = p b x.ref x.key

abbrev pub one_if : Bool → ℕ
one_if b = if b then 1 else 0

unfoldable pub host_sum : ItemTest → HostQueue → ℕ
host_sum p h =
    count_if (of_item p h.host) h.healthy
    + (count_if (of_item p h.host) h.never_checked
        + (count_if (of_item p h.host) h.failing + count_if (of_item p h.host) h.waiting))

unfoldable pub ring_sum : ItemTest → List HostQueue → ℕ
ring_sum p ring = sum_of (host_sum p) ring

-- The place that q.hosts[host] is found at.
find_from-elem_at :
    (n : ℕ) (host : Bytes) (ring : List HostQueue) (i : ℕ) (h : HostQueue)
    → find_from n host ring ≡ some (i, h)
    → (j : ℕ) × (i ≡ n + j) × (elem_at j ring ≡ some h) × (h.host ≡ host)
unfolding find_from elem_at
find_from-elem_at n host [] i h e = cc e
find_from-elem_at n host (x ∷ ring) i h e = elim (Bool-cases (bytes_eq x.host host)) [
  | inl a ↦
      let f : some (n, x) ≡ some (i, h) = rw a at e in
      let is : x ≡ h = cc f in
      let place : n ≡ i = cc f in
      (
        0,
        omega (arith, place),
        ap some is,
        sym (ap (λ (z : HostQueue). z.host) is) ∙ (bytes_eq_iff x.host host).0 a,
      )
  | inr a ↦
      let (j, w, at_j, same) = find_from-elem_at (suc n) host ring i h (rw a at e) in
      (suc j, omega (arith, w), at_j, same)
]

-- The host found is at its place, and has the name asked for.
pub found_host :
    (host : Bytes) (ring : List HostQueue) (i : ℕ) (h : HostQueue)
    → find_from 0 host ring ≡ some (i, h)
    → (elem_at i ring ≡ some h) × (h.host ≡ host)
found_host host ring i h e =
    let (j, w, at_j, same) = find_from-elem_at 0 host ring i h e in
    let place : j ≡ i = omega (arith, w) in (subst (λ k. elem_at k ring ≡ some h) place at_j, same)

new_host_queue-host_sum : (p : ItemTest) (host : Bytes) → host_sum p (new_host_queue host) ≡ 0
unfolding host_sum count_if
new_host_queue-host_sum p host = refl

pub push_item-host_sum :
    (p : ItemTest) (c : SchedClass) (x : SchedItem) (h : HostQueue)
    → host_sum p (push_item c x h) ≡ host_sum p h + one_if (of_item p h.host x)
unfolding host_sum push_item
push_item-host_sum p class_healthy x h =
    omega (arith, count_if-append (of_item p h.host) h.healthy x)
push_item-host_sum p class_never_checked x h =
    omega (arith, count_if-append (of_item p h.host) h.never_checked x)
push_item-host_sum p class_failing x h =
    omega (arith, count_if-append (of_item p h.host) h.failing x)

pub push_item-host :
    (c : SchedClass) (x : SchedItem) (h : HostQueue) → (push_item c x h).host ≡ h.host
unfolding push_item
push_item-host class_healthy x h = refl
push_item-host class_never_checked x h = refl
push_item-host class_failing x h = refl

pub take_waiter-count :
    (p : SchedItem → Bool) (admit : Bool → Bool) (ws rest : List SchedItem) (w : SchedItem)
    → take_waiter admit ws ≡ some (w, rest)
    → count_if p rest + one_if (p w) ≡ count_if p ws
unfolding take_waiter count_if
take_waiter-count p admit [] rest w e = cc e
take_waiter-count p admit (x ∷ ws) rest w e = elim (Bool-cases (not x.held && admit x.signed)) [
  | inl a ↦
      let f : some (x, ws) ≡ some (w, rest) = rw a at e in
      let g : x ≡ w = cc f in let k : ws ≡ rest = cc f in rw (sym g, sym k) (omega arith)
  | inr a ↦ elim (Option-cases (take_waiter admit ws)) [
    | inl b ↦ cc (rw (a, b) at e)
    | inr ((v, more), b) ↦
        let f : some (v, x ∷ more) ≡ some (w, rest) = rw (a, b) at e in
        let g : v ≡ w = cc f in
        let k : x ∷ more ≡ rest = cc f in
        rw (sym g, sym k) (omega (arith, take_waiter-count p admit ws more v b))
  ]
]

pub insert_waiter-count :
    (p : SchedItem → Bool) (x : SchedItem) (ws : List SchedItem)
    → count_if p (insert_waiter x ws) ≡ count_if p ws + one_if (p x)
unfolding insert_waiter count_if
insert_waiter-count p x [] = ground arith
insert_waiter-count p x (w ∷ ws) = ground (arith, insert_waiter-count p x ws)

pub each_item-count :
    (p : SchedItem → Bool) (f : SchedItem → SchedItem) (ws : List SchedItem)
    → ((x : SchedItem) → p (f x) ≡ p x)
    → count_if p (each_item f ws) ≡ count_if p ws
unfolding each_item count_if
each_item-count p f [] same = refl
each_item-count p f (w ∷ ws) same = rw (same w, each_item-count p f ws same) refl

-- What push_at, put_at and each_waiter make of the sum over the ring.
pub push_at-ring_sum :
    (p : ItemTest) (c : SchedClass) (x : SchedItem) (ring : List HostQueue)
    → ring_sum p (push_at c x (find_from 0 x.ref.canonical_host ring) ring)
      ≡ ring_sum p ring + one_if (of_item p x.ref.canonical_host x)
unfolding push_at ring_sum
push_at-ring_sum p c x ring = elim (Option-cases (find_from 0 x.ref.canonical_host ring)) [
  | inl e ↦ rw e (
      omega (
        arith,
        sum_of-append (host_sum p) ring (push_item c x (new_host_queue x.ref.canonical_host)),
        push_item-host_sum p c x (new_host_queue x.ref.canonical_host),
        new_host_queue-host_sum p x.ref.canonical_host,
      ))
  | inr ((i, h), e) ↦
      let (at_i, same) = found_host x.ref.canonical_host ring i h e in
      rw e (
        omega (
          arith,
          sum_of-put_at (host_sum p) i ring h (push_item c x h) at_i,
          push_item-host_sum p c x h,
          ap (λ b. one_if (of_item p b x)) same,
        ))
]

pub each_waiter-ring_sum :
    (p : ItemTest) (f : SchedItem → SchedItem) (ring : List HostQueue)
    → ((b : Bytes) (x : SchedItem) → of_item p b (f x) ≡ of_item p b x)
    → ring_sum p (each_waiter f ring) ≡ ring_sum p ring
unfolding ring_sum sum_of each_waiter host_sum
each_waiter-ring_sum p f [] same = refl
each_waiter-ring_sum p f (h ∷ ring) same =
    rw
      (
        each_item-count (of_item p h.host) f h.waiting (same h.host),
        each_waiter-ring_sum p f ring same,
      )
      refl
