-- ===== src/Freshness/Queues/Hosts.antt =====
-- The hosts of the ring: each is there once, and prune leaves those with work.
use apt_cacher_ultra.Base.{
  ℕ, suc, ◌+◌, ◌≤◌, ◌≡◌, refl, inl, inr, Bool, true, not, ◌&&◌, ◌||◌, Option, none, some, List, [],
  ◌∷◌, if◌then◌else◌, arith, Bool-cases, Bytes, bytes_eq, bytes_eq_iff, elem_at, count_if,
  count_if_pos, sum_of,
}
use apt_cacher_ultra.Freshness.Queues.{
  SchedItem, HostQueue, SchedQueues, find_from, is_idle, is_nil, prune_from, prune_at, prune,
  turn_from,
}
use apt_cacher_ultra.Freshness.Queues.Tally.{ItemTest, host_sum, ring_sum, of_item}

abbrev pub is_named : Bytes → HostQueue → Bool
is_named b h = bytes_eq h.host b

abbrev pub is_running : Bytes → HostQueue → Bool
is_running b h = bytes_eq h.host b && h.in_flight

abbrev pub is_resting : Bytes → HostQueue → Bool
is_resting b h = bytes_eq h.host b && not h.in_flight

-- With nothing queued and nothing in flight.
abbrev pub is_unused : HostQueue → Bool
is_unused h = not (h.in_flight || not (is_idle h))

-- The hosts that prune keeps.
unfoldable pub used_hosts : List HostQueue → List HostQueue
used_hosts [] = []
used_hosts (h ∷ hs) =
    let rest = used_hosts hs in if h.in_flight || not (is_idle h) then h ∷ rest else rest

pub prune_from-used_hosts :
    (n i k : ℕ) (o : Option ℕ) (ring : List HostQueue)
    → (prune_from n i k o ring).0 ≡ used_hosts ring
unfolding prune_from used_hosts
prune_from-used_hosts n i k o [] = refl
prune_from-used_hosts n i k o (h ∷ hs) = elim (Bool-cases (h.in_flight || not (is_idle h))) [
  | inl a ↦ rw (a, prune_from-used_hosts n (suc i) (suc k) (turn_from n i k o) hs) refl
  | inr a ↦ rw (a, prune_from-used_hosts n (suc i) k o hs) refl
]

prune_at-used_hosts :
    (q : SchedQueues) (ring : List HostQueue)
    → q.ring ≡ ring
    → (prune_at q ring).ring ≡ used_hosts ring
unfolding prune_at used_hosts
prune_at-used_hosts q [] e = e
prune_at-used_hosts q (h ∷ hs) e = prune_from-used_hosts _ 0 0 none (h ∷ hs)

pub prune-used_hosts : (q : SchedQueues) → (prune q).ring ≡ used_hosts q.ring
unfolding prune
prune-used_hosts q = prune_at-used_hosts q q.ring refl

prune_at-queued : (q : SchedQueues) (ring : List HostQueue) → (prune_at q ring).queued ≡ q.queued
unfolding prune_at
prune_at-queued q [] = refl
prune_at-queued q (h ∷ hs) = refl

pub prune-queued : (q : SchedQueues) → (prune q).queued ≡ q.queued
unfolding prune
prune-queued q = prune_at-queued q q.ring

nothing_in : (p : SchedItem → Bool) (xs : List SchedItem) → is_nil xs ≡ true → count_if p xs ≡ 0
unfolding is_nil count_if
nothing_in p [] e = refl
nothing_in p (x ∷ xs) e = cc e

is_idle-host_sum : (p : ItemTest) (h : HostQueue) → is_idle h ≡ true → host_sum p h ≡ 0
unfolding is_idle host_sum
is_idle-host_sum p h e = ground (
  arith,
  nothing_in (of_item p h.host) h.healthy,
  nothing_in (of_item p h.host) h.never_checked,
  nothing_in (of_item p h.host) h.failing,
  nothing_in (of_item p h.host) h.waiting,
)

pub used_hosts-ring_sum :
    (p : ItemTest) (ring : List HostQueue) → ring_sum p (used_hosts ring) ≡ ring_sum p ring
unfolding ring_sum sum_of used_hosts
used_hosts-ring_sum p [] = refl
used_hosts-ring_sum p (h ∷ hs) = elim (Bool-cases (h.in_flight || not (is_idle h))) [
  | inl a ↦ rw a (omega (arith, used_hosts-ring_sum p hs))
  | inr a ↦ rw a (ground (arith, is_idle-host_sum p h (ground arith), used_hosts-ring_sum p hs))
]

pub used_hosts-is_running :
    (b : Bytes) (ring : List HostQueue)
    → count_if (is_running b) (used_hosts ring) ≡ count_if (is_running b) ring
unfolding count_if used_hosts
used_hosts-is_running b [] = refl
used_hosts-is_running b (h ∷ hs) = ground (arith, used_hosts-is_running b hs)

pub used_hosts-is_named :
    (b : Bytes) (ring : List HostQueue)
    → count_if (is_named b) (used_hosts ring) ≤ count_if (is_named b) ring
unfolding count_if used_hosts
used_hosts-is_named b [] = omega arith
used_hosts-is_named b (h ∷ hs) = ground (arith, used_hosts-is_named b hs)

pub used_hosts-is_unused : (ring : List HostQueue) → count_if is_unused (used_hosts ring) ≡ 0
unfolding count_if used_hosts
used_hosts-is_unused [] = refl
used_hosts-is_unused (h ∷ hs) = ground (arith, used_hosts-is_unused hs)

pub not_found :
    (n : ℕ) (b : Bytes) (ring : List HostQueue)
    → find_from n b ring ≡ none
    → count_if (is_named b) ring ≡ 0
unfolding find_from count_if
not_found n b [] e = refl
not_found n b (h ∷ hs) e = elim (Bool-cases (bytes_eq h.host b)) [
  | inl a ↦ cc (rw a at e)
  | inr a ↦ rw a (omega (arith, not_found (suc n) b hs (rw a at e)))
]

pub running_or_resting :
    (b : Bytes) (ring : List HostQueue)
    → count_if (is_running b) ring + count_if (is_resting b) ring ≡ count_if (is_named b) ring
unfolding count_if
running_or_resting b [] = refl
running_or_resting b (h ∷ hs) = ground (arith, running_or_resting b hs)

-- The only host of a name, when a check of that name runs, is in flight.
pub is_the_running :
    (b : Bytes) (ring : List HostQueue) (i : ℕ) (h : HostQueue)
    → elem_at i ring ≡ some h
    → h.host ≡ b
    → count_if (is_named b) ring ≤ 1
    → 1 ≤ count_if (is_running b) ring
    → h.in_flight ≡ true
is_the_running b ring i h at_i same one runs = elim (Bool-cases h.in_flight) [
  | inl a ↦ a
  | inr a ↦
      let rests =
        count_if_pos (is_resting b) i ring h at_i (rw (a, (bytes_eq_iff h.host b).1 same) refl) in
      absurd (omega (arith, rests, running_or_resting b ring))
]
