-- ===== src/Freshness/Queues/Prunes.antt =====
-- prune: whose turn it is when hosts are dropped.
use apt_cacher_ultra.Base.{
  ℕ, zero, suc, ◌+◌, ◌-◌, ◌%◌, ◌≡◌, refl, ◌∙◌, ap, inl, inr, not, ◌||◌, none, some, List, [], ◌∷◌,
  arith, elem_at, length, drop, subst, Bool-cases, leb, leb→le,
}
use apt_cacher_ultra.Freshness.Queues.{
  HostQueue, SchedQueues, is_idle, turn_from, prune_from, prune_at, prune,
}
use apt_cacher_ultra.Freshness.Queues.Hosts.{used_hosts, prune_from-used_hosts}

turn_found : (n i k m : ℕ) (ring : List HostQueue) → (prune_from n i k (some m) ring).1 ≡ some m
unfolding prune_from turn_from
turn_found n i k m [] = refl
turn_found n i k m (h ∷ hs) = elim (Bool-cases (h.in_flight || not (is_idle h))) [
  | inl a ↦ rw a (turn_found n (suc i) (suc k) m hs)
  | inr a ↦ rw a (turn_found n (suc i) k m hs)
]

none_left : (n : ℕ) → used_hosts (drop n []) ≡ []
unfolding used_hosts
none_left zero = refl
none_left (suc n) = refl

-- The place of the first host kept at or behind place n, of those from place i.
turn_place :
    (n i k : ℕ) (ring rest : List HostQueue) (g : HostQueue)
    → used_hosts (drop (n - i) ring) ≡ g ∷ rest
    → (j : ℕ) × ((prune_from n i k none ring).1 ≡ some (k + j))
      × (elem_at j (used_hosts ring) ≡ some g)
unfolding prune_from turn_from used_hosts elem_at
turn_place n i k [] rest g e = cc (none_left (n - i), e)
turn_place n i k (h ∷ hs) rest g e =
    let keep = λ (w : used_hosts (drop (n - suc i) hs) ≡ g ∷ rest).
      turn_place n (suc i) (suc k) hs rest g w in
    let skip =
      λ (w : used_hosts (drop (n - suc i) hs) ≡ g ∷ rest). turn_place n (suc i) k hs rest g w in
    elim (Bool-cases (leb n i)) [
      | inl a ↦
          let now : n - i ≡ 0 = omega (arith, leb→le n i a) in
          let next : n - suc i ≡ 0 = omega (arith, leb→le n i a) in
          elim (Bool-cases (h.in_flight || not (is_idle h))) [
            | inl b ↦
                let first : h ∷ used_hosts hs ≡ g ∷ rest = rw (now, b) at e in
                let same : h ≡ g = cc first in
                let plus : k ≡ k + 0 = omega arith in
                (
                  0,
                  rw (b, a) (turn_found n (suc i) (suc k) k hs ∙ ap some plus),
                  rw b (ap some same),
                )
            | inr b ↦
                let others : used_hosts hs ≡ g ∷ rest = rw (now, b) at e in
                let (j, w, at_j) = skip (rw next others) in (j, rw b w, rw b at_j)
          ]
      | inr a ↦
          let before : n - i ≡ suc (n - suc i) = ground (arith, a) in
          let later : used_hosts (drop (n - suc i) hs) ≡ g ∷ rest = rw before at e in
          elim (Bool-cases (h.in_flight || not (is_idle h))) [
            | inl b ↦
                let (j, w, at_j) = keep later in
                let plus : suc k + j ≡ k + suc j = omega arith in
                (suc j, rw (b, a) (w ∙ ap some plus), rw b at_j)
            | inr b ↦ let (j, w, at_j) = skip later in (j, rw b w, rw b at_j)
          ]
    ]

prune_at_turn :
    (q : SchedQueues) (ring rest : List HostQueue) (g : HostQueue)
    → used_hosts (drop (q.next % length ring) ring) ≡ g ∷ rest
    → q.ring ≡ ring
    → elem_at (prune_at q ring).next (prune_at q ring).ring ≡ some g
unfolding prune_at
prune_at_turn q [] rest g e w = cc (none_left (q.next % length {A = HostQueue} []), e)
prune_at_turn q (h ∷ hs) rest g e w =
    let n = q.next % length (h ∷ hs) in
    let same : n ≡ n - 0 = omega arith in
    let (j, found, at_j) =
      turn_place n 0 0 (h ∷ hs) rest g
        (subst (λ z. used_hosts (drop z (h ∷ hs)) ≡ g ∷ rest) same e) in
    let place : 0 + j ≡ j = omega arith in
    rw (found ∙ ap some place, prune_from-used_hosts (q.next % length (h ∷ hs)) 0 0 none (h ∷ hs))
      at_j

-- prune leaves the turn with the first host at or behind the place of the turn that it keeps, if there is
-- one: with the host whose turn it was when that is kept.
pub prune_turn :
    (q : SchedQueues) (rest : List HostQueue) (g : HostQueue)
    → used_hosts (drop (q.next % length q.ring) q.ring) ≡ g ∷ rest
    → elem_at (prune q).next (prune q).ring ≡ some g
unfolding prune
prune_turn q rest g e = prune_at_turn q q.ring rest g e refl
