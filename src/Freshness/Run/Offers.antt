-- ===== src/Freshness/Run/Offers.antt =====
-- An offer finds its slot, whatever the offers in flight take.
use apt_cacher_ultra.Base.{
  ℕ, ◌+◌, ◌≤◌, ◌≡◌, sym, ◌∙◌, inl, inr, Bool, true, false, some, List, [], ◌∷◌, arith,
  if◌then◌else◌, Bool-cases, Bytes, bytes_eq, count_if,
}
use apt_cacher_ultra.Freshness.Admission.{Admission, refuses, try_acquire, free_for}
use apt_cacher_ultra.Freshness.Admission.Slots.{is_some, free_for-try_acquire}
use apt_cacher_ultra.Freshness.Admission.Books.{has-add}
use apt_cacher_ultra.Freshness.Queues.{SchedItem, SchedQueues, pop}
use apt_cacher_ultra.Freshness.Queues.Kept.{flies_on}
use apt_cacher_ultra.Freshness.Queues.Runs.{pop_alone}
use apt_cacher_ultra.Freshness.Run.{Loop, admits}
use apt_cacher_ultra.Freshness.Run.Classes.{is_offer, offer_admitted}
use apt_cacher_ultra.Freshness.Run.Counts.{RunReach, RunReach-IsCounted}

-- The pool when each offer in flight has asked for a slot, as signed or not as its check finds it.
unfoldable pub after_offers : (SchedItem → Bool) → List SchedItem → Admission → Admission
after_offers signed [] a = a
after_offers signed (y ∷ flying) a =
    after_offers signed flying
      (if y.waiting then (try_acquire a y.ref.canonical_host (signed y)).0 else a)

-- A slot for another host takes one at most.
try_acquire-free_for :
    (a : Admission) (other host : Bytes) (s t : Bool)
    → bytes_eq other host ≡ false
    → free_for a host t ≤ free_for (try_acquire a other s).0 host t + 1
unfolding try_acquire free_for refuses
try_acquire-free_for a other host s t e = ground (arith, e, has-add other host a.hosts)

after_offers-free_for :
    (signed : SchedItem → Bool) (flying : List SchedItem) (a : Admission) (host : Bytes) (t : Bool)
    → count_if (flies_on host) flying ≡ 0
    → free_for a host t ≤ free_for (after_offers signed flying a) host t + count_if is_offer flying
unfolding after_offers count_if
after_offers-free_for signed [] a host t e = omega arith
after_offers-free_for signed (y ∷ flying) a host t e = elim (Bool-cases y.waiting) [
  | inl w ↦
      let b = (try_acquire a y.ref.canonical_host (signed y)).0 in
      rw w (
        ground (
          arith,
          after_offers-free_for signed flying b host t (ground (arith, e)),
          try_acquire-free_for a y.ref.canonical_host host (signed y) t (ground (arith, e)),
        ))
  | inr w ↦ rw w (ground (arith, after_offers-free_for signed flying a host t (ground (arith, e))))
]

-- In whatever order the loop of Run and the calls of the pool have taken their steps, a waiting suite
-- that the pop loop takes next can have its slot, when it asks as signed or not as it was parked, also
-- after each offer in flight has asked for one, unless others ask in between.
pub offer_succeeds :
    (global : ℕ) (l : Loop) (x : SchedItem) (r : SchedQueues) (signed : SchedItem → Bool)
    → RunReach global l
    → pop l.queues (admits l) ≡ some (x, r)
    → x.waiting ≡ true
    → is_some (try_acquire (after_offers signed l.flying l.pool) x.ref.canonical_host x.signed).1
      ≡ true
offer_succeeds global l x r signed reach e waits =
    let k = RunReach-IsCounted global l reach in
    let host = x.ref.canonical_host in
    let (queued, own, alone, gone) = pop_alone l.queues r l.flying (admits l) x k.reached e in
    let room = offer_admitted l.queues r l.flying (admits l) x k.reached e waits in
    let left = after_offers-free_for signed l.flying l.pool host x.signed alone in
    sym (free_for-try_acquire (after_offers signed l.flying l.pool) host x.signed)
    ∙ ground (arith, room, left, k.offered)
