-- ===== src/Freshness/Queues.antt =====
-- internal/freshness/scheduler.go: schedQueues, the queues of due suites that the goroutine of Run
-- owns. The map hosts and the slice order, which have the same hosts, are one list here, in the order
-- of the ring; a map used as a set is the list of its keys. State has the data and Take has pop; their
-- names are passed on here.
mod State
mod Take
pub mod Tally
pub mod Hosts
pub mod Keys
pub mod Turns
pub mod Kept
pub mod Enqueues
pub mod Pops
pub mod Lands
pub mod Runs
pub mod Ready
pub mod Rounds
pub mod Waiters
pub mod Order
pub mod Prunes
mod Tests
use apt_cacher_ultra.Base.{
  ℕ, zero, suc, ◌+◌, ◌%◌, max, Bool, true, false, not, ◌&&◌, ◌||◌, Option, none, some, List, [],
  ◌∷◌, ◌++◌, length, ltb, leb, ◌==◌, if◌then◌else◌, Bytes, bytes_eq, codes, elem_at, put_at,
}
use apt_cacher_ultra.Cache.Newest.{is_in}
unfoldable pub use State.*
unfoldable pub use Take.*

unfoldable pub push_item : SchedClass → SchedItem → HostQueue → HostQueue
push_item class_healthy x h = record h { healthy = h.healthy ++ (x ∷ []) }
push_item class_never_checked x h = record h { never_checked = h.never_checked ++ (x ∷ []) }
push_item class_failing x h = record h { failing = h.failing ++ (x ∷ []) }

abbrev pub new_host_queue : Bytes → HostQueue
new_host_queue host = record {
  host = host;
  healthy = [];
  never_checked = [];
  failing = [];
  waiting = [];
  in_flight = false;
}

unfoldable pub push_at :
    SchedClass → SchedItem → Option (ℕ × HostQueue) → List HostQueue → List HostQueue
push_at c x none ring = ring ++ (push_item c x (new_host_queue x.ref.canonical_host) ∷ [])
push_at c x (some (i, h)) ring = put_at i (push_item c x h) ring

abbrev pub new_item : SuiteFreshness → Bool → SchedItem
new_item s pending_change = record {
  ref = s.suite;
  key = ref_key s.suite;
  waiting = false;
  signed = false;
  held = false;
  pending_change = pending_change;
  wait_seq = 0;
  gen = 0;
}

unfoldable pub enqueue : SchedQueues → SuiteFreshness → Bool → SchedQueues × Bool
enqueue q s pending_change =
    let key = ref_key s.suite in
    if is_in key q.queued
    then (if pending_change then record q { pending = insert_key key q.pending } else q, false)
    else (
      record q {
        ring =
            push_at (class_of s) (new_item s pending_change)
              (find_from 0 s.suite.canonical_host q.ring) q.ring;
        queued = insert_key key q.queued;
      },
      true,
    )

unfoldable pub turn_from : ℕ → ℕ → ℕ → Option ℕ → Option ℕ
turn_from next_idx i kept none = if leb next_idx i then some kept else none
turn_from next_idx i kept (some n) = some n

-- prune's loop from place i: the hosts kept, of which there are so many already, and newNext.
unfoldable pub prune_from : ℕ → ℕ → ℕ → Option ℕ → List HostQueue → List HostQueue × Option ℕ
prune_from next_idx i kept new_next [] = ([], new_next)
prune_from next_idx i kept new_next (h ∷ hs) =
    let turn = turn_from next_idx i kept new_next in
    let keep = prune_from next_idx (suc i) (suc kept) turn hs in
    let skip = prune_from next_idx (suc i) kept new_next hs in
    if h.in_flight || not (is_idle h) then (h ∷ keep.0, keep.1) else skip

abbrev pub turn_or_first : Option ℕ → ℕ
turn_or_first none = 0
turn_or_first (some n) = n

unfoldable pub prune_at : SchedQueues → List HostQueue → SchedQueues
prune_at q [] = q
prune_at q (h ∷ hs) =
    let r = prune_from (q.next % length (h ∷ hs)) 0 0 none (h ∷ hs) in
    record q { ring = r.0; next = turn_or_first r.1 }

unfoldable pub prune : SchedQueues → SchedQueues
prune q = prune_at q q.ring

-- `h.inFlight = false` on the host that was found.
unfoldable pub landed : Option (ℕ × HostQueue) → List HostQueue → List HostQueue
landed none ring = ring
landed (some (i, h)) ring = put_at i (record h { in_flight = false }) ring

unfoldable pub done : SchedQueues → SchedItem → SchedQueues
done q x = prune (record q {
  queued = delete_key x.key q.queued;
  pending = delete_key x.key q.pending;
  ring = landed (find_from 0 x.ref.canonical_host q.ring) q.ring;
})

-- slices.BinarySearchFunc and slices.Insert: in a list in order, the place in front of the first
-- element that is not smaller.
unfoldable pub insert_waiter : SchedItem → List SchedItem → List SchedItem
insert_waiter x [] = x ∷ []
insert_waiter x (w ∷ ws) =
    if leb x.wait_seq w.wait_seq then x ∷ (w ∷ ws) else w ∷ insert_waiter x ws

unfoldable pub park_at : SchedQueues → SchedItem → Bool → Option (ℕ × HostQueue) → SchedQueues
park_at q x signed none = done q x
park_at q x signed (some (i, h)) =
    let seq = if x.waiting then q.wait_seq else q.wait_seq + 1 in
    let parked = record x {
      wait_seq = if x.waiting then x.wait_seq else seq;
      waiting = true;
      signed = signed;
    } in
    record q {
      ring =
          put_at i (record h { in_flight = false; waiting = insert_waiter parked h.waiting })
            q.ring;
      wait_seq = seq;
    }

unfoldable pub park : SchedQueues → SchedItem → Bool → SchedQueues
park q x signed = park_at q x signed (find_from 0 x.ref.canonical_host q.ring)

unfoldable pub each_item : (SchedItem → SchedItem) → List SchedItem → List SchedItem
each_item f [] = []
each_item f (w ∷ ws) = f w ∷ each_item f ws

unfoldable pub each_waiter : (SchedItem → SchedItem) → List HostQueue → List HostQueue
each_waiter f [] = []
each_waiter f (h ∷ hs) = record h { waiting = each_item f h.waiting } ∷ each_waiter f hs

unfoldable pub refresh_signed : SchedQueues → (Bytes → Bool) → SchedQueues
refresh_signed q signed = record q {
  ring = each_waiter (λ w. record w { signed = signed w.key }) q.ring;
}

unfoldable pub unhold : SchedQueues → SchedQueues
unhold q = record q { ring = each_waiter (λ w. record w { held = false }) q.ring }

abbrev pub result_busy : Bytes
result_busy = codes "busy"

unfoldable pub is_queued_result : Bytes → Bool
is_queued_result r =
    bytes_eq r (codes "changed_queued") || bytes_eq r (codes "first_adoption_queued")

pub record CheckReport : Type 0 where
  pub result : Bytes
  pub signed_current : Bool

unfoldable pub finish : SchedQueues → SchedItem → CheckReport → ℕ → SchedQueues
finish q x report gen =
    if is_queued_result report.result
    then park q (record x { held = x.waiting && gen == x.gen }) report.signed_current
    else if x.waiting && bytes_eq report.result result_busy
    then park q (record x { held = true }) x.signed
    else done q x

unfoldable pub with_gen : SchedItem → ℕ → SchedItem
with_gen x gen = record x { gen = gen }

unfoldable pub has : SchedQueues → Bytes → Bool
has q key = is_in key q.queued

-- `waiting` of the queues: how many suites are parked.
unfoldable pub waiting_in : List HostQueue → ℕ
waiting_in [] = 0
waiting_in (h ∷ hs) = length h.waiting + waiting_in hs
