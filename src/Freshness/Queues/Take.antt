-- ===== src/Freshness/Queues/Take.antt =====
-- pop: the turn of each host, and the round of the hosts.
use apt_cacher_ultra.Base.{
  ℕ, zero, suc, ◌+◌, ◌%◌, Bool, true, not, ◌&&◌, Option, none, some, List, [], ◌∷◌, length,
  if◌then◌else◌, Bytes, elem_at, put_at,
}
use apt_cacher_ultra.Cache.Newest.{is_in}
use apt_cacher_ultra.Freshness.Queues.State.{SchedItem, HostQueue, SchedQueues, delete_key}

-- The first loop of pop on a host: the first waiter that is not held and that admit allows, and the
-- other waiters.
unfoldable pub take_waiter : (Bool → Bool) → List SchedItem → Option (SchedItem × List SchedItem)
take_waiter admit [] = none
take_waiter admit (w ∷ ws) =
    let rest = take_waiter admit ws in
    if not w.held && admit w.signed
    then some (w, ws)
    else elim rest [ none ↦ none | some r ↦ some (r.0, w ∷ r.1) ]

-- The second loop: the first item of the best class.
unfoldable pub best_of :
    HostQueue → List SchedItem → List SchedItem → List SchedItem → Option (SchedItem × HostQueue)
best_of h (x ∷ xs) ns fs = some (x, record h { healthy = xs })
best_of h [] (x ∷ xs) fs = some (x, record h { never_checked = xs })
best_of h [] [] (x ∷ xs) = some (x, record h { failing = xs })
best_of h [] [] [] = none

unfoldable pub take_best : HostQueue → Option (SchedItem × HostQueue)
take_best h = best_of h h.healthy h.never_checked h.failing

abbrev pub Admit : Type 0
Admit = Bytes → Bool → Bool

abbrev pub Popped : Type 0
Popped = Option (SchedItem × SchedQueues)

unfoldable pub best_turn : SchedQueues → ℕ → Option (SchedItem × HostQueue) → Popped
best_turn q idx none = none
best_turn q idx (some (x, h)) = some (
  if is_in x.key q.pending then record x { pending_change = true } else x,
  record q {
    ring = put_at idx (record h { in_flight = true }) q.ring;
    next = (idx + 1) % length q.ring;
    pending = delete_key x.key q.pending;
  },
)

unfoldable pub waiter_turn :
    SchedQueues → ℕ → HostQueue → Option (SchedItem × List SchedItem) → Popped
waiter_turn q idx h (some (w, ws)) = some (
  w,
  record q {
    ring = put_at idx (record h { waiting = ws; in_flight = true }) q.ring;
    next = (idx + 1) % length q.ring;
  },
)
waiter_turn q idx h none = best_turn q idx (take_best h)

-- The body of pop's loop. No place is past the end of the ring: it is a remainder by its length.
unfoldable pub host_turn : Admit → SchedQueues → ℕ → Option HostQueue → Popped
host_turn admit q idx none = none
host_turn admit q idx (some h) =
    if h.in_flight then none else waiter_turn q idx h (take_waiter (admit h.host) h.waiting)

unfoldable pub or_else : Popped → Popped → Popped
or_else none o = o
or_else (some r) o = some r

-- pop's loop from i, with so many rounds left.
unfoldable pub pop_from : Admit → SchedQueues → ℕ → ℕ → Popped
pop_from admit q i zero = none
pop_from admit q i (suc left) =
    let idx = (q.next + i) % length q.ring in
    or_else (host_turn admit q idx (elem_at idx q.ring)) (pop_from admit q (suc i) left)

unfoldable pub pop : SchedQueues → Admit → Popped
pop q admit = pop_from admit q 0 (length q.ring)
