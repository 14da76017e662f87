-- ===== src/Freshness/Queues/Tests.antt =====
-- The queues at concrete suites.
use apt_cacher_ultra.Base.{
  ℕ, ◌+◌, ◌%◌, ◌≤◌, ◌<◌, ◌≡◌, refl, true, false, none, some, [], ◌∷◌, length, codes, bytes_eq,
  elem_at, drop, count_if, put_at, drop_at,
}
use apt_cacher_ultra.Cache.Newest.{is_in}
use apt_cacher_ultra.Freshness.Queues.{
  SuiteRef, SuiteFreshness, SchedItem, HostQueue, SchedQueues, CheckReport, Admit, new_sched_queues,
  suite_key, ref_key, enqueue, pop, with_gen, finish, has, take_waiter, prune, class_of, new_item,
  find_from, push_at, push_item, insert_key, host_turn, waiter_turn, take_best, best_of, best_turn,
  pop_from, or_else, delete_key, is_idle, is_nil, park, park_at, insert_waiter, is_queued_result,
}
use apt_cacher_ultra.Freshness.Queues.Tally.{ring_sum, one_if}
use apt_cacher_ultra.Freshness.Queues.Hosts.{is_running, used_hosts}
use apt_cacher_ultra.Freshness.Queues.Kept.{has_key, any_item, flies_on, keyed}
use apt_cacher_ultra.Freshness.Queues.Ready.{is_ready}
use apt_cacher_ultra.Freshness.Queues.Waiters.{may_go}
use apt_cacher_ultra.Freshness.Queues.Runs.{
  Reach, starts, enqueues, pops, finishes, suite-has, one_check,
}
use apt_cacher_ultra.Freshness.Queues.Rounds.{place_of, pop_round}
use apt_cacher_ultra.Freshness.Queues.Order.{oldest_offered}
use apt_cacher_ultra.Freshness.Queues.Prunes.{prune_turn}

abbrev noble : SuiteRef
noble = record {
  canonical_scheme = codes "https";
  canonical_host = codes "a.org";
  suite_path = codes "/noble";
}

abbrev jammy : SuiteRef
jammy = record {
  canonical_scheme = codes "https";
  canonical_host = codes "b.org";
  suite_path = codes "/jammy";
}

abbrev never : SuiteRef → SuiteFreshness
never r = record {
  suite = r;
  last_check_at = none;
  last_success_at = none;
  in_release_change_seen_at = none;
  current_snapshot_id = none;
  last_requested_at = none;
  check_fail_count = 0;
  adoption_fail_reason = none;
  adoption_fail_count = 0;
  adoption_next_retry_at = none;
}

abbrev always : Admit
always host signed = true

abbrev two_queued : SchedQueues
two_queued = (enqueue (enqueue new_sched_queues (never noble) false).0 (never jammy) true).0

two_queued-Reach : Reach two_queued []
two_queued-Reach =
    enqueues (enqueue new_sched_queues (never noble) false).0 [] (never jammy) true
      (enqueues new_sched_queues [] (never noble) false starts)

suite-has_example :
    ring_sum (has_key (ref_key noble)) two_queued.ring + count_if (keyed (ref_key noble)) []
    ≡ one_if (has two_queued (ref_key noble))
suite-has_example = suite-has two_queued [] (ref_key noble) two_queued-Reach

abbrev noble_item : SchedItem
noble_item = record (new_item (never noble) false) { gen = 5 }

abbrev noble_flies : SchedQueues
noble_flies = record two_queued {
  ring =
      put_at 0
        (record {
          host = codes "a.org";
          healthy = [];
          never_checked = [];
          failing = [];
          waiting = [];
          in_flight = true;
        })
        two_queued.ring;
  next = 1;
}

noble_popped : pop two_queued always ≡ some (new_item (never noble) false, noble_flies)
unfolding pop pop_from or_else host_turn waiter_turn take_waiter best_turn take_best best_of
    delete_key is_in enqueue push_at find_from push_item put_at elem_at class_of insert_key bytes_eq
    ref_key suite_key
noble_popped = refl

noble_flies-Reach : Reach noble_flies (noble_item ∷ [])
unfolding with_gen
noble_flies-Reach =
    pops two_queued noble_flies [] always (new_item (never noble) false) 5 noble_popped
      two_queued-Reach

one_check_example :
    (count_if (flies_on (codes "a.org")) (noble_item ∷ []) ≤ 1)
    × (count_if (flies_on (codes "a.org")) (noble_item ∷ [])
        ≡ count_if (is_running (codes "a.org")) noble_flies.ring)
    × (ring_sum any_item noble_flies.ring + length (noble_item ∷ []) ≡ length noble_flies.queued)
one_check_example = one_check noble_flies (noble_item ∷ []) (codes "a.org") noble_flies-Reach

pop_round_example :
    (i : ℕ) × (h : HostQueue) × (i < length two_queued.ring)
    × (elem_at (place_of two_queued i) two_queued.ring ≡ some h)
    × (is_ready always h ≡ true)
    × (host_turn always two_queued (place_of two_queued i) (some h)
        ≡ some (new_item (never noble) false, noble_flies))
    × (noble_flies.next ≡ (place_of two_queued i + 1) % length two_queued.ring)
    × ((j : ℕ) (g : HostQueue)
        → j < i
        → elem_at (place_of two_queued j) two_queued.ring ≡ some g
        → is_ready always g ≡ false)
pop_round_example =
    pop_round two_queued noble_flies always (new_item (never noble) false) noble_popped

-- The check found no slot: the suite waits, and is offered again.
abbrev no_slot : CheckReport
no_slot = record { result = codes "first_adoption_queued"; signed_current = false }

abbrev noble_waits : SchedQueues
noble_waits = finish noble_flies noble_item no_slot 5

noble_waits-Reach : Reach noble_waits []
unfolding elem_at drop_at
noble_waits-Reach =
    finishes noble_flies (noble_item ∷ []) 0 noble_item no_slot 5 refl noble_flies-Reach

abbrev waiting_noble : SchedItem
waiting_noble = record noble_item { waiting = true; wait_seq = 1 }

abbrev waiting_host : HostQueue
waiting_host = record {
  host = codes "a.org";
  healthy = [];
  never_checked = [];
  failing = [];
  waiting = waiting_noble ∷ [];
  in_flight = false;
}

noble_at_0 : elem_at 0 noble_waits.ring ≡ some waiting_host
unfolding finish is_queued_result park park_at find_from bytes_eq put_at elem_at insert_waiter
    enqueue push_at is_in insert_key ref_key suite_key push_item class_of
noble_at_0 = refl

offered : take_waiter (λ signed. true) waiting_host.waiting ≡ some (waiting_noble, [])
unfolding take_waiter
offered = refl

oldest_offered_example :
    (may_go (λ signed. true) waiting_noble ≡ true)
    × ((j : ℕ) (v : SchedItem)
        → elem_at j (waiting_noble ∷ []) ≡ some v
        → may_go (λ signed. true) v ≡ true
        → 1 ≤ v.wait_seq)
oldest_offered_example =
    oldest_offered noble_waits [] 0 waiting_host (λ signed. true) waiting_noble [] noble_waits-Reach
      noble_at_0 offered

abbrev emptied : SchedQueues
emptied = record two_queued {
  next = 0;
  ring =
      record {
        host = codes "a.org";
        healthy = [];
        never_checked = [];
        failing = [];
        waiting = [];
        in_flight = false;
      }
      ∷ noble_flies.ring;
}

prune_turn_example :
    elem_at (prune emptied).next (prune emptied).ring
    ≡ some (record {
      host = codes "a.org";
      healthy = [];
      never_checked = [];
      failing = [];
      waiting = [];
      in_flight = true;
    })
unfolding used_hosts put_at enqueue is_in insert_key bytes_eq ref_key suite_key push_at find_from
    push_item class_of is_idle is_nil
prune_turn_example =
    prune_turn emptied (drop 1 noble_flies.ring)
      (record {
        host = codes "a.org";
        healthy = [];
        never_checked = [];
        failing = [];
        waiting = [];
        in_flight = true;
      })
      refl
