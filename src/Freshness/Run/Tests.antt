-- ===== src/Freshness/Run/Tests.antt =====
-- A run of the loop: a suite is checked, finds no slot, and is offered one.
use apt_cacher_ultra.Base.{
  ◌+◌, ◌≤◌, ◌≡◌, refl, true, false, none, some, [], ◌∷◌, arith, codes, length, elem_at, drop_at,
  put_at, count_if, bytes_eq,
}
use apt_cacher_ultra.Cache.Newest.{is_in}
use apt_cacher_ultra.Freshness.Admission.{try_acquire, free_for, generation, has}
use apt_cacher_ultra.Freshness.Admission.Slots.{is_some}
use apt_cacher_ultra.Freshness.Queues.{
  SuiteFreshness, SchedItem, HostQueue, new_sched_queues, SchedQueues, new_item, ref_key, suite_key,
  pop, pop_from, or_else, host_turn, waiter_turn, take_waiter, best_turn, take_best, best_of,
  delete_key, enqueue, push_at, find_from, push_item, class_of, insert_key, finish,
  is_queued_result, park, park_at, insert_waiter, unhold, refresh_signed, each_waiter, each_item,
  with_gen,
}
use apt_cacher_ultra.Freshness.Queues.Kept.{flies_on, any_item}
use apt_cacher_ultra.Freshness.Queues.Tally.{ring_sum}
use apt_cacher_ultra.Freshness.Due.{
  Checker, tick, due_suites, sort_due, insert_due, enqueue_all, suite_due, is_paced, is_stale,
  is_retry_due, is_dormant, is_backing_off, has_change_pending,
}
use apt_cacher_ultra.Freshness.Run.{
  Loop, new_loop, check_workers, admits, hand_out, dispatch, dispatch_from, tick_rows, on_tick,
  on_done, on_done_at,
}
use apt_cacher_ultra.Freshness.Run.Classes.{is_offer}
use apt_cacher_ultra.Freshness.Run.Counts.{
  RunReach, run_starts, dispatches, ticks, dones, run_counts, IsStopped, dispatch_from-ends,
}
use apt_cacher_ultra.Freshness.Queues.Ready.{offers}
use apt_cacher_ultra.Freshness.Run.Offers.{after_offers, offer_succeeds}

abbrev checker : Checker
checker = record { has_adopter = false; refresh = 3600; absent_answered = λ key. false }

abbrev noble : SuiteFreshness
noble = record {
  suite = record {
    canonical_scheme = codes "https";
    canonical_host = codes "a.org";
    suite_path = codes "/noble";
  };
  last_check_at = none;
  last_success_at = none;
  in_release_change_seen_at = none;
  current_snapshot_id = none;
  last_requested_at = none;
  check_fail_count = 0;
  adoption_fail_reason = none;
  adoption_fail_count = 0;
  adoption_next_retry_at = none;
}

abbrev ticked : Loop
ticked = on_tick (new_loop 2) checker (some (noble ∷ [])) (λ key. false) 0 0

abbrev parked : Loop
parked =
    on_done (dispatch ticked) 0
      (record { result = codes "first_adoption_queued"; signed_current = false })

parked-RunReach : RunReach 2 parked
parked-RunReach =
    dones (dispatch ticked) 0
      (record { result = codes "first_adoption_queued"; signed_current = false })
      (dispatches ticked
        (ticks (new_loop 2) checker (some (noble ∷ [])) (λ key. false) 0 0 run_starts))

abbrev waiter : SchedItem
waiter = record (new_item noble false) { waiting = true; wait_seq = 1 }

abbrev offered : SchedQueues
offered = record {
  ring =
      record {
        host = codes "a.org";
        healthy = [];
        never_checked = [];
        failing = [];
        waiting = [];
        in_flight = true;
      }
      ∷ [];
  next = 0;
  queued = ref_key noble.suite ∷ [];
  pending = [];
  wait_seq = 1;
}

offer_popped : pop parked.queues (admits parked) ≡ some (waiter, offered)
unfolding pop pop_from or_else host_turn waiter_turn take_waiter best_turn take_best best_of
    delete_key enqueue push_at find_from push_item class_of insert_key finish is_queued_result park
    park_at insert_waiter unhold refresh_signed each_waiter each_item with_gen on_tick on_done
    on_done_at tick_rows dispatch hand_out elem_at drop_at put_at free_for generation has tick
    due_suites sort_due insert_due enqueue_all suite_due is_paced is_stale is_retry_due is_dormant
    is_backing_off has_change_pending is_in bytes_eq ref_key suite_key
offer_popped = refl

run_counts_example :
    (parked.idle + length parked.flying ≡ check_workers)
    × (parked.offers ≡ count_if is_offer parked.flying)
    × (count_if (flies_on (codes "a.org")) parked.flying ≤ 1)
    × (ring_sum any_item parked.queues.ring + length parked.flying ≡ length parked.queues.queued)
run_counts_example = run_counts 2 parked (codes "a.org") parked-RunReach

dispatch_from-ends_example :
    IsStopped (dispatch_from 4 ticked)
    × (dispatch_from 1 (dispatch_from 4 ticked) ≡ dispatch_from 4 ticked)
unfolding on_tick
dispatch_from-ends_example = dispatch_from-ends 4 1 ticked (omega arith)

offer_succeeds_example :
    is_some
      (try_acquire (after_offers (λ y. false) parked.flying parked.pool) (codes "a.org") false).1
    ≡ true
offer_succeeds_example =
    offer_succeeds 2 parked waiter offered (λ y. false) parked-RunReach offer_popped refl

-- A suite of a host behind the first.
abbrev jammy : SuiteFreshness
jammy = record noble { suite = record noble.suite { canonical_host = codes "b.org" } }

abbrev two_hosts : SchedQueues
two_hosts = (enqueue (enqueue new_sched_queues noble false).0 jammy false).0

abbrev second_host : HostQueue
second_host = record {
  host = codes "b.org";
  healthy = [];
  never_checked = new_item jammy false ∷ [];
  failing = [];
  waiting = [];
  in_flight = false;
}
