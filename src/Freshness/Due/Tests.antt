-- ===== src/Freshness/Due/Tests.antt =====
-- Which suites are due, at concrete ones.
use apt_cacher_ultra.Base.{
  ℕ, ◌*◌, ◌≤◌, true, false, none, some, [], ◌∷◌, length, max, arith, codes, Bytes, count_if,
}
use apt_cacher_ultra.Freshness.Queues.{SuiteFreshness, new_sched_queues}
use apt_cacher_ultra.Freshness.Due.{Checker, second, tick}
use apt_cacher_ultra.Freshness.Due.Bound.{AreDistinct, tick-length}

abbrev checker : Checker
checker = record { has_adopter = true; refresh = 3600 * second; absent_answered = λ key. false }

-- Its last success was two hours ago, and its checks have failed nine times since.
abbrev failing_suite : SuiteFreshness
failing_suite = record {
  suite = record {
    canonical_scheme = codes "http";
    canonical_host = codes "a.org";
    suite_path = codes "/x";
  };
  last_check_at = some 5000;
  last_success_at = some 2800;
  in_release_change_seen_at = none;
  current_snapshot_id = some 3;
  last_requested_at = none;
  check_fail_count = 9;
  adoption_fail_reason = none;
  adoption_fail_count = 0;
  adoption_next_retry_at = none;
}

abbrev now : ℕ
now = 10000 * second

one_row : AreDistinct (failing_suite ∷ [])
unfolding count_if
one_row k = ground arith

tick-length_example :
    length (tick checker new_sched_queues (failing_suite ∷ []) (λ key. true) 1 now).queued
    ≤ max 1 (length {A = Bytes} [])
tick-length_example =
    tick-length checker new_sched_queues (failing_suite ∷ []) (λ key. true) 1 now (omega arith)
      one_row
