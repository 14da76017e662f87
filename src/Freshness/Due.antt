-- ===== src/Freshness/Due.antt =====
-- internal/freshness/scheduler.go: which suites a tick queues, and the counts behind its gauges. Time is
-- in nanoseconds since 1970, a stamp in seconds.
pub mod Bound
pub mod Stale
mod Tests
use apt_cacher_ultra.Base.{
  ℕ, ◌+◌, ◌-◌, ◌*◌, ◌/◌, max, Bool, true, false, not, ◌&&◌, ◌||◌, Option, none, some, List, [], ◌∷◌,
  length, take, ltb, leb, if◌then◌else◌, Bytes, bytes_eq, bytes_lt, codes,
}
use apt_cacher_ultra.Cache.Newest.{is_in}
use apt_cacher_ultra.Freshness.Retry.{retry_max_delay, backoff_delay}
use apt_cacher_ultra.Freshness.Queues.{
  SuiteRef, SuiteFreshness, SchedQueues, ref_key, has, enqueue, refresh_signed,
}

abbrev pub second : ℕ
second = 1_000_000_000

abbrev pub min_fast_tick_interval : ℕ
min_fast_tick_interval = 5 * second

unfoldable pub tick_interval : ℕ → ℕ
tick_interval refresh = max (refresh / 4) min_fast_tick_interval

-- clockStepTolerance, in seconds.
abbrev pub clock_step_tolerance : ℕ
clock_step_tolerance = 2

-- retryHorizon, in seconds.
abbrev pub retry_horizon : ℕ
retry_horizon = (retry_max_delay + retry_max_delay / 4) / second

abbrev pub interest_window : ℕ
interest_window = 7 * 24 * 3600 * second

abbrev pub refusal_reasons : List Bytes
refusal_reasons =
    codes "upstream_older"
    ∷ codes "rollback_refused"
    ∷ codes "unsigned_downgrade_refused"
    ∷ codes "unsigned_unconfirmed"
    ∷ codes "unsigned_too_large"
    ∷ codes "anchor_absent"
    ∷ codes "unsigned_disabled"
    ∷ []

unfoldable pub is_refusal_reason : Bytes → Bool
is_refusal_reason reason = is_in reason refusal_reasons

unfoldable pub record_paces_adopted : Bytes → Bool
record_paces_adopted reason =
    bytes_eq reason (codes "anchor_absent") || bytes_eq reason (codes "unsigned_disabled")

-- A stamp that is there and passes a test.
abbrev pub is_some_and {ℓ} : {A : Type ℓ} → (A → Bool) → Option A → Bool
is_some_and p none = false
is_some_and p (some a) = p a

-- What staleSuiteCounts makes of one suite that is stale: adopted, unadopted and absent.
pub record StaleCounts : Type 0 where
  pub adopted : ℕ
  pub unadopted : ℕ
  pub absent : ℕ

unfoldable pub is_counted_stale : ℕ → ℕ → SuiteFreshness → Bool
is_counted_stale stale_before now s =
    is_some_and (λ last. not (leb stale_before last && leb last (now + clock_step_tolerance)))
      s.last_success_at

unfoldable pub count_stale : SuiteFreshness → StaleCounts → StaleCounts
count_stale s c = elim s.current_snapshot_id [
  | none ↦ record c { unadopted = c.unadopted + 1 }
  | some id ↦
      if ltb 0 s.adoption_fail_count && is_some_and record_paces_adopted s.adoption_fail_reason
      then record c { adopted = c.adopted + 1; absent = c.absent + 1 }
      else record c { adopted = c.adopted + 1 }
]

unfoldable pub stale_suite_counts : List SuiteFreshness → ℕ → ℕ → StaleCounts
stale_suite_counts [] stale_before now = record { adopted = 0; unadopted = 0; absent = 0 }
stale_suite_counts (s ∷ suites) stale_before now =
    let rest = stale_suite_counts suites stale_before now in
    if is_counted_stale stale_before now s then count_stale s rest else rest

unfoldable pub is_failing_adoption : SuiteFreshness → Bool
is_failing_adoption s =
    ltb 0 s.adoption_fail_count
    && is_some_and (λ reason. not (is_refusal_reason reason)) s.adoption_fail_reason

unfoldable pub failing_adoption_count : List SuiteFreshness → ℕ
failing_adoption_count [] = 0
failing_adoption_count (s ∷ suites) =
    (if is_failing_adoption s then 1 else 0) + failing_adoption_count suites

-- What suiteDue reads of the Checker; the map absentAnswered is a test of its keys.
pub record Checker : Type 0 where
  pub has_adopter : Bool
  pub refresh : ℕ
  pub absent_answered : Bytes → Bool

-- The distance of two times.
unfoldable pub distance : ℕ → ℕ → ℕ
distance a b = if ltb a b then b - a else a - b

unfoldable pub interested : Option ℕ → ℕ → Bool × Bool
interested none now = (false, false)
interested (some last) now = (
  ltb (distance now (last * second)) interest_window,
  ltb (now + clock_step_tolerance * second) (last * second),
)

unfoldable pub has_change_pending : Checker → SuiteFreshness → Bool
has_change_pending c s =
    c.has_adopter
    && (is_some_and (λ t. true) s.in_release_change_seen_at && not (ltb 0 s.adoption_fail_count))

-- The suite waits for the retry time of its record.
unfoldable pub is_paced : Checker → SuiteFreshness → ℕ → Bool
is_paced c s now_u =
    c.has_adopter
    && (is_some_and (λ id. true) s.current_snapshot_id
        && (ltb 0 s.adoption_fail_count
            && (is_some_and (λ retry. ltb now_u retry && leb retry (now_u + retry_horizon))
                  s.adoption_next_retry_at
                && (is_some_and record_paces_adopted s.adoption_fail_reason
                    || c.absent_answered (ref_key s.suite)))))

-- `*s.LastSuccessAt <= now.Add(-c.refresh).Unix()`, which no stamp satisfies when refresh is longer than
-- the time since 1970.
unfoldable pub is_stale : Checker → SuiteFreshness → ℕ → Bool
is_stale c s now = elim s.last_success_at [
  | none ↦ true
  | some last ↦
      leb c.refresh now && leb last ((now - c.refresh) / second)
      || ltb (now / second + clock_step_tolerance) last
]

unfoldable pub is_retry_due : Checker → SuiteFreshness → ℕ → Bool
is_retry_due c s now_u =
    c.has_adopter
    && (ltb 0 s.adoption_fail_count
        && is_some_and (λ retry. leb retry now_u) s.adoption_next_retry_at)

unfoldable pub is_dormant : Checker → SuiteFreshness → ℕ → Bool
is_dormant c s now =
    c.has_adopter
    && (not (is_some_and (λ id. true) s.current_snapshot_id)
        && not (interested s.last_requested_at now).0)

unfoldable pub is_backing_off : SuiteFreshness → ℕ → Bool
is_backing_off s now_u =
    ltb 0 s.check_fail_count
    && is_some_and
        (λ last.
          leb last (now_u + clock_step_tolerance)
          && ltb now_u (last + backoff_delay s.check_fail_count / second))
        s.last_check_at

unfoldable pub suite_due : Checker → SuiteFreshness → ℕ → Bool
suite_due c s now =
    let now_u = now / second in
    if is_paced c s now_u
    then false
    else if not (is_stale c s now) && (not (is_retry_due c s now_u) && not (has_change_pending c s))
    then false
    else if is_dormant c s now
    then false
    else not (is_backing_off s now_u)

-- The suites that are due, sorted by key: sort.Slice, whose keys differ pairwise.
unfoldable pub due_suites : Checker → ℕ → List SuiteFreshness → List SuiteFreshness
due_suites c now [] = []
due_suites c now (s ∷ suites) =
    let rest = due_suites c now suites in if suite_due c s now then s ∷ rest else rest

unfoldable pub insert_due :
    (SuiteFreshness → SuiteFreshness → Bool)
    → SuiteFreshness
    → List SuiteFreshness
    → List SuiteFreshness
insert_due before s [] = s ∷ []
insert_due before s (t ∷ due) = if before t s then t ∷ insert_due before s due else s ∷ (t ∷ due)

-- A stable sort: an element goes behind none but those before it.
unfoldable pub sort_due :
    (SuiteFreshness → SuiteFreshness → Bool) → List SuiteFreshness → List SuiteFreshness
sort_due before [] = []
sort_due before (s ∷ due) = insert_due before s (sort_due before due)

unfoldable pub by_key : SuiteFreshness → SuiteFreshness → Bool
by_key a b = bytes_lt (ref_key a.suite) (ref_key b.suite)

-- lastCheck, with none for math.MinInt64.
unfoldable pub last_check : ℕ → SuiteFreshness → Option ℕ
last_check now s = elim s.last_check_at [
  | none ↦ none
  | some t ↦ if ltb (now + clock_step_tolerance) t then none else some t
]

unfoldable pub checked_before : Option ℕ → Option ℕ → Bool
checked_before none none = false
checked_before none (some t) = true
checked_before (some s) none = false
checked_before (some s) (some t) = ltb s t

unfoldable pub by_check : ℕ → SuiteFreshness → SuiteFreshness → Bool
by_check now a b = checked_before (last_check now a) (last_check now b)

unfoldable pub not_queued : SchedQueues → List SuiteFreshness → List SuiteFreshness
not_queued q [] = []
not_queued q (s ∷ due) =
    let rest = not_queued q due in if has q (ref_key s.suite) then rest else s ∷ rest

unfoldable pub keys_of : List SuiteFreshness → List Bytes
keys_of [] = []
keys_of (s ∷ due) = ref_key s.suite ∷ keys_of due

unfoldable pub admitted : List Bytes → List SuiteFreshness → List SuiteFreshness
admitted keys [] = []
admitted keys (s ∷ due) =
    let rest = admitted keys due in if is_in (ref_key s.suite) keys then s ∷ rest else rest

-- room is 0 here where the source's is not positive: then nothing fits, and an empty list is empty.
unfoldable pub bound_due : List SuiteFreshness → SchedQueues → ℕ → ℕ → List SuiteFreshness
bound_due due q max_suites now =
    let fresh = not_queued q due in
    let room = max_suites - length q.queued in
    if leb (length fresh) room
    then fresh
    else admitted (keys_of (take room (sort_due (by_check now) fresh))) fresh

unfoldable pub enqueue_all : Checker → SchedQueues → List SuiteFreshness → SchedQueues
enqueue_all c q [] = q
enqueue_all c q (s ∷ due) = enqueue_all c (enqueue q s (has_change_pending c s)).0 due

-- tick, on the rows that the database lists; signed are the keys of the suites with a signed snapshot. The
-- gauges and the warning are left out.
unfoldable pub tick :
    Checker → SchedQueues → List SuiteFreshness → (Bytes → Bool) → ℕ → ℕ → SchedQueues
tick c q suites signed max_suites now =
    let refreshed = refresh_signed q signed in
    let due = sort_due by_key (due_suites c now suites) in
    enqueue_all c refreshed
      (if ltb 0 max_suites then bound_due due refreshed max_suites (now / second) else due)
