-- ===== src/Freshness/Due/Stale.antt =====
-- A suite that is stale is due within an hour of its last check, however often its checks failed.
use apt_cacher_ultra.Base.{
  ℕ, zero, suc, ◌+◌, ◌/◌, ◌≤◌, ◌≡◌, refl, inl, inr, true, false, ◌&&◌, ltb, arith, Bool-cases,
  Option-cases, List, [], ◌∷◌, count_if,
}
use apt_cacher_ultra.Freshness.Queues.{SuiteFreshness}
use apt_cacher_ultra.Freshness.Retry.{backoff_delay}
use apt_cacher_ultra.Freshness.Retry.Delays.{backoff_delay-doubled}
use apt_cacher_ultra.Freshness.Due.{
  Checker, is_some_and, is_paced, is_stale, is_dormant, is_backing_off, suite_due, second,
  record_paces_adopted, StaleCounts, is_counted_stale, count_stale, stale_suite_counts,
}

backoff_bound : (n : ℕ) → backoff_delay n / second ≤ 3600
backoff_bound zero = unfold backoff_delay in omega arith
backoff_bound (suc n) = ground (arith, backoff_delay-doubled n)

-- An hour behind the last check no suite is in back-off.
hour_past :
    (s : SuiteFreshness) (now_u : ℕ)
    → is_some_and (λ last. ltb now_u (last + 3600)) s.last_check_at ≡ false
    → is_backing_off s now_u ≡ false
unfolding is_backing_off
hour_past s now_u h = elim (Option-cases s.last_check_at) [
  | inl e ↦ rw e (ground arith)
  | inr (t, e) ↦ rw e (ground (arith, backoff_bound s.check_fail_count, rw e at h))
]

-- A suite that is stale by is_stale, is not paced by the retry time of a record and is not dormant is due
-- when its last check, if there was one, is at least an hour ago, however often its checks have failed.
pub stale_due :
    (c : Checker) (s : SuiteFreshness) (now : ℕ)
    → is_stale c s now ≡ true
    → is_paced c s (now / second) ≡ false
    → is_dormant c s now ≡ false
    → is_some_and (λ last. ltb (now / second) (last + 3600)) s.last_check_at ≡ false
    → suite_due c s now ≡ true
unfolding suite_due
stale_due c s now stale free awake past =
    rw (free, stale, awake, hour_past s (now / second) past) refl

count_stale-total :
    (s : SuiteFreshness) (c : StaleCounts)
    → c.absent ≤ c.adopted
    → ((count_stale s c).adopted + (count_stale s c).unadopted ≡ c.adopted + c.unadopted + 1)
      × ((count_stale s c).absent ≤ (count_stale s c).adopted)
unfolding count_stale
count_stale-total s c h = elim (Option-cases s.current_snapshot_id) [
  | inl e ↦ rw e (omega arith, h)
  | inr (i, e) ↦
      rw e
        (elim (Bool-cases (
          ltb 0 s.adoption_fail_count && is_some_and record_paces_adopted s.adoption_fail_reason)) [
            | inl a ↦ rw a (omega arith, omega (arith, h))
            | inr a ↦ rw a (omega arith, omega (arith, h))
          ])
]

-- Of the suites that are stale, each is counted once: as adopted or as unadopted, and those counted as
-- absent are among the adopted.
pub stale_counts_total :
    (suites : List SuiteFreshness) (stale_before now : ℕ)
    → ((stale_suite_counts suites stale_before now).adopted
          + (stale_suite_counts suites stale_before now).unadopted
        ≡ count_if (is_counted_stale stale_before now) suites)
      × ((stale_suite_counts suites stale_before now).absent
          ≤ (stale_suite_counts suites stale_before now).adopted)
unfolding stale_suite_counts count_if
stale_counts_total [] stale_before now = (refl, omega arith)
stale_counts_total (s ∷ suites) stale_before now =
    let rest = stale_counts_total suites stale_before now in
    let counted = count_stale-total s (stale_suite_counts suites stale_before now) rest.1 in
    elim (Bool-cases (is_counted_stale stale_before now s)) [
      | inl a ↦ rw a (omega (arith, counted.0, rest.0), counted.1)
      | inr a ↦ rw a (omega (arith, rest.0), rest.1)
    ]
