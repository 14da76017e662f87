-- ===== src/Freshness/Run/Counts.antt =====
-- The workers and the offers that Run counts, in whatever order its loop and the pool take their steps.
use apt_cacher_ultra.Base.{
  ℕ, zero, suc, ◌+◌, ◌≤◌, ◌≡◌, refl, sym, ap, ◌∙◌, ◌⊎◌, inl, inr, Bool, true, Option, none, some,
  List, [], ◌∷◌, ltb, arith, ◌/◌, if◌then◌else◌, subst, Bool-cases, Option-cases, Bytes, elem_at,
  count_if, count_if-drop_at, length, length-drop_at,
}
use apt_cacher_ultra.Freshness.Admission.{generation}
use apt_cacher_ultra.Freshness.Queues.{
  SuiteFreshness, SchedItem, SchedQueues, CheckReport, pop, with_gen, unhold, enqueue,
  refresh_signed,
}
use apt_cacher_ultra.Freshness.Queues.Runs.{
  one_check, Reach, starts, enqueues, pops, finishes, unholds, refreshes,
}
use apt_cacher_ultra.Freshness.Queues.Kept.{flies_on, any_item}
use apt_cacher_ultra.Freshness.Run.Classes.{is_offer}
use apt_cacher_ultra.Freshness.Queues.Tally.{ring_sum}
use apt_cacher_ultra.Freshness.Due.{
  Checker, has_change_pending, due_suites, sort_due, by_key, bound_due, enqueue_all, tick, second,
}
use apt_cacher_ultra.Freshness.Run.{
  Loop, new_loop, check_workers, admits, hand_out, dispatch, dispatch_from, tick_rows, on_tick,
  on_freed, on_done_at, on_done, PoolMove, move_pool,
}

-- What the loop and the pool go through: the steps of the loop in any order, which are those of Run and
-- more, and the calls of the pool between them.
pub data RunReach (global : ℕ) : Loop → Type 0 where
  run_starts : RunReach global (new_loop global)
  dispatches : (l : Loop) → RunReach global l → RunReach global (dispatch l)
  ticks :
      (l : Loop) (c : Checker) (rows : Option (List SuiteFreshness)) (signed : Bytes → Bool)
      (max_suites now : ℕ)
      → RunReach global l
      → RunReach global (on_tick l c rows signed max_suites now)
  wakes : (l : Loop) → RunReach global l → RunReach global (on_freed l)
  dones :
      (l : Loop) (t : ℕ) (report : CheckReport)
      → RunReach global l
      → RunReach global (on_done l t report)
  pool_moves :
      (l : Loop) (m : PoolMove)
      → RunReach global l
      → RunReach global (record l { pool = move_pool m l.pool })

-- The books of Run, and its queues are those of the scheduler's operations.
pub record IsCounted (l : Loop) : Type 0 where
  pub workers : l.idle + length l.flying ≡ check_workers
  pub offered : count_if is_offer l.flying ≡ l.offers
  pub reached : Reach l.queues l.flying

enqueue_all-Reach :
    (c : Checker) (q : SchedQueues) (flying : List SchedItem) (due : List SuiteFreshness)
    → Reach q flying
    → Reach (enqueue_all c q due) flying
unfolding enqueue_all
enqueue_all-Reach c q flying [] r = r
enqueue_all-Reach c q flying (s ∷ due) r =
    enqueue_all-Reach c (enqueue q s (has_change_pending c s)).0 flying due
      (enqueues q flying s (has_change_pending c s) r)

tick-Reach :
    (c : Checker) (q : SchedQueues) (flying : List SchedItem) (suites : List SuiteFreshness)
    (signed : Bytes → Bool) (max_suites now : ℕ)
    → Reach q flying
    → Reach (tick c q suites signed max_suites now) flying
unfolding tick
tick-Reach c q flying suites signed max_suites now r =
    let refreshed = refresh_signed q signed in
    let due = sort_due by_key (due_suites c now suites) in
    enqueue_all-Reach c refreshed flying
      (if ltb 0 max_suites then bound_due due refreshed max_suites (now / second) else due)
      (refreshes q flying signed r)

tick_rows-Reach :
    (c : Checker) (q : SchedQueues) (flying : List SchedItem) (rows : Option (List SuiteFreshness))
    (signed : Bytes → Bool) (max_suites now : ℕ)
    → Reach q flying
    → Reach (tick_rows c q rows signed max_suites now) flying
unfolding tick_rows
tick_rows-Reach c q flying none signed max_suites now r = r
tick_rows-Reach c q flying (some suites) signed max_suites now r =
    tick-Reach c q flying suites signed max_suites now r

dispatch-IsCounted : (l : Loop) → IsCounted l → IsCounted (dispatch l)
unfolding dispatch hand_out with_gen count_if
dispatch-IsCounted l k = elim (Bool-cases (ltb 0 l.idle)) [
  | inr a ↦ rw a k
  | inl a ↦ elim (Option-cases (pop l.queues (admits l))) [
    | inl e ↦ rw (a, e) k
    | inr ((x, r), e) ↦
        rw (a, e)
          (record {
            workers = ground (arith, a, k.workers);
            offered = ground (arith, k.offered);
            reached = pops l.queues r l.flying (admits l) x (generation l.pool) e k.reached;
          })
  ]
]

on_done-IsCounted :
    (l : Loop) (t : ℕ) (report : CheckReport) → IsCounted l → IsCounted (on_done l t report)
unfolding on_done on_done_at
on_done-IsCounted l t report k = elim (Option-cases (elem_at t l.flying)) [
  | inl e ↦ rw e k
  | inr (x, e) ↦ rw e (record {
    workers = omega (arith, k.workers, length-drop_at t l.flying x e);
    offered = ground (arith, k.offered, count_if-drop_at is_offer t l.flying x e);
    reached = finishes l.queues l.flying t x report (generation l.pool) e k.reached;
  })
]

pub RunReach-IsCounted : (global : ℕ) (l : Loop) → RunReach global l → IsCounted l
unfolding count_if on_tick on_freed
RunReach-IsCounted global _ run_starts = record { workers = refl; offered = refl; reached = starts }
RunReach-IsCounted global _ (dispatches l r) = dispatch-IsCounted l (RunReach-IsCounted global l r)
RunReach-IsCounted global _ (ticks l c rows signed max_suites now r) =
    let k = RunReach-IsCounted global l r in
    record {
      workers = k.workers;
      offered = k.offered;
      reached =
          tick_rows-Reach c (unhold l.queues) l.flying rows signed max_suites now
            (unholds l.queues l.flying k.reached);
    }
RunReach-IsCounted global _ (wakes l r) =
    let k = RunReach-IsCounted global l r in
    record {
      workers = k.workers;
      offered = k.offered;
      reached = unholds l.queues l.flying k.reached;
    }
RunReach-IsCounted global _ (dones l t report r) =
    on_done-IsCounted l t report (RunReach-IsCounted global l r)
RunReach-IsCounted global _ (pool_moves l m r) =
    let k = RunReach-IsCounted global l r in
    record { workers = k.workers; offered = k.offered; reached = k.reached }

-- In whatever order the loop of Run and the calls of the pool take their steps, the idle workers and
-- those with a check are check_workers together, `offers` is the number of the checks in flight that
-- offer a slot to a waiting suite, no host has two checks, and the suites queued, waiting or in flight
-- are as many as the keys of `queued`.
pub run_counts :
    (global : ℕ) (l : Loop) (host : Bytes)
    → RunReach global l
    → (l.idle + length l.flying ≡ check_workers)
      × (l.offers ≡ count_if is_offer l.flying)
      × (count_if (flies_on host) l.flying ≤ 1)
      × (ring_sum any_item l.queues.ring + length l.flying ≡ length l.queues.queued)
run_counts global l host r =
    let k = RunReach-IsCounted global l r in
    let (alone, same, total) = one_check l.queues l.flying host k.reached in
    (k.workers, sym k.offered, alone, total)

-- No worker is idle, or there is nothing to pop.
abbrev pub IsStopped : Loop → Type 0
IsStopped l = (l.idle ≡ 0) ⊎ (pop l.queues (admits l) ≡ none)

stopped-dispatch : (l : Loop) → IsStopped l → dispatch l ≡ l
unfolding dispatch hand_out
stopped-dispatch l (inl e) = rw e refl
stopped-dispatch l (inr e) = elim (Bool-cases (ltb 0 l.idle)) [
  | inl a ↦ rw (a, e) refl
  | inr a ↦ rw a refl
]

stopped-dispatch_from : (n : ℕ) (l : Loop) → IsStopped l → dispatch_from n l ≡ l
unfolding dispatch_from
stopped-dispatch_from zero l s = refl
stopped-dispatch_from (suc n) l s =
    ap (dispatch_from n) (stopped-dispatch l s) ∙ stopped-dispatch_from n l s

dispatched :
    (l : Loop) (x : SchedItem) (q : SchedQueues)
    → ltb 0 l.idle ≡ true
    → pop l.queues (admits l) ≡ some (x, q)
    → dispatch l ≡ hand_out l (some (x, q))
unfolding dispatch
dispatched l x q a e = rw (a, e) refl

-- The pop loop ends: after as many passes as there are idle workers, no worker is idle or there is
-- nothing to pop, and further passes change nothing.
pub dispatch_from-ends :
    (n m : ℕ) (l : Loop)
    → l.idle ≤ n
    → IsStopped (dispatch_from n l) × (dispatch_from m (dispatch_from n l) ≡ dispatch_from n l)
unfolding dispatch_from hand_out
dispatch_from-ends n m l h =
    let s = stops n l h in (s, stopped-dispatch_from m (dispatch_from n l) s)
  where
    sent_idle :
        (l : Loop) (n : ℕ) (x : SchedItem) (q : SchedQueues)
        → ltb 0 l.idle ≡ true
        → l.idle ≤ suc n
        → (hand_out l (some (x, q))).idle ≤ n
    sent_idle l n x q a h = ground (arith, a, h)

    stops : (n : ℕ) (l : Loop) → l.idle ≤ n → IsStopped (dispatch_from n l)
    stops zero l h = inl (omega (arith, h))
    stops (suc n) l h = elim (Bool-cases (ltb 0 l.idle)) [
      | inr a ↦
          let none_idle : IsStopped l = inl (ground (arith, a)) in
          subst IsStopped (sym (stopped-dispatch_from (suc n) l none_idle)) none_idle
      | inl a ↦ elim (Option-cases (pop l.queues (admits l))) [
        | inl e ↦ subst IsStopped (sym (stopped-dispatch_from (suc n) l (inr e))) (inr e)
        | inr ((x, q), e) ↦
            let step = dispatched l x q a e in
            subst (λ k. IsStopped (dispatch_from n k)) (sym step)
              (stops n (hand_out l (some (x, q))) (sent_idle l n x q a h))
      ]
    ]
