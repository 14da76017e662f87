-- ===== src/Freshness/Run.antt =====
-- internal/freshness/scheduler.go: the loop of Run, on the queues and on the pool of admission. The
-- items that the workers have are a list, whose places a `done` names; the pool is that of all checks,
-- whose calls come between the steps of the loop. A worker's check itself is a report that comes back.
pub mod Classes
pub mod Counts
pub mod Offers
pub mod Fair
mod Tests
use apt_cacher_ultra.Base.{
  ℕ, zero, suc, ◌+◌, ◌-◌, Bool, true, false, Option, none, some, List, [], ◌∷◌, ltb, if◌then◌else◌,
  Bytes, elem_at, drop_at,
}
use apt_cacher_ultra.Freshness.Admission.{
  Admission, new_admission, try_acquire, free_for, release_host, release, generation,
}
use apt_cacher_ultra.Freshness.Queues.{
  SuiteFreshness, SchedItem, SchedQueues, CheckReport, Admit, Popped, new_sched_queues, pop,
  with_gen, finish, unhold,
}
use apt_cacher_ultra.Freshness.Due.{Checker, tick}

abbrev pub check_workers : ℕ
check_workers = 4

-- The variables of Run.
pub record Loop : Type 0 where
  pub queues : SchedQueues
  pub idle : ℕ
  pub offers : ℕ
  pub flying : List SchedItem
  pub pool : Admission

abbrev pub new_loop : ℕ → Loop
new_loop global = record {
  queues = new_sched_queues;
  idle = check_workers;
  offers = 0;
  flying = [];
  pool = new_admission global;
}

-- `admit`.
abbrev pub admits : Loop → Admit
admits l host signed = ltb l.offers (free_for l.pool host signed)

abbrev pub one_offer : SchedItem → ℕ
one_offer x = if x.waiting then 1 else 0

-- What is done with what pop returned: the item goes to a worker.
unfoldable pub hand_out : Loop → Popped → Loop
hand_out l none = l
hand_out l (some (x, r)) = record l {
  queues = r;
  idle = l.idle - 1;
  offers = l.offers + one_offer x;
  flying = with_gen x (generation l.pool) ∷ l.flying;
}

-- One pass of the pop loop, and the loop, of at most so many passes.
unfoldable pub dispatch : Loop → Loop
dispatch l = if ltb 0 l.idle then hand_out l (pop l.queues (admits l)) else l

unfoldable pub dispatch_from : ℕ → Loop → Loop
dispatch_from zero l = l
dispatch_from (suc n) l = dispatch_from n (dispatch l)

-- The three cases of select. The tick's rows are none when they cannot be listed, and signed has the
-- keys of the suites with a signed snapshot.
unfoldable pub tick_rows :
    Checker → SchedQueues → Option (List SuiteFreshness) → (Bytes → Bool) → ℕ → ℕ → SchedQueues
tick_rows c q none signed max_suites now = q
tick_rows c q (some suites) signed max_suites now = tick c q suites signed max_suites now

unfoldable pub on_tick :
    Loop → Checker → Option (List SuiteFreshness) → (Bytes → Bool) → ℕ → ℕ → Loop
on_tick l c rows signed max_suites now = record l {
  queues = tick_rows c (unhold l.queues) rows signed max_suites now;
}

unfoldable pub on_freed : Loop → Loop
on_freed l = record l { queues = unhold l.queues; pool = record l.pool { freed = false } }

unfoldable pub on_done_at : Loop → ℕ → CheckReport → Option SchedItem → Loop
on_done_at l t report none = l
on_done_at l t report (some x) = record l {
  idle = l.idle + 1;
  offers = l.offers - one_offer x;
  queues = finish l.queues x report (generation l.pool);
  flying = drop_at t l.flying;
}

unfoldable pub on_done : Loop → ℕ → CheckReport → Loop
on_done l t report = on_done_at l t report (elem_at t l.flying)

-- What goroutines outside the loop do to the pool.
pub data PoolMove : Type 0 where
  acquires : Bytes → Bool → PoolMove
  frees_host frees : Option ℕ → PoolMove

unfoldable pub move_pool : PoolMove → Admission → Admission
move_pool (acquires host signed) a = (try_acquire a host signed).0
move_pool (frees_host lease) a = release_host a lease
move_pool (frees lease) a = release a lease
