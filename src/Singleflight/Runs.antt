-- ===== src/Singleflight/Runs.antt =====
-- A group in whatever order calls of Do start and move.
use apt_cacher_ultra.Base.{
  ℕ, ◌≡◌, refl, ap, inl, inr, false, some, arith, Option-cases, Bytes, elem_at, count_if,
}
use apt_cacher_ultra.Singleflight.{
  Phase, leading, crashed, waiting, panicked, finished, returned, Doer, Group, new_group, start,
  Move, finish, crash, remove, wake, move_phase, move_at, move,
}
use apt_cacher_ultra.Singleflight.Kept.{is_running, is_closing, is_leader, IsKept}
use apt_cacher_ultra.Singleflight.Steps.{complete-IsKept, delete_key-IsKept, wake_with-IsKept}
use apt_cacher_ultra.Singleflight.Starts.{start-IsKept}

move_phase-IsKept :
    {A : Type 0} (m : Move A) (p : Phase A) (g : Group A) (t : ℕ) (c : Doer A)
    → c.phase ≡ p
    → elem_at t g.doers ≡ some c
    → IsKept g
    → IsKept (move_phase m p g t c)
unfolding move_phase
move_phase-IsKept (finish r) leading g t c w e k =
    complete-IsKept g t c k e r (finished r) w refl refl refl
move_phase-IsKept crash leading g t c w e k =
    complete-IsKept g t c k e g.panic_result crashed w refl refl refl
move_phase-IsKept remove (finished r) g t c w e k =
    delete_key-IsKept g t c k e (returned r false (g.waiters c.call)) (ap is_closing w)
      (ap is_leader w) (ap is_running w) refl refl refl refl
move_phase-IsKept remove crashed g t c w e k =
    delete_key-IsKept g t c k e panicked (ap is_closing w) (ap is_leader w) (ap is_running w) refl
      refl refl refl
move_phase-IsKept wake waiting g t c w e k = wake_with-IsKept g t c k e (g.res c.call) w
move_phase-IsKept (finish r) _ g t c w e k = k
move_phase-IsKept crash _ g t c w e k = k
move_phase-IsKept remove _ g t c w e k = k
move_phase-IsKept wake _ g t c w e k = k

move-IsKept : {A : Type 0} (m : Move A) (g : Group A) (t : ℕ) → IsKept g → IsKept (move m g t)
unfolding move move_at
move-IsKept m g t k = elim (Option-cases (elem_at t g.doers)) [
  | inl e ↦ rw e k
  | inr (c, e) ↦ rw e (move_phase-IsKept m c.phase g t c refl e k)
]

-- What a group goes through: calls of Do start, and those that have started move, in any order.
pub data Reach {A : Type 0} (p : A) : Group A → Type 0 where
  begins : Reach p (new_group p)
  starts : (g : Group A) (key : Bytes) → Reach p g → Reach p (start g key)
  moves : (m : Move A) (g : Group A) (t : ℕ) → Reach p g → Reach p (move m g t)

pub Reach-IsKept : {A : Type 0} (p : A) (g : Group A) → Reach p g → IsKept g
unfolding count_if elem_at
Reach-IsKept p _ begins = record {
  one = λ h. refl;
  found = λ u d e l. cc e;
  once = λ i. omega arith;
  closed = λ u d e l. cc e;
  joined = λ u d e l n. cc e;
  fresh = λ i h. (refl, refl);
}
Reach-IsKept p _ (starts g key r) = start-IsKept g key (Reach-IsKept p g r)
Reach-IsKept p _ (moves m g t r) = move-IsKept m g t (Reach-IsKept p g r)
