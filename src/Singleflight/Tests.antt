-- ===== src/Singleflight/Tests.antt =====
-- A run of a group, and its theorems at it. A result is a number here, 0 that of a panic.
use apt_cacher_ultra.Base.{
  ℕ, ◌+◌, ◌≤◌, ◌≡◌, ◌⊎◌, refl, true, false, some, [], ◌∷◌, Bytes, codes, bytes_eq, elem_at, put_at,
  count_if,
}
use apt_cacher_ultra.Singleflight.{
  Doer, Group, new_group, start, start_at, finish, crash, remove, wake, move, move_at, move_phase,
  complete, delete_key, wake_with, waiting, leading, returned, panicked,
}
use apt_cacher_ultra.Singleflight.Kept.{is_running}
use apt_cacher_ultra.Singleflight.Runs.{Reach, begins, starts, moves}
use apt_cacher_ultra.Singleflight.Results.{one_result}
use apt_cacher_ultra.Singleflight.Ends.{steps_left, next_move, Steps, calls_end}
use apt_cacher_ultra.Singleflight.Shared.{runs_key, one_run, waiting_served}

abbrev key : Bytes
key = codes "http/deb.debian.org/a.deb"

-- Two calls for one key.
abbrev shared : Group ℕ
shared = start (start (new_group 0) key) key

shared-Reach : Reach 0 shared
shared-Reach = starts (start (new_group 0) key) key (starts (new_group 0) key begins)

abbrev waiter : Doer ℕ
waiter = record { key = key; call = 0; phase = waiting }

shared_run : shared.doers ≡ record { key = key; call = 0; phase = leading } ∷ waiter ∷ []
unfolding start start_at bytes_eq
shared_run = refl

-- A third call joins between the end of fn and the delete, and gets the same result.
late_run :
    (move wake (move wake (move remove (start (move (finish 7) shared 0) key) 0) 1) 2).doers
    ≡ record { key = key; call = 0; phase = returned 7 false 2 }
      ∷ record { key = key; call = 0; phase = returned 7 true 0 }
      ∷ record { key = key; call = 0; phase = returned 7 true 0 }
      ∷ []
unfolding start start_at move move_at move_phase complete delete_key wake_with elem_at put_at
    bytes_eq
late_run = refl

-- The waiter of a leader that panics.
panic_run :
    (move wake (move remove (move crash shared 0) 0) 1).doers
    ≡ record { key = key; call = 0; phase = panicked }
      ∷ record { key = key; call = 0; phase = returned 0 true 0 }
      ∷ []
unfolding start start_at move move_at move_phase complete delete_key wake_with elem_at put_at
    bytes_eq
panic_run = refl

one_run_example : count_if (runs_key key) shared.doers ≤ 1
one_run_example = one_run 0 shared shared-Reach key

waiting_served_example :
    ((r : ℕ) × (elem_at 1 (move wake shared 1).doers
        ≡ some (record waiter { phase = returned r true 0 })))
    ⊎ ((u : ℕ) × (d : Doer ℕ) × (elem_at u shared.doers ≡ some d)
        × (is_running d.phase ≡ true)
        × (d.key ≡ key)
        × (d.call ≡ 0))
unfolding start start_at elem_at bytes_eq
waiting_served_example = waiting_served 0 shared 1 waiter shared-Reach refl refl

-- The leader and the waiter, both returned.
abbrev both_returned : Group ℕ
both_returned = move wake (move remove (move (finish 7) shared 0) 0) 1

both_returned-Reach : Reach 0 both_returned
both_returned-Reach =
    moves wake (move remove (move (finish 7) shared 0) 0) 1
      (moves remove (move (finish 7) shared 0) 0 (moves (finish 7) shared 0 shared-Reach))

one_result_example : ◌≡◌ {A = ℕ} 7 7
unfolding start start_at move move_at move_phase complete delete_key wake_with elem_at put_at
    bytes_eq
one_result_example =
    one_result 0 both_returned 0 1 (record { key = key; call = 0; phase = returned 7 false 1 })
      (record { key = key; call = 0; phase = returned 7 true 0 }) 7 7 both_returned-Reach refl refl
      refl refl refl

-- A leader and a waiter have three steps left.
calls_end_example :
    ((h : Group ℕ) (n : ℕ) → Steps shared n h → n + steps_left h ≡ steps_left shared)
    × ((r : ℕ)
        → 1 ≤ steps_left shared
        → (t : ℕ) × (c : Doer ℕ) × (elem_at t shared.doers ≡ some c)
          × (steps_left (move (next_move r c.phase) shared t) + 1 ≡ steps_left shared))
calls_end_example = calls_end 0 shared shared-Reach
