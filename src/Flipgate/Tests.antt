-- ===== src/Flipgate/Tests.antt =====
-- The gate's theorems at a concrete gate: one serve in flight, one hold running, one flip waiting.
use apt_cacher_ultra.Base.{◌*◌, ◌<◌, ◌≡◌, refl, Bool, true, false, [], arith}
use apt_cacher_ultra.Flipgate.State.{Gate, new, second, empty_gate}
use apt_cacher_ultra.Flipgate.Quiet.{
  is_some, other_end, is_entry, youngest, local_quiet, other_holds_quiet,
}
use apt_cacher_ultra.Flipgate.Serves.{
  register, join, entry, use_entry, sweep, sweep_entries, find, join_entry, serve_now,
}
use apt_cacher_ultra.Flipgate.Times.{TimedReach, opens_at, joins_at, asks_at}
use apt_cacher_ultra.Flipgate.Holds.{start_hold, ask, end_hold, no_waiter}
use apt_cacher_ultra.Flipgate.Flip.{phase_b, commits}
use apt_cacher_ultra.Flipgate.Decisions.{phase_b_commits_by_cut, phase_b_commits_sound}
use apt_cacher_ultra.Flipgate.Ends.{Remembers, after_end, end_hold-Remembers}
use apt_cacher_ultra.Flipgate.Token.{IsSingle}
use apt_cacher_ultra.Flipgate.Runs.{opens, asks, hold_ends, Reach-IsSingle}

-- Entry 0 has a serve in flight since 1 s, and holds since 2 s.
abbrev running : Gate
unfolding register start_hold
running = start_hold (register (empty_gate (10 * second)) 0 0 second).0 0 (2 * second)

-- A hold of entry 0 since 2 s, at a gate that a request has joined at 1 s.
abbrev held : Gate
held = (ask (join (empty_gate (10 * second)) [] second).0 0 (2 * second)).0

held-TimedReach : TimedReach (2 * second) held
unfolding new
held-TimedReach =
    asks_at second (2 * second) (join (empty_gate (10 * second)) [] second).0 0 (omega arith) (
      joins_at 0 second (empty_gate (10 * second)) [] (omega arith)
        (opens_at (10 * second) 0 (empty_gate (10 * second)) refl))

phase_b_commits_by_cut_example :
    (cut_short : Bool) × (phase_b held 0 0 (17 * second) ≡ commits cut_short)
unfolding ask start_hold join entry use_entry sweep sweep_entries find join_entry serve_now register
    is_some no_waiter
phase_b_commits_by_cut_example =
    phase_b_commits_by_cut (2 * second) held 0 0 (17 * second) held-TimedReach refl refl
      (omega arith) (omega arith)

phase_b_commits_sound_example : (17 * second) < (22 * second)
unfolding phase_b local_quiet youngest other_holds_quiet other_end is_entry register start_hold
phase_b_commits_sound_example = (phase_b_commits_sound running 0 0 (17 * second) true refl).1

end_hold-Remembers_example :
    Remembers (end_hold running 0 false (4 * second)).0 (after_end 0 0 (4 * second) [])
unfolding register start_hold
end_hold-Remembers_example = end_hold-Remembers running 0 false (4 * second) [] (refl, refl, refl)

-- A flip of entry 1 waits for the hold of entry 0.
abbrev waiting : Gate
unfolding ask register start_hold
waiting = (ask running 1 (3 * second)).0

abbrev opened : Gate
opened = empty_gate (10 * second)

Reach-IsSingle_example :
    IsSingle (end_hold (ask (ask opened 0 second).0 1 (2 * second)).0 0 false (3 * second)).0
unfolding new
Reach-IsSingle_example =
    Reach-IsSingle (end_hold (ask (ask opened 0 second).0 1 (2 * second)).0 0 false (3 * second)).0
      (hold_ends (ask (ask opened 0 second).0 1 (2 * second)).0 0 false (3 * second) (
        asks (ask opened 0 second).0 1 (2 * second)
          (asks opened 0 second (opens (10 * second) opened refl))))
