-- ===== src/Flipgate/Flip.antt =====
-- Flip and runHold: what each pass of their wait loops decides, and how a flip ends.
use apt_cacher_ultra.Base.{
  ℕ, ◌+◌, ◌-◌, Bool, true, false, not, ◌&&◌, ◌||◌, Option, none, some, ltb, if◌then◌else◌, Bytes,
  length,
}
use apt_cacher_ultra.Flipgate.State.{
  Token, Stats, Gate, enabled, update, hold_max, commit_margin, phase_a_max,
}
use apt_cacher_ultra.Flipgate.Quiet.{local_quiet, holds_quiet, other_holds_quiet, earliest}
use apt_cacher_ultra.Flipgate.Serves.{entry}

pub data Outcome : Type 0 where
  disabled held hold_expired hold_skipped aborted quiet_cut_short : Outcome

-- Flip's start: the entry counts the flip.
unfoldable pub begin_flip : Gate → Bytes → ℕ → Gate × ℕ
begin_flip g key now =
    let (g', e) = entry g key now in
    (
      record g' {
        entry_at =
            update g'.entry_at e (record (g'.entry_at e) { flips = (g'.entry_at e).flips + 1 });
        stats = record (g'.stats) { flips = g'.stats.flips + 1 };
      },
      e,
    )

-- Flip's deferred end.
unfoldable pub end_flip : Gate → ℕ → ℕ → Gate
end_flip g e now = record g {
  entry_at =
      update g.entry_at e
        (record (g.entry_at e) { flips = (g.entry_at e).flips - 1; last_use = now });
}

-- One pass of phase A.
pub data PhaseA : Type 0 where
  stops_closed : PhaseA
  proceeds : PhaseA
  waits_until : ℕ → PhaseA

-- When waitFor's timer fires.
unfoldable pub wake_at : ℕ → ℕ → ℕ → ℕ
wake_at a b limit = earliest (earliest a b) limit

unfoldable pub phase_a : Gate → ℕ → ℕ → ℕ → PhaseA
phase_a g e start now =
    let limit = start + phase_a_max in
    let own = local_quiet g (g.entry_at e) now in
    let holds = holds_quiet g now in
    if g.closed
    then stops_closed
    else if (own.0 && holds.0) || not (ltb now limit)
    then proceeds
    else waits_until (wake_at own.1 holds.1 limit)

-- One pass of runHold's loop; `commits true` cuts the suite's quiet short.
pub data PhaseB : Type 0 where
  aborts_closed : PhaseB
  expires : PhaseB
  commits : Bool → PhaseB
  waits_until : ℕ → PhaseB

unfoldable pub phase_b : Gate → ℕ → ℕ → ℕ → PhaseB
phase_b g e h now =
    let expiry = (g.hold_at h).start + hold_max in
    let cut = expiry - commit_margin in
    let own = local_quiet g (g.entry_at e) now in
    let others = other_holds_quiet g e now in
    let limit = if ltb now cut then cut else expiry in
    if g.closed
    then aborts_closed
    else if not (ltb now expiry)
    then expires
    else if others.0 && (own.0 || not (ltb now cut))
    then commits (not own.0)
    else waits_until (wake_at own.1 others.1 limit)

-- The outcome that runHold's deferred end reports, from the one set before the commit.
unfoldable pub settle : Outcome → Bool → Outcome
settle held true = hold_expired
settle quiet_cut_short true = hold_expired
settle o expired = o

-- runHold from its loop's decision on: stopErr's answer, the outcome set, and whether commit ran.
unfoldable pub hold_outcome : PhaseB → Bool → Option (Outcome × Bool)
hold_outcome aborts_closed stopped = some (aborted, false)
hold_outcome expires stopped = if stopped then some (aborted, false) else some (hold_expired, true)
hold_outcome (commits cut_short) stopped =
    if stopped
    then some (aborted, false)
    else some (if cut_short then quiet_cut_short else held, true)
hold_outcome (waits_until t) stopped = none

-- stopErr: whether the commit must not start.
unfoldable pub stops : Gate → Bool → Bool
stops g ctx_ended = g.closed || ctx_ended

-- abort's counter.
unfoldable pub abort : Gate → Gate
abort g = record g { stats = record (g.stats) { aborted = g.stats.aborted + 1 } }

-- Flip's counter of a flip that got no token.
unfoldable pub skip_hold : Gate → Gate
skip_hold g = record g { stats = record (g.stats) { holds_skipped = g.stats.holds_skipped + 1 } }

-- runHold's counter of a commit before the suite was quiet.
unfoldable pub count_cut_short : Gate → Gate
count_cut_short g = record g {
  stats = record (g.stats) { quiet_cut_short = g.stats.quiet_cut_short + 1 };
}

-- Closed.
unfoldable pub is_closed : Gate → Bool
is_closed g = if enabled g then g.closed else false

-- Len.
unfoldable pub tracked : Gate → ℕ
tracked g = length g.entries

-- Held, Quiet and Stats, of a token and a gate that are there.
unfoldable pub held_of : Token → ℕ
held_of t = t.held

unfoldable pub quiet_of : Gate → ℕ
quiet_of g = g.quiet

unfoldable pub stats_of : Gate → Stats
stats_of g = g.stats

-- Flip before phase A: the outcome and whether commit ran, if it ends there.
unfoldable pub flip_ends_early : Gate → Bool → Option (Outcome × Bool)
flip_ends_early g ctx_ended =
    if ctx_ended
    then some (aborted, false)
    else if not (enabled g)
    then some (disabled, true)
    else none

-- Flip behind acquire, when there was no error: a flip that got no token commits unheld.
unfoldable pub flip_unheld : Option ℕ → Bool → Option (Outcome × Bool)
flip_unheld (some h) stopped = none
flip_unheld none stopped = some (if stopped then (aborted, false) else (hold_skipped, true))
