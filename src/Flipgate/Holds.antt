-- ===== src/Flipgate/Holds.antt =====
-- The hold token: startHoldLocked, endHoldLocked, acquire, expireHold and Close.
use apt_cacher_ultra.Base.{
  ℕ, suc, ◌+◌, Bool, true, false, not, ◌&&◌, Option, none, some, List, [], ◌∷◌, ◌++◌, ltb, ◌==◌,
  if◌then◌else◌,
}
use apt_cacher_ultra.Flipgate.State.{Gate, update}
use apt_cacher_ultra.Flipgate.Quiet.{is_some, is_entry}

-- The new hold is the one at the old `next_hold`.
unfoldable pub start_hold : Gate → ℕ → ℕ → Gate
start_hold g e now = record g {
  holder = some g.next_hold;
  entry_at = update g.entry_at e (record (g.entry_at e) { hold = some g.next_hold });
  hold_at = update g.hold_at g.next_hold (record {
    entry = e;
    start = now;
    end_time = 0;
    waiting = 0;
    held_total = 0;
    ended = false;
    expired = false;
  });
  next_hold = suc g.next_hold;
  stats = record (g.stats) { holds = g.stats.holds + 1 };
}

-- The hold's own fields and its entry's.
unfoldable pub mark_ended : Gate → ℕ → Bool → ℕ → Gate
mark_ended g h expired now =
    let hold = g.hold_at h in
    let e = g.entry_at hold.entry in
    record g {
      hold_at =
          update g.hold_at h (record hold { ended = true; expired = expired; end_time = now });
      stats =
          if expired
          then record (g.stats) { holds_expired = g.stats.holds_expired + 1 }
          else g.stats;
      entry_at =
          update g.entry_at hold.entry
            (record e { hold = if is_entry e.hold h then none else e.hold; last_use = now });
    }

-- lastEnd, lastEndBy and prevEnd, if the hold held requests.
unfoldable pub record_end : Gate → ℕ → ℕ → ℕ → Gate
record_end g e held_total now =
    if ltb 0 held_total
    then record g {
      prev_end = if is_entry g.last_end_by e then g.prev_end else g.last_end;
      last_end = now;
      last_end_by = some e;
    }
    else g

-- The next waiting flip's hold starts, unless the gate is closed.
unfoldable pub grant_next : Gate → List ℕ → ℕ → Gate
grant_next g [] now = g
grant_next g (w ∷ ws) now =
    if g.closed
    then g
    else let g' = start_hold (record g { queue = ws }) (g.waiter_at w).entry now in
      record g' {
        waiter_at = update g'.waiter_at w (record (g'.waiter_at w) { hold = some g.next_hold });
      }

-- The token leaves the hold, if it has it.
unfoldable pub pass_token : Gate → ℕ → ℕ → Gate
pass_token g h now =
    if is_entry g.holder h then grant_next (record g { holder = none }) g.queue now else g

-- The new state, and whether this call ended the hold.
unfoldable pub end_hold : Gate → ℕ → Bool → ℕ → Gate × Bool
end_hold g h expired now =
    let hold = g.hold_at h in
    if hold.ended then (g, false) else (
      pass_token (record_end (mark_ended g h expired now) hold.entry hold.held_total now) h now,
      true,
    )

-- expireHold.
unfoldable pub expire_hold : Gate → ℕ → ℕ → Gate × Bool
expire_hold g h now = end_hold g h true now

unfoldable pub close : Gate → ℕ → Gate
close g now =
    if not (ltb 0 g.quiet)
    then g
    else if g.closed
    then g
    else let closed = record g { closed = true } in
      elim g.holder [ none ↦ closed | some h ↦ (end_hold closed h false now).0 ]

-- The first critical section of acquire.
pub data Asked : Type 0 where
  refused_closed : Asked
  granted : ℕ → Asked
  queued : ℕ → Asked

unfoldable pub no_waiter : List ℕ → Bool
no_waiter [] = true
no_waiter (w ∷ ws) = false

unfoldable pub ask : Gate → ℕ → ℕ → Gate × Asked
ask g e now =
    if g.closed
    then (g, refused_closed)
    else if not (is_some g.holder) && no_waiter g.queue
    then (start_hold g e now, granted g.next_hold)
    else (
      record g {
        queue = g.queue ++ (g.next_waiter ∷ []);
        waiter_at = update g.waiter_at g.next_waiter (record { entry = e; hold = none });
        next_waiter = suc g.next_waiter;
      },
      queued g.next_waiter,
    )

-- Why a waiting flip stops waiting, when its token was not granted first.
pub data Cause : Type 0 where
  timed_out ctx_ended gate_closed : Cause

unfoldable pub is_timeout : Cause → Bool
is_timeout timed_out = true
is_timeout ctx_ended = false
is_timeout gate_closed = false

unfoldable pub remove : ℕ → List ℕ → List ℕ
remove w [] = []
remove w (q ∷ qs) = if q == w then qs else q ∷ remove w qs

-- The last critical section of acquire: a hold that was granted as the flip gave up is taken on a
-- timeout, and passed straight on otherwise. `none` is acquire's nil hold.
unfoldable pub give_up : Gate → ℕ → Cause → ℕ → Gate × Option ℕ
give_up g w cause now = elim (g.waiter_at w).hold [
  | some h ↦ if is_timeout cause then (g, some h) else ((end_hold g h false now).0, none)
  | none ↦ (record g { queue = remove w g.queue }, none)
]
