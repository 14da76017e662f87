-- ===== src/Flipgate/Quiet.antt =====
-- The conditions that a flip waits for, and when it looks again: 0 means at the next change.
use apt_cacher_ultra.Base.{
  ℕ, ◌+◌, ◌-◌, Bool, true, false, not, ◌&&◌, ◌||◌, Option, none, some, List, [], ◌∷◌, ltb, ◌==◌,
  if◌then◌else◌,
}
use apt_cacher_ultra.Flipgate.State.{Serve, Entry, Gate, anchor_timeout}

-- The loop over the serves in flight: the newest start that is younger than the timeout.
unfoldable pub youngest : ℕ → ℕ → List Serve → ℕ
youngest now found [] = found
youngest now found (t ∷ ts) =
    youngest now
      (if ltb (now - t.start) anchor_timeout && ltb found t.start then t.start else found) ts

unfoldable pub local_quiet : Gate → Entry → ℕ → Bool × ℕ
local_quiet g e now =
    let newest = youngest now 0 e.inflight in
    if not (newest == 0)
    then (false, newest + anchor_timeout)
    else if not (e.last_done == 0) && ltb (now - e.last_done) g.quiet
    then (false, e.last_done + g.quiet)
    else (true, 0)

unfoldable pub is_some : Option ℕ → Bool
is_some none = false
is_some (some n) = true

unfoldable pub holds_quiet : Gate → ℕ → Bool × ℕ
holds_quiet g now =
    if is_some g.holder
    then (false, 0)
    else if not (g.last_end == 0) && ltb (now - g.last_end) g.quiet
    then (false, g.last_end + g.quiet)
    else (true, 0)

-- `p == e` of a pointer that may be nil.
unfoldable pub is_entry : Option ℕ → ℕ → Bool
is_entry none e = false
is_entry (some i) e = i == e

-- The newest end of a hold that held requests, by an entry other than `e`.
unfoldable pub other_end : Gate → ℕ → ℕ
other_end g e = if is_entry g.last_end_by e then g.prev_end else g.last_end

unfoldable pub other_holds_quiet : Gate → ℕ → ℕ → Bool × ℕ
other_holds_quiet g e now =
    let end_time = other_end g e in
    if not (end_time == 0) && ltb (now - end_time) g.quiet
    then (false, end_time + g.quiet)
    else (true, 0)

unfoldable pub earliest : ℕ → ℕ → ℕ
earliest a b = if a == 0 then b else if b == 0 || ltb a b then a else b

unfoldable pub no_serve : List Serve → Bool
no_serve [] = true
no_serve (t ∷ ts) = false

-- liveLocked.
unfoldable pub is_live : Entry → ℕ → ℕ → Bool
is_live e now quiet =
    ltb 0 e.flips || is_some e.hold || not (no_serve e.inflight) || ltb (now - e.last_use) quiet
