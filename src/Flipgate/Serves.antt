-- ===== src/Flipgate/Serves.antt =====
-- The handler's side: entries and their sweep, AnchorStart, Done and Purge.
use apt_cacher_ultra.Base.{
  ℕ, suc, ◌+◌, ◌-◌, ◌*◌, Bool, true, false, not, ◌&&◌, ◌||◌, Option, none, some, List, [], ◌∷◌, ltb,
  leb, ◌==◌, if◌then◌else◌, Bytes, bytes_eq,
}
use apt_cacher_ultra.Flipgate.State.{Serve, Gate, update, new_entry, anchor_timeout, max_waiters}
use apt_cacher_ultra.Flipgate.Quiet.{is_some, is_live}

-- `g.entries[key]`.
unfoldable pub find : Bytes → List (Bytes × ℕ) → Option ℕ
find key [] = none
find key ((k, e) ∷ m) = if bytes_eq k key then some e else find key m

-- `delete(g.entries, key)`.
unfoldable pub delete : Bytes → List (Bytes × ℕ) → List (Bytes × ℕ)
delete key [] = []
delete key ((k, e) ∷ m) = if bytes_eq k key then delete key m else (k, e) ∷ delete key m

-- The loop of sweepLocked over the map.
unfoldable pub sweep_entries : Gate → ℕ → List (Bytes × ℕ) → List (Bytes × ℕ)
sweep_entries g now [] = []
sweep_entries g now ((k, i) ∷ m) =
    let e = g.entry_at i in
    if not (is_live e now g.quiet) && leb (2 * g.quiet) (now - e.last_use)
    then sweep_entries g now m
    else (k, i) ∷ sweep_entries g now m

unfoldable pub sweep : Gate → ℕ → Gate
sweep g now =
    if ltb (now - g.last_sweep) g.quiet
    then g
    else record g { last_sweep = now; entries = sweep_entries g now g.entries }

unfoldable pub use_entry : Gate → ℕ → ℕ → Gate
use_entry g e now = record g {
  entry_at = update g.entry_at e (record (g.entry_at e) { last_use = now });
}

-- entryLocked: the entry of a key, made if there is none.
unfoldable pub entry : Gate → Bytes → ℕ → Gate × ℕ
entry g0 key now =
    let g = sweep g0 now in
    elim (find key g.entries) [
      | some e ↦ (use_entry g e now, e)
      | none ↦ (
        use_entry
            (record g {
              entries = (key, g.next_entry) ∷ g.entries;
              entry_at = update g.entry_at g.next_entry new_entry;
              next_entry = suc g.next_entry;
            })
            g.next_entry now,
        g.next_entry,
      )
    ]

-- registerLocked, with the time that the request was held.
unfoldable pub register : Gate → ℕ → ℕ → ℕ → Gate × ℕ
register g e held now = (
  record g {
    token_at =
        update g.token_at g.next_token
          (record { entry = e; start = now; held = held; done = false });
    entry_at = update g.entry_at e (record (g.entry_at e) {
      inflight = record { token = g.next_token; start = now } ∷ (g.entry_at e).inflight;
      last_use = now;
    });
    next_token = suc g.next_token;
  },
  g.next_token,
)

-- What join gives: a token at once, or a hold to wait in.
pub data Joined : Type 0 where
  serves : ℕ → Joined
  waits : ℕ → ℕ → Joined

unfoldable pub join_hold : Gate → ℕ → ℕ → Gate
join_hold g e h = record g {
  hold_at = update g.hold_at h (record (g.hold_at h) {
    waiting = (g.hold_at h).waiting + 1;
    held_total = (g.hold_at h).held_total + 1;
  });
  stats = record (g.stats) { held_requests = g.stats.held_requests + 1 };
}

unfoldable pub serve_now : Gate → ℕ → ℕ → Gate × Joined
serve_now g e now = ((register g e 0 now).0, serves (register g e 0 now).1)

unfoldable pub join_entry : Gate → ℕ → ℕ → Gate × Joined
join_entry g e now = elim (g.entry_at e).hold [
  | none ↦ serve_now g e now
  | some h ↦
      if leb max_waiters (g.hold_at h).waiting
      then serve_now g e now
      else (join_hold g e h, waits e h)
]

unfoldable pub join : Gate → Bytes → ℕ → Gate × Joined
join g key now = let (g', e) = entry g key now in join_entry g' e now

-- AnchorStart behind the wait: `none` is a token that is not registered.
unfoldable pub anchor_released : Gate → ℕ → ℕ → Bool → ℕ → ℕ → Gate × Option ℕ
anchor_released g e h left joined now =
    let g' = record g {
      hold_at = update g.hold_at h (record (g.hold_at h) { waiting = (g.hold_at h).waiting - 1 });
    } in
    if left
    then (g', none)
    else ((register g' e (now - joined) now).0, some (register g' e (now - joined) now).1)

unfoldable pub drop_serve : ℕ → List Serve → List Serve
drop_serve t [] = []
drop_serve t (s ∷ ss) = if s.token == t then drop_serve t ss else s ∷ drop_serve t ss

unfoldable pub done : Gate → ℕ → ℕ → Gate
done g t now =
    let token = g.token_at t in
    if token.done
    then g
    else let e = g.entry_at token.entry in
      let late = leb anchor_timeout (now - token.start) in
      record g {
        token_at = update g.token_at t (record token { done = true });
        entry_at = update g.entry_at token.entry (record e {
          inflight = drop_serve t e.inflight;
          last_use = now;
          last_done =
              if (not late || not (is_some e.hold)) && ltb e.last_done now
              then now
              else e.last_done;
        });
      }

-- The new state, and whether the entry was dropped.
unfoldable pub purge : Gate → Bytes → ℕ → Gate × Bool
purge g key now = elim (find key g.entries) [
  | none ↦ (g, false)
  | some e ↦
      if is_live (g.entry_at e) now g.quiet
      then (g, false)
      else (record g { entries = delete key g.entries }, true)
]
