-- ===== src/Observability/Ring/Tests.antt =====
-- Runs of a ring, and its theorem at concrete events.
use apt_cacher_ultra.Base.{ℕ, ◌≡◌, refl, true, none, some, List, [], ◌∷◌, arith, take}
use apt_cacher_ultra.Observability.Ring.{
  Ring, new_ring, blanks, record_event, record_all, store, advance, before, read, prepend,
  walk_back, snapshot, ring_len,
}
use apt_cacher_ultra.Observability.Ring.Walk.{newest_first}
use apt_cacher_ultra.Observability.Ring.Recent.{snapshot-record_all}

abbrev three : List ℕ
three = 7 ∷ 8 ∷ 9 ∷ []

-- Three events in a ring of two slots.
wrapped_run :
    record_all (new_ring 0 2) three
    ≡ some (record { buf = 9 ∷ 8 ∷ []; head = 1; full = true; cap = 2 })
unfolding record_all new_ring blanks record_event store advance
wrapped_run = refl

wrapped_snapshot :
    snapshot {A = ℕ} (record { buf = 9 ∷ 8 ∷ []; head = 1; full = true; cap = 2 })
    ≡ some (9 ∷ 8 ∷ [])
unfolding snapshot walk_back before read prepend ring_len
wrapped_snapshot = refl

no_capacity : new_ring {A = ℕ} 0 0 ≡ none
unfolding new_ring
no_capacity = refl

snapshot-record_all_example :
    (r : Ring ℕ) × (record_all (new_ring 0 2) three ≡ some r)
    × (snapshot r ≡ some (take 2 (newest_first three)))
snapshot-record_all_example = snapshot-record_all 0 2 three (omega arith)
