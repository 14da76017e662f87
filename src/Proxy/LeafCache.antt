-- ===== src/Proxy/LeafCache.antt =====
-- internal/proxy/tlsmitm/leafcache.go: the cache of leaf certificates. The linked list between its two
-- sentinels is a list, the entry used last first, and the map has the same entries. Each function is one
-- section under the mutex; a certificate is of any type, with the end of its validity if it has a leaf.
pub mod Kept
pub mod Runs
mod Tests
use apt_cacher_ultra.Base.{
  ℕ, Bool, true, false, not, Option, none, some, List, [], ◌∷◌, length, ltb, leb, if◌then◌else◌,
  Bytes, bytes_eq,
}

pub record Entry (C : Type 0) : Type 0 where
  pub host : Bytes
  pub cert : C
  pub inserted_at : ℕ

pub record Cache (C : Type 0) : Type 0 where
  pub capacity : ℕ
  pub items : List (Entry C)

-- NewCache, with a GenFunc that is not nil.
unfoldable pub new_cache : {C : Type 0} → ℕ → Option (Cache C)
new_cache capacity =
    if ltb capacity 1 then none else some (record { capacity = capacity; items = [] })

unfoldable pub find_entry : {C : Type 0} → Bytes → List (Entry C) → Option (Entry C)
find_entry host [] = none
find_entry host (e ∷ es) =
    let rest = find_entry host es in if bytes_eq e.host host then some e else rest

-- unlinkLocked and the delete of the map's entry.
unfoldable pub unlink : {C : Type 0} → Bytes → List (Entry C) → List (Entry C)
unlink host [] = []
unlink host (e ∷ es) = let rest = unlink host es in if bytes_eq e.host host then es else e ∷ rest

unfoldable pub touch : {C : Type 0} → Cache C → Entry C → Cache C
touch c e = record c { items = e ∷ unlink e.host c.items }

unfoldable pub is_past : Option ℕ → ℕ → Bool
is_past none now = true
is_past (some not_after) now = ltb not_after now

unfoldable pub is_expired : {C : Type 0} → (C → Option ℕ) → Entry C → ℕ → Bool
is_expired not_after e now = is_past (not_after e.cert) now

-- Get's fast path: a certificate that is still good, or the entry is evicted if it is there.
unfoldable pub look_up_at :
    {C : Type 0} → (C → Option ℕ) → Cache C → Option (Entry C) → ℕ → Cache C × Option C
look_up_at not_after c none now = (c, none)
look_up_at not_after c (some e) now =
    if not (is_expired not_after e now)
    then (touch c e, some e.cert)
    else (record c { items = unlink e.host c.items }, none)

unfoldable pub look_up : {C : Type 0} → (C → Option ℕ) → Cache C → Bytes → ℕ → Cache C × Option C
look_up not_after c host now = look_up_at not_after c (find_entry host c.items) now

-- The second look, of the one call that generates.
unfoldable pub look_again_at :
    {C : Type 0} → (C → Option ℕ) → Cache C → Option (Entry C) → ℕ → Cache C × Option C
look_again_at not_after c none now = (c, none)
look_again_at not_after c (some e) now =
    if not (is_expired not_after e now) then (touch c e, some e.cert) else (c, none)

unfoldable pub look_again : {C : Type 0} → (C → Option ℕ) → Cache C → Bytes → ℕ → Cache C × Option C
look_again not_after c host now = look_again_at not_after c (find_entry host c.items) now

-- The list without the victim, which is the entry used least recently.
unfoldable pub drop_last : {C : Type 0} → List (Entry C) → List (Entry C)
drop_last [] = []
drop_last (e ∷ []) = []
drop_last (e ∷ f ∷ es) = e ∷ drop_last (f ∷ es)

unfoldable pub insert : {C : Type 0} → Cache C → Bytes → C → ℕ → Cache C
insert c host cert now =
    let others = unlink host c.items in
    let kept = if leb c.capacity (length others) then drop_last others else others in
    record c { items = record { host = host; cert = cert; inserted_at = now } ∷ kept }

-- What a miss does with what the GenFunc gives; an error is not cached.
unfoldable pub generated : {C : Type 0} → Cache C → Bytes → Option C → ℕ → Cache C × Option C
generated c host none now = (c, none)
generated c host (some cert) now = (insert c host cert now, some cert)

unfoldable pub generate :
    {C : Type 0} → (Bytes → Option C) → Bytes → ℕ → Cache C × Option C → Cache C × Option C
generate gen host now (c, some cert) = (c, some cert)
generate gen host now (c, none) = generated c host (gen host) now

unfoldable pub miss :
    {C : Type 0}
    → (C → Option ℕ)
    → (Bytes → Option C)
    → Bytes
    → ℕ
    → Cache C × Option C
    → Cache C × Option C
miss not_after gen host now (c, some cert) = (c, some cert)
miss not_after gen host now (c, none) = generate gen host now (look_again not_after c host now)

-- Get, with no other call in between and one reading of the clock.
unfoldable pub get :
    {C : Type 0} → (C → Option ℕ) → (Bytes → Option C) → Cache C → Bytes → ℕ → Cache C × Option C
get not_after gen c [] now = (c, none)
get not_after gen c (b ∷ host) now =
    miss not_after gen (b ∷ host) now (look_up not_after c (b ∷ host) now)
