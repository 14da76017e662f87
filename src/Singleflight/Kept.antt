-- ===== src/Singleflight/Kept.antt =====
-- The books of a group: the map against the calls of Do.
use apt_cacher_ultra.Base.{
  ℕ, ◌+◌, ◌≤◌, ◌≡◌, Bool, true, false, ◌&&◌, Option, none, some, List, ◌==◌, if◌then◌else◌, arith,
  Bytes, bytes_eq, elem_at, put_at, count_if, count_if-put_at,
}
use apt_cacher_ultra.Singleflight.{
  Phase, leading, crashed, waiting, panicked, finished, returned, Doer, Group,
}

abbrev pub has_value {ℓ} : {B : Type ℓ} → Option B → Bool
has_value none = false
has_value (some b) = true

module _ {A : Type 0} where
  abbrev pub is_running : Phase A → Bool
  is_running leading = true
  is_running crashed = false
  is_running waiting = false
  is_running panicked = false
  is_running (finished r) = false
  is_running (returned r s n) = false

  -- Behind wg.Done, before the delete.
  abbrev pub is_closing : Phase A → Bool
  is_closing leading = false
  is_closing crashed = true
  is_closing waiting = false
  is_closing panicked = false
  is_closing (finished r) = true
  is_closing (returned r s n) = false

  abbrev pub is_waiting : Phase A → Bool
  is_waiting leading = false
  is_waiting crashed = false
  is_waiting waiting = true
  is_waiting panicked = false
  is_waiting (finished r) = false
  is_waiting (returned r s n) = false

  abbrev pub is_leader : Phase A → Bool
  is_leader leading = true
  is_leader crashed = true
  is_leader waiting = false
  is_leader panicked = false
  is_leader (finished r) = true
  is_leader (returned r s n) = false

  abbrev pub leads : Bytes → Doer A → Bool
  leads key c = is_leader c.phase && bytes_eq c.key key

  abbrev pub runs : ℕ → Doer A → Bool
  runs i c = is_running c.phase && c.call == i

  -- A key is in the map just when one call of Do leads it; the map has the sfCall of the leader and of
  -- those that wait for a result that is not there yet; an sfCall has a result, or one leader that
  -- runs fn, and never both.
  pub record IsKept (g : Group A) : Type 0 where
    pub one : (k : Bytes) → count_if (leads k) g.doers ≡ (if has_value (g.calls k) then 1 else 0)
    pub found :
        (t : ℕ) (c : Doer A)
        → elem_at t g.doers ≡ some c
        → is_leader c.phase ≡ true
        → g.calls c.key ≡ some c.call
    pub once : (i : ℕ) → count_if (runs i) g.doers + (if has_value (g.res i) then 1 else 0) ≤ 1
    pub closed :
        (t : ℕ) (c : Doer A)
        → elem_at t g.doers ≡ some c
        → is_closing c.phase ≡ true
        → has_value (g.res c.call) ≡ true
    pub joined :
        (t : ℕ) (c : Doer A)
        → elem_at t g.doers ≡ some c
        → is_waiting c.phase ≡ true
        → g.res c.call ≡ none
        → g.calls c.key ≡ some c.call
    pub fresh : (i : ℕ) → g.next_call ≤ i → (count_if (runs i) g.doers ≡ 0) × (g.res i ≡ none)

-- A test that says the same of a call before and behind a step counts the same.
pub same_count :
    {A : Type 0} (p : Doer A → Bool) (t : ℕ) (cs : List (Doer A)) (c d : Doer A)
    → elem_at t cs ≡ some c
    → p c ≡ p d
    → count_if p (put_at t d cs) ≡ count_if p cs
same_count p t cs c d at_t e = ground (arith, count_if-put_at p t cs c d at_t)
