-- ===== src/Observability/Ring.antt =====
-- internal/observability/ring.go. An event is of any type, since a ring never looks into one; `blank`
-- is Go's zero value of it. The mutex is left out: a function is one critical section. `none` is a
-- panic: a capacity that is not positive, or an index out of range.
pub mod Walk
pub mod Records
pub mod Recent
mod Tests
use apt_cacher_ultra.Base.{
  ℕ, zero, suc, ◌+◌, ◌-◌, Bool, true, false, not, ◌&&◌, Option, none, some, List, [], ◌∷◌, ◌==◌,
  if◌then◌else◌,
}

-- The index in front of another, with the wrap.
unfoldable pub before : ℕ → ℕ → ℕ
before cap zero = cap - 1
before cap (suc i) = i

pub record Ring {ℓ} (A : Type ℓ) : Type ℓ where
  pub buf : List A
  pub head : ℕ
  pub full : Bool
  pub cap : ℕ

-- `make([]AdoptionEvent, capacity)`.
unfoldable pub blanks {ℓ} : {A : Type ℓ} → ℕ → A → List A
blanks zero blank = []
blanks (suc n) blank = blank ∷ blanks n blank

unfoldable pub new_ring {ℓ} : {A : Type ℓ} → A → ℕ → Option (Ring A)
new_ring blank zero = none
new_ring blank (suc n) =
    some (record { buf = blanks (suc n) blank; head = 0; full = false; cap = suc n })

-- `r.buf[i] = e`.
unfoldable pub store {ℓ} : {A : Type ℓ} → List A → ℕ → A → Option (List A)
store [] i e = none
store (x ∷ xs) zero e = some (e ∷ xs)
store (x ∷ xs) (suc i) e = elim (store xs i e) [ none ↦ none | some ys ↦ some (x ∷ ys) ]

-- `r.head++`, with the wrap.
unfoldable pub advance {ℓ} : {A : Type ℓ} → Ring A → List A → Ring A
advance r buf =
    if r.head + 1 == r.cap
    then record r { buf = buf; head = 0; full = true }
    else record r { buf = buf; head = r.head + 1 }

unfoldable pub record_event {ℓ} : {A : Type ℓ} → Ring A → A → Option (Ring A)
record_event r e = elim (store r.buf r.head e) [ none ↦ none | some buf ↦ some (advance r buf) ]

-- `r.buf[i]`.
unfoldable pub read {ℓ} : {A : Type ℓ} → List A → ℕ → Option A
read [] i = none
read (x ∷ xs) zero = some x
read (x ∷ xs) (suc i) = read xs i

unfoldable pub prepend {ℓ} : {A : Type ℓ} → Option A → Option (List A) → Option (List A)
prepend none o = none
prepend (some x) none = none
prepend (some x) (some xs) = some (x ∷ xs)

-- The loop of Snapshot over `n` slots from `i` back.
unfoldable pub walk_back {ℓ} : {A : Type ℓ} → ℕ → ℕ → ℕ → List A → Option (List A)
walk_back cap zero i buf = some []
walk_back cap (suc n) i buf = prepend (read buf i) (walk_back cap n (before cap i) buf)

unfoldable pub ring_len {ℓ} : {A : Type ℓ} → Ring A → ℕ
ring_len r = if r.full then r.cap else r.head

unfoldable pub snapshot {ℓ} : {A : Type ℓ} → Ring A → Option (List A)
snapshot r =
    if not r.full && r.head == 0
    then some []
    else walk_back r.cap (ring_len r) (before r.cap r.head) r.buf

-- Calls of Record, one behind the other.
unfoldable pub record_all {ℓ} : {A : Type ℓ} → Option (Ring A) → List A → Option (Ring A)
record_all none es = none
record_all (some r) [] = some r
record_all (some r) (e ∷ es) = record_all (record_event r e) es
