-- ===== src/Singleflight.antt =====
-- internal/handler/singleflight.go: sfGroup. A call of Do is its place in a list, an sfCall the place
-- where it was made. Each function is one atomic step of one call of Do, so that any interleaving is a
-- sequence of steps. A result is of any type, since the group never looks into one; `panic_result` is
-- the one of errSFLeaderPanicked. The hook of the tests is left out.
pub mod Kept
pub mod Steps
pub mod Starts
pub mod Runs
pub mod Shared
pub mod Results
pub mod Ends
mod Tests
use apt_cacher_ultra.Base.{
  ℕ, zero, suc, ◌+◌, Bool, true, false, Option, none, some, List, [], ◌∷◌, ◌++◌, ◌==◌,
  if◌then◌else◌, Bytes, bytes_eq, elem_at, put_at,
}

-- Where a call of Do is: running fn as the leader; behind wg.Done with fn's result, or behind its panic,
-- before the key is deleted; in wg.Wait; and ended, with Do's results or by the panic.
pub data Phase (A : Type 0) : Type 0 where
  leading crashed waiting panicked : Phase A
  finished : A → Phase A
  returned : A → Bool → ℕ → Phase A

pub record Doer (A : Type 0) : Type 0 where
  pub key : Bytes
  pub call : ℕ
  pub phase : Phase A

-- `calls` is the map; `res` has the result of an sfCall whose wg is done, and `waiters` its count.
pub record Group (A : Type 0) : Type 0 where
  pub panic_result : A
  pub calls : Bytes → Option ℕ
  pub res : ℕ → Option A
  pub waiters : ℕ → ℕ
  pub next_call : ℕ
  pub doers : List (Doer A)

abbrev pub new_group : {A : Type 0} → A → Group A
new_group p = record {
  panic_result = p;
  calls = λ k. none;
  res = λ i. none;
  waiters = λ i. 0;
  next_call = 0;
  doers = [];
}

abbrev pub put_call : (Bytes → Option ℕ) → Bytes → Option ℕ → Bytes → Option ℕ
put_call f k o j = if bytes_eq k j then o else f j

abbrev pub put_number {ℓ} : {B : Type ℓ} → (ℕ → B) → ℕ → B → ℕ → B
put_number f i b j = if i == j then b else f j

-- The first section under the lock: join the call of the key, or lead a new one.
unfoldable pub start_at : {A : Type 0} → Group A → Bytes → Option ℕ → Group A
start_at g key (some i) = record g {
  waiters = put_number g.waiters i (g.waiters i + 1);
  doers = g.doers ++ (record { key = key; call = i; phase = waiting } ∷ []);
}
start_at g key none = record g {
  calls = put_call g.calls key (some g.next_call);
  next_call = g.next_call + 1;
  doers = g.doers ++ (record { key = key; call = g.next_call; phase = leading } ∷ []);
}

unfoldable pub start : {A : Type 0} → Group A → Bytes → Group A
start g key = start_at g key (g.calls key)

-- The end of fn with a result, its panic, the delete of the key, and the end of wg.Wait.
pub data Move (A : Type 0) : Type 0 where
  finish : A → Move A
  crash remove wake : Move A

-- `c.res = ...; c.wg.Done()`.
unfoldable pub complete : {A : Type 0} → Group A → ℕ → Doer A → A → Phase A → Group A
complete g t c r p = record g {
  res = put_number g.res c.call (some r);
  doers = put_at t (record c { phase = p }) g.doers;
}

-- The last section under the lock: `delete(g.calls, key)`.
unfoldable pub delete_key : {A : Type 0} → Group A → ℕ → Doer A → Phase A → Group A
delete_key g t c p = record g {
  calls = put_call g.calls c.key none;
  doers = put_at t (record c { phase = p }) g.doers;
}

unfoldable pub wake_with : {A : Type 0} → Group A → ℕ → Doer A → Option A → Group A
wake_with g t c none = g
wake_with g t c (some r) = record g {
  doers = put_at t (record c { phase = returned r true 0 }) g.doers;
}

unfoldable pub move_phase : {A : Type 0} → Move A → Phase A → Group A → ℕ → Doer A → Group A
move_phase (finish r) leading g t c = complete g t c r (finished r)
move_phase crash leading g t c = complete g t c g.panic_result crashed
move_phase remove (finished r) g t c = delete_key g t c (returned r false (g.waiters c.call))
move_phase remove crashed g t c = delete_key g t c panicked
move_phase wake waiting g t c = wake_with g t c (g.res c.call)
move_phase _ _ g t c = g

unfoldable pub move_at : {A : Type 0} → Move A → Group A → ℕ → Option (Doer A) → Group A
move_at m g t none = g
move_at m g t (some c) = move_phase m c.phase g t c

unfoldable pub move : {A : Type 0} → Move A → Group A → ℕ → Group A
move m g t = move_at m g t (elem_at t g.doers)
