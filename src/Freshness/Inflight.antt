-- ===== src/Freshness/Inflight.antt =====
-- internal/freshness/inflight.go: the signed adoptions in flight on each host, and the requests that wait
-- until a host has none. A call of wait is its place in a list; each function is one atomic step, so that
-- any interleaving is a sequence of steps. A channel is a number; what is sent on it is that it is closed.
pub mod Kept
pub mod Steps
pub mod Joins
pub mod Moves
pub mod Runs
mod Tests
use apt_cacher_ultra.Base.{
  ℕ, ◌+◌, ◌-◌, Bool, true, false, Option, none, some, List, [], ◌∷◌, ◌++◌, ltb, leb, ◌==◌, min,
  if◌then◌else◌, Bytes, bytes_eq, elem_at, put_at,
}

-- In the select; behind it with a result, its deferred function not yet run; and returned.
pub data Phase : Type 0 where
  blocked leaving returned : Phase

pub record WaitCall : Type 0 where
  pub host : Bytes
  pub channel : ℕ
  pub phase : Phase
  pub result : Bool

-- A host with no entry in the maps n and waiters has 0 there.
pub record HostAdoptions : Type 0 where
  pub n : Bytes → ℕ
  pub waiters : Bytes → ℕ
  pub idle : Bytes → Option ℕ
  pub closed : ℕ → Bool
  pub next_channel : ℕ
  pub callers : List WaitCall

abbrev pub new_host_adoptions : HostAdoptions
new_host_adoptions = record {
  n = λ h. 0;
  waiters = λ h. 0;
  idle = λ h. none;
  closed = λ c. false;
  next_channel = 0;
  callers = [];
}

abbrev pub strict_waiters_per_host : ℕ
strict_waiters_per_host = 64

abbrev pub strict_min_wait : ℕ
strict_min_wait = 1_000_000_000

abbrev pub strict_wait : ℕ
strict_wait = 15_000_000_000

abbrev pub strict_request_budget : ℕ
strict_request_budget = 25_000_000_000

abbrev pub put {ℓ} : {A : Type ℓ} → (Bytes → A) → Bytes → A → Bytes → A
put f h a g = if bytes_eq h g then a else f g

abbrev pub close_channel : (ℕ → Bool) → ℕ → ℕ → Bool
close_channel closed c d = if c == d then true else closed d

unfoldable pub begin_adoption : HostAdoptions → Bytes → HostAdoptions
begin_adoption s host = record s { n = put s.n host (s.n host + 1) }

-- Behind the delete in end: the host's channel, if there is one, is closed and forgotten.
unfoldable pub wake_waiters : HostAdoptions → Bytes → Option ℕ → HostAdoptions
wake_waiters s host none = s
wake_waiters s host (some c) = record s {
  closed = close_channel s.closed c;
  idle = put s.idle host none;
}

unfoldable pub end_adoption : HostAdoptions → Bytes → HostAdoptions
end_adoption s host =
    let left = record s { n = put s.n host (s.n host - 1) } in
    if ltb 0 (s.n host - 1) then left else wake_waiters left host (s.idle host)

unfoldable pub in_flight : HostAdoptions → Bytes → Bool
in_flight s host = ltb 0 (s.n host)

unfoldable pub start_call : HostAdoptions → WaitCall → HostAdoptions
start_call s c = record s { callers = s.callers ++ (c ∷ []) }

-- The host's channel, made if there is none.
unfoldable pub wait_on : HostAdoptions → Bytes → Option ℕ → HostAdoptions
wait_on s host (some c) =
    start_call (record s { waiters = put s.waiters host (s.waiters host + 1) })
      (record { host = host; channel = c; phase = blocked; result = false })
wait_on s host none =
    start_call
      (record s {
        waiters = put s.waiters host (s.waiters host + 1);
        idle = put s.idle host (some s.next_channel);
        next_channel = s.next_channel + 1;
      })
      (record { host = host; channel = s.next_channel; phase = blocked; result = false })

-- wait up to its select. A max_wait of the source below 0 is 0 here.
unfoldable pub wait : HostAdoptions → Bytes → ℕ → HostAdoptions
wait s host max_wait =
    let answer = λ (b : Bool).
      start_call s (record { host = host; channel = 0; phase = returned; result = b }) in
    if s.n host == 0
    then answer true
    else if leb strict_waiters_per_host (s.waiters host)
    then answer false
    else if ltb max_wait strict_min_wait
    then answer false
    else wait_on s host (s.idle host)

-- WaitHostAdoptions: at most strictWait, and what is left of the request's budget.
unfoldable pub wait_host_adoptions : HostAdoptions → Bytes → ℕ → HostAdoptions
wait_host_adoptions s host since_start =
    wait s host (min strict_wait (strict_request_budget - since_start))

-- What ends the select, and the deferred function.
pub data Move : Type 0 where
  wake time_out cancel leave : Move

unfoldable pub set_phase : HostAdoptions → ℕ → WaitCall → Phase → Bool → HostAdoptions
set_phase s t c p b = record s { callers = put_at t (record c { phase = p; result = b }) s.callers }

unfoldable pub move_phase : Move → Phase → HostAdoptions → ℕ → WaitCall → HostAdoptions
move_phase wake blocked s t c = if s.closed c.channel then set_phase s t c leaving true else s
move_phase time_out blocked s t c = set_phase s t c leaving true
move_phase cancel blocked s t c = set_phase s t c leaving false
move_phase leave leaving s t c =
    set_phase (record s { waiters = put s.waiters c.host (s.waiters c.host - 1) }) t c returned
      c.result
move_phase _ _ s t c = s

unfoldable pub move_at : Move → HostAdoptions → ℕ → Option WaitCall → HostAdoptions
move_at m s t none = s
move_at m s t (some c) = move_phase m c.phase s t c

unfoldable pub move : Move → HostAdoptions → ℕ → HostAdoptions
move m s t = move_at m s t (elem_at t s.callers)
