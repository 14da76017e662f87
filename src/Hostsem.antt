-- ===== src/Hostsem.antt =====
-- internal/hostsem/sem.go: the semaphore of each upstream host. A call of Acquire is its place in a
-- list, a slot the place where it was made. Each function is one atomic step of one call, so that any
-- interleaving is a sequence of steps.
pub mod Kept
pub mod Tokens
pub mod Drops
pub mod Enters
pub mod Runs
pub mod Limit
mod Tests
use apt_cacher_ultra.Base.{
  ℕ, zero, ◌+◌, ◌-◌, Bool, true, false, Option, none, some, List, [], ◌∷◌, ◌++◌, ltb, ◌==◌,
  if◌then◌else◌, Bytes, bytes_eq, elem_at, put_at,
}

-- Where a call is: in the select, behind the lock; with a token, its closure not yet called; before
-- dropRef, with no token; and done. A call keeps its host and its slot.
pub data Phase : Type 0 where
  waiting holding leaving done : Phase

pub record Caller : Type 0 where
  pub host : Bytes
  pub slot : ℕ
  pub phase : Phase

-- hostSlot: the tokens in the channel, and the reference count.
pub record HostSlot : Type 0 where
  pub tokens : ℕ
  pub refs : ℕ

pub record Sem : Type 0 where
  pub limit : ℕ
  pub entry : Bytes → Option ℕ
  pub slots : ℕ → HostSlot
  pub next_slot : ℕ
  pub callers : List Caller

-- The limit is that of the source once it is at least 0.
abbrev pub new_sem : ℕ → Sem
new_sem limit = record {
  limit = limit;
  entry = λ h. none;
  slots = λ i. record { tokens = 0; refs = 0 };
  next_slot = 0;
  callers = [];
}

abbrev pub put_slot : (ℕ → HostSlot) → ℕ → HostSlot → ℕ → HostSlot
put_slot f i s j = if i == j then s else f j

abbrev pub put_entry : (Bytes → Option ℕ) → Bytes → Option ℕ → Bytes → Option ℕ
put_entry f h o g = if bytes_eq h g then o else f g

-- The section under the lock: `slot.refs++` in the host's slot, which is made if there is none.
unfoldable pub enter_at : Sem → Bytes → Option ℕ → Sem
enter_at s host (some i) = record s {
  slots = put_slot s.slots i (record (s.slots i) { refs = (s.slots i).refs + 1 });
  callers = s.callers ++ (record { host = host; slot = i; phase = waiting } ∷ []);
}
enter_at s host none = record s {
  entry = put_entry s.entry host (some s.next_slot);
  slots = put_slot s.slots s.next_slot (record { tokens = 0; refs = 1 });
  next_slot = s.next_slot + 1;
  callers = s.callers ++ (record { host = host; slot = s.next_slot; phase = waiting } ∷ []);
}

unfoldable pub enter : Sem → Bytes → Sem
enter s host = enter_at s host (s.entry host)

-- `slot.ch <- struct{}{}`: it goes on when the channel has room.
unfoldable pub take_token : Sem → ℕ → Caller → Sem
take_token s t c =
    if ltb (s.slots c.slot).tokens s.limit
    then record s {
      slots =
          put_slot s.slots c.slot
            (record (s.slots c.slot) { tokens = (s.slots c.slot).tokens + 1 });
      callers = put_at t (record c { phase = holding }) s.callers;
    }
    else s

-- `<-slot.ch`.
unfoldable pub give_token : Sem → ℕ → Caller → Sem
give_token s t c = record s {
  slots =
      put_slot s.slots c.slot (record (s.slots c.slot) { tokens = (s.slots c.slot).tokens - 1 });
  callers = put_at t (record c { phase = leaving }) s.callers;
}

-- `ok && cur == slot`.
unfoldable pub is_slot : Option ℕ → ℕ → Bool
is_slot none i = false
is_slot (some j) i = j == i

unfoldable pub drop_ref : Sem → ℕ → Caller → Sem
drop_ref s t c =
    let refs = (s.slots c.slot).refs - 1 in
    record s {
      slots = put_slot s.slots c.slot (record (s.slots c.slot) { refs = refs });
      entry =
          if refs == 0
          then (if is_slot (s.entry c.host) c.slot then put_entry s.entry c.host none else s.entry)
          else s.entry;
      callers = put_at t (record c { phase = done }) s.callers;
    }

-- The steps behind `enter`: the send, the end of the context, the call of the closure and dropRef.
-- A closure that has run does nothing, by its sync.Once.
pub data Move : Type 0 where
  send cancel release drop : Move

unfoldable pub move_phase : Move → Phase → Sem → ℕ → Caller → Sem
move_phase send waiting s t c = take_token s t c
move_phase cancel waiting s t c = record s {
  callers = put_at t (record c { phase = leaving }) s.callers;
}
move_phase release holding s t c = give_token s t c
move_phase drop leaving s t c = drop_ref s t c
move_phase _ _ s t c = s

unfoldable pub move_at : Move → Sem → ℕ → Option Caller → Sem
move_at m s t none = s
move_at m s t (some c) = move_phase m c.phase s t c

unfoldable pub move : Move → Sem → ℕ → Sem
move m s t = move_at m s t (elem_at t s.callers)

-- What Snapshot says of a host: its tokens in use, and the capacity of its channel.
pub record HostStat : Type 0 where
  pub inflight : ℕ
  pub capacity : ℕ

unfoldable pub stat_at : Sem → Option ℕ → Option HostStat
stat_at s none = none
stat_at s (some i) = some (record { inflight = (s.slots i).tokens; capacity = s.limit })

unfoldable pub host_stat : Sem → Bytes → Option HostStat
host_stat s host = stat_at s (s.entry host)
