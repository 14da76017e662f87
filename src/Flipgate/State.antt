-- ===== src/Flipgate/State.antt =====
-- The gate's constants, its records and its heaps.
use apt_cacher_ultra.Base.{
  ℕ, ◌*◌, Bool, true, false, ◌&&◌, ◌||◌, Option, none, some, List, [], ltb, ◌==◌, if◌then◌else◌,
  Bytes, codes, ◌++◌, not,
}

abbrev pub second : ℕ
second = 1_000_000_000

abbrev pub min_quiet : ℕ
min_quiet = second

abbrev pub max_quiet : ℕ
max_quiet = 15 * second

abbrev pub phase_a_max : ℕ
phase_a_max = 60 * second

abbrev pub token_wait_max : ℕ
token_wait_max = 60 * second

abbrev pub hold_max : ℕ
hold_max = 20 * second

abbrev pub commit_margin : ℕ
commit_margin = 5 * second

abbrev pub anchor_timeout : ℕ
anchor_timeout = 30 * second

abbrev pub max_waiters : ℕ
max_waiters = 256

pub record Stats : Type 0 where
  pub flips : ℕ
  pub holds : ℕ
  pub holds_expired : ℕ
  pub holds_skipped : ℕ
  pub aborted : ℕ
  pub held_requests : ℕ
  pub quiet_cut_short : ℕ

-- An anchor serve in flight: its token and its start.
pub record Serve : Type 0 where
  pub token : ℕ
  pub start : ℕ

pub record Entry : Type 0 where
  pub inflight : List Serve
  pub last_done : ℕ
  pub hold : Option ℕ
  pub flips : ℕ
  pub last_use : ℕ

-- `released` of the source is closed just when `ended` is set.
pub record Hold : Type 0 where
  pub entry : ℕ
  pub start : ℕ
  pub end_time : ℕ
  pub waiting : ℕ
  pub held_total : ℕ
  pub ended : Bool
  pub expired : Bool

-- `granted` of the source is closed just when `hold` is set.
pub record TokenWaiter : Type 0 where
  pub entry : ℕ
  pub hold : Option ℕ

-- A token that is registered with the gate.
pub record Token : Type 0 where
  pub entry : ℕ
  pub start : ℕ
  pub held : ℕ
  pub done : Bool

pub record Gate : Type 0 where
  pub quiet : ℕ
  pub entries : List (Bytes × ℕ)
  pub holder : Option ℕ
  pub queue : List ℕ
  pub last_end : ℕ
  pub last_end_by : Option ℕ
  pub prev_end : ℕ
  pub last_sweep : ℕ
  pub closed : Bool
  pub stats : Stats
  -- the heaps, and the next free index of each
  pub entry_at : ℕ → Entry
  pub hold_at : ℕ → Hold
  pub waiter_at : ℕ → TokenWaiter
  pub token_at : ℕ → Token
  pub next_entry : ℕ
  pub next_hold : ℕ
  pub next_waiter : ℕ
  pub next_token : ℕ

-- A write to a heap.
abbrev pub update {ℓ} : {A : Type ℓ} → (ℕ → A) → ℕ → A → ℕ → A
update f i v j = if i == j then v else f j

abbrev pub no_stats : Stats
no_stats = record {
  flips = 0;
  holds = 0;
  holds_expired = 0;
  holds_skipped = 0;
  aborted = 0;
  held_requests = 0;
  quiet_cut_short = 0;
}

abbrev pub new_entry : Entry
new_entry = record { inflight = []; last_done = 0; hold = none; flips = 0; last_use = 0 }

abbrev pub no_hold : Hold
no_hold = record {
  entry = 0;
  start = 0;
  end_time = 0;
  waiting = 0;
  held_total = 0;
  ended = true;
  expired = false;
}

abbrev pub empty_gate : ℕ → Gate
empty_gate quiet = record {
  quiet = quiet;
  entries = [];
  holder = none;
  queue = [];
  last_end = 0;
  last_end_by = none;
  prev_end = 0;
  last_sweep = 0;
  closed = false;
  stats = no_stats;
  entry_at = λ _. new_entry;
  hold_at = λ _. no_hold;
  waiter_at = λ _. record { entry = 0; hold = none };
  token_at = λ _. record { entry = 0; start = 0; held = 0; done = true };
  next_entry = 0;
  next_hold = 0;
  next_waiter = 0;
  next_token = 0;
}

-- New: `none` is ErrQuietOutOfRange.
unfoldable pub new : ℕ → Option Gate
new quiet =
    if not (quiet == 0) && (ltb quiet min_quiet || ltb max_quiet quiet)
    then none
    else some (empty_gate quiet)

unfoldable pub enabled : Gate → Bool
enabled g = ltb 0 g.quiet

-- Key.
unfoldable pub key : Bytes → Bytes → Bytes → Bytes
key scheme host suite_path = scheme ++ (codes "|" ++ (host ++ (codes "|" ++ suite_path)))
