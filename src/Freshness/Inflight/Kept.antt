-- ===== src/Freshness/Inflight/Kept.antt =====
-- The books of the waits: the counts of waiters, and the channels that wake them.
use apt_cacher_ultra.Base.{
  ℕ, ◌≤◌, ◌<◌, ◌≡◌, ◌≢◌, sym, ap, ◌∙◌, inl, inr, ◌⊎◌, Bool, true, false, ◌&&◌, Option, some, List,
  Bool-cases, Bytes, bytes_eq, bytes_eq_iff, elem_at, put_at, count_if, elem_at-put_at,
}
use apt_cacher_ultra.Freshness.Inflight.{
  Phase, blocked, leaving, returned, WaitCall, HostAdoptions, strict_waiters_per_host, put,
}

abbrev pub is_inside : Phase → Bool
is_inside blocked = true
is_inside leaving = true
is_inside returned = false

-- A call that waits on this host, or is about to return from such a wait.
abbrev pub waits_on : Bytes → WaitCall → Bool
waits_on h c = is_inside c.phase && bytes_eq c.host h

-- A host's count is that of the calls inside its waits, and within the cap; a call in its select has a
-- channel that is closed or that the last adoption of its host will close; a channel that hosts have is
-- open, theirs alone, and of a host with an adoption in flight.
pub record IsKept (s : HostAdoptions) : Type 0 where
  pub counted : (h : Bytes) → s.waiters h ≡ count_if (waits_on h) s.callers
  pub bound : (h : Bytes) → s.waiters h ≤ strict_waiters_per_host
  pub woken :
      (t : ℕ) (c : WaitCall)
      → elem_at t s.callers ≡ some c
      → c.phase ≡ blocked
      → (s.closed c.channel ≡ true) ⊎ (s.idle c.host ≡ some c.channel)
  pub awaited : (h : Bytes) (i : ℕ) → s.idle h ≡ some i → 1 ≤ s.n h
  pub one_host : (h g : Bytes) (i : ℕ) → s.idle h ≡ some i → s.idle g ≡ some i → h ≡ g
  pub made : (h : Bytes) (i : ℕ) → s.idle h ≡ some i → i < s.next_channel

-- A map of counts after one change.
pub put-count :
    (f : Bytes → ℕ) (host : Bytes) (v : ℕ) (cs ds : List WaitCall)
    → ((h : Bytes) → f h ≡ count_if (waits_on h) cs)
    → v ≡ count_if (waits_on host) ds
    → ((h : Bytes) → bytes_eq host h ≡ false → count_if (waits_on h) ds ≡ count_if (waits_on h) cs)
    → (h : Bytes) → put f host v h ≡ count_if (waits_on h) ds
put-count f host v cs ds books here there h = elim (Bool-cases (bytes_eq host h)) [
  | inl a ↦ rw a (here ∙ ap (λ z. count_if (waits_on z) ds) ((bytes_eq_iff host h).0 a))
  | inr a ↦ rw a (books h ∙ sym (there h a))
]

-- The other calls keep what wakes them.
pub woken_after :
    (closed : ℕ → Bool) (idle : Bytes → Option ℕ) (cs : List WaitCall) (t : ℕ) (c : WaitCall)
    (p : Phase) (b : Bool)
    → ((u : ℕ) (d : WaitCall)
        → elem_at u cs ≡ some d
        → d.phase ≡ blocked
        → (closed d.channel ≡ true) ⊎ (idle d.host ≡ some d.channel))
    → p ≢ blocked
    → (u : ℕ) (d : WaitCall) → elem_at u (put_at t (record c { phase = p; result = b }) cs) ≡ some d
    → d.phase ≡ blocked
    → (closed d.channel ≡ true) ⊎ (idle d.host ≡ some d.channel)
woken_after closed idle cs t c p b woken other u d e w =
    elim (elem_at-put_at t u cs (record c { phase = p; result = b }) d e) [
      | inl same ↦ absurd (other (sym (ap (λ (z : WaitCall). z.phase) same) ∙ w))
      | inr old ↦ woken u d old w
    ]
