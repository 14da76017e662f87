-- ===== src/Freshness/Inflight/Joins.antt =====
-- A call of wait keeps the books.
use apt_cacher_ultra.Base.{
  ℕ, ◌+◌, ◌≤◌, ◌<◌, ◌≡◌, ◌≢◌, refl, sym, ap, ◌∙◌, inl, inr, ◌⊎◌, Bool, true, false, Option, none,
  some, [], ◌∷◌, ◌++◌, ◌==◌, ltb, leb, arith, Bool-cases, subst, Bytes, bytes_eq, bytes_eq_iff,
  count_if-append, elem_at-append,
}
use apt_cacher_ultra.Freshness.Inflight.{
  Phase, blocked, leaving, returned, WaitCall, HostAdoptions, strict_waiters_per_host, put,
  start_call, wait_on, wait, strict_min_wait,
}
use apt_cacher_ultra.Freshness.Inflight.Kept.{waits_on, IsKept, put-count}

abbrev pub NotBlocked : Phase → Type 0
NotBlocked blocked = ⊥
NotBlocked leaving = Unit
NotBlocked returned = Unit

pub not_blocked : (p : Phase) → NotBlocked p → p ≢ blocked
not_blocked p n e = subst NotBlocked e n

-- A call that returns at once.
answered-IsKept :
    (s : HostAdoptions) (host : Bytes) (b : Bool)
    → IsKept s
    → IsKept (start_call s (record { host = host; channel = 0; phase = returned; result = b }))
unfolding start_call
answered-IsKept s host b k =
    let c : WaitCall = record { host = host; channel = 0; phase = returned; result = b } in
    record {
      counted = λ h. omega (arith, k.counted h, count_if-append (waits_on h) s.callers c);
      bound = k.bound;
      woken = λ t d e w. elim (elem_at-append t s.callers c d e) [
        | inl same ↦
            absurd (not_blocked returned tt (sym (ap (λ (z : WaitCall). z.phase) same) ∙ w))
        | inr old ↦ k.woken t d old w
      ];
      awaited = k.awaited;
      one_host = k.one_host;
      made = k.made;
    }

-- A call that waits on a channel of its host.
joined-IsKept :
    (s : HostAdoptions) (host : Bytes) (i next : ℕ) (idle : Bytes → Option ℕ)
    → IsKept s
    → s.waiters host < strict_waiters_per_host
    → idle host ≡ some i
    → ((h : Bytes) (j : ℕ) → s.idle h ≡ some j → idle h ≡ some j)
    → ((h : Bytes) (j : ℕ) → idle h ≡ some j → (1 ≤ s.n h) × (j < next))
    → ((h g : Bytes) (j : ℕ) → idle h ≡ some j → idle g ≡ some j → h ≡ g)
    → IsKept (record s {
      waiters = put s.waiters host (s.waiters host + 1);
      idle = idle;
      next_channel = next;
      callers =
          s.callers ++ (record { host = host; channel = i; phase = blocked; result = false } ∷ []);
    })
joined-IsKept s host i next idle k room here kept fine alone =
    let c : WaitCall = record { host = host; channel = i; phase = blocked; result = false } in
    let added = λ (h : Bytes). count_if-append (waits_on h) s.callers c in
    let itself = (bytes_eq_iff host host).1 refl in
    record {
      counted =
          put-count s.waiters host (s.waiters host + 1) s.callers (s.callers ++ (c ∷ [])) k.counted
            (ground (arith, k.counted host, added host, itself))
            (λ h other. ground (arith, added h, other));
      bound = λ h. elim (Bool-cases (bytes_eq host h)) [
        | inl a ↦ rw a (omega (arith, room))
        | inr a ↦ rw a (k.bound h)
      ];
      woken = λ t d e w. elim (elem_at-append t s.callers c d e) [
        | inl same ↦ inr (subst (λ (z : WaitCall). idle z.host ≡ some z.channel) (sym same) here)
        | inr old ↦ elim (k.woken t d old w) [
          | inl closed ↦ inl closed
          | inr waits ↦ inr (kept d.host d.channel waits)
        ]
      ];
      awaited = λ h j e. (fine h j e).0;
      one_host = alone;
      made = λ h j e. (fine h j e).1;
    }

wait_on-IsKept :
    (s : HostAdoptions) (host : Bytes) (o : Option ℕ)
    → s.idle host ≡ o
    → IsKept s
    → s.waiters host < strict_waiters_per_host
    → 1 ≤ s.n host
    → IsKept (wait_on s host o)
unfolding wait_on start_call
wait_on-IsKept s host (some i) e k room busy =
    joined-IsKept s host i s.next_channel s.idle k room e (λ h j f. f)
      (λ h j f. (k.awaited h j f, k.made h j f)) k.one_host
wait_on-IsKept s host none e k room busy =
    let idle = put s.idle host (some s.next_channel) in
    let itself = (bytes_eq_iff host host).1 refl in
    let new : (h : Bytes) (j : ℕ)
        → idle h ≡ some j
        → ((host ≡ h) × (j ≡ s.next_channel)) ⊎ (s.idle h ≡ some j) =
      λ h j f. elim (Bool-cases (bytes_eq host h)) [
        | inl a ↦
            let same : some s.next_channel ≡ some j = rw (a) at (f) in
            inl ((bytes_eq_iff host h).0 a, cc same)
        | inr a ↦ inr (rw (a) at (f))
      ] in
    joined-IsKept s host s.next_channel (s.next_channel + 1) idle k room (rw itself refl)
      (λ h j f. elim (Bool-cases (bytes_eq host h)) [
        | inl a ↦ cc (e, f, ap s.idle ((bytes_eq_iff host h).0 a))
        | inr a ↦ rw a f
      ])
      (λ h j f. elim (new h j f) [
        | inl (a, b) ↦ (subst (λ z. 1 ≤ s.n z) a busy, omega (arith, b))
        | inr old ↦ (k.awaited h j old, omega (arith, k.made h j old))
      ])
      (λ h g j f d. elim (new h j f) [
        | inl (a, b) ↦ elim (new g j d) [
          | inl (a2, b2) ↦ sym a ∙ a2
          | inr old ↦ absurd (omega (arith, b, k.made g j old))
        ]
        | inr old ↦ elim (new g j d) [
          | inl (a2, b2) ↦ absurd (omega (arith, b2, k.made h j old))
          | inr old2 ↦ k.one_host h g j old old2
        ]
      ])

pub wait-IsKept :
    (s : HostAdoptions) (host : Bytes) (max_wait : ℕ) → IsKept s → IsKept (wait s host max_wait)
unfolding wait
wait-IsKept s host max_wait k = elim (Bool-cases (s.n host == 0)) [
  | inl a ↦ rw a (answered-IsKept s host true k)
  | inr a ↦ elim (Bool-cases (leb strict_waiters_per_host (s.waiters host))) [
    | inl b ↦ rw (a, b) (answered-IsKept s host false k)
    | inr b ↦ elim (Bool-cases (ltb max_wait strict_min_wait)) [
      | inl c ↦ rw (a, b, c) (answered-IsKept s host false k)
      | inr c ↦
          rw (a, b, c)
            (wait_on-IsKept s host (s.idle host) refl k (ground (arith, b)) (ground (arith, a)))
    ]
  ]
]
