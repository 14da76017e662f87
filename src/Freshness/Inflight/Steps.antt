-- ===== src/Freshness/Inflight/Steps.antt =====
-- The begin and the end of an adoption keep the books.
use apt_cacher_ultra.Base.{
  ℕ, ◌-◌, ◌≤◌, ◌≡◌, refl, sym, ap, ◌∙◌, inl, inr, none, some, ◌==◌, ltb, ==_iff, arith, Bool-cases,
  Option-cases, Bytes, bytes_eq, bytes_eq_iff,
}
use apt_cacher_ultra.Freshness.Inflight.{
  HostAdoptions, put, close_channel, begin_adoption, end_adoption, wake_waiters,
}
use apt_cacher_ultra.Freshness.Inflight.Kept.{IsKept}

pub begin_adoption-IsKept :
    (s : HostAdoptions) (host : Bytes) → IsKept s → IsKept (begin_adoption s host)
unfolding begin_adoption
begin_adoption-IsKept s host k = record {
  counted = k.counted;
  bound = k.bound;
  woken = k.woken;
  awaited = λ h i e. ground (arith, k.awaited h i e);
  one_host = k.one_host;
  made = k.made;
}

-- The last adoption of the host: its channel is closed and forgotten.
closing-IsKept :
    (s : HostAdoptions) (host : Bytes) (i v : ℕ)
    → s.idle host ≡ some i
    → IsKept s
    → IsKept (record s {
      n = put s.n host v;
      closed = close_channel s.closed i;
      idle = put s.idle host none;
    })
closing-IsKept s host i v here k = record {
  counted = k.counted;
  bound = k.bound;
  woken = λ t c e w. elim (Bool-cases (i == c.channel)) [
    | inl a ↦ inl (rw a refl)
    | inr a ↦ elim (k.woken t c e w) [
      | inl closed ↦ inl (rw a closed)
      | inr idle ↦ elim (Bool-cases (bytes_eq host c.host)) [
        | inl b ↦
            let same : s.idle c.host ≡ some i =
              ap s.idle (sym ((bytes_eq_iff host c.host).0 b)) ∙ here in
            let both : i ≡ c.channel = cc (idle, same) in cc (a, (==_iff i c.channel).1 both)
        | inr b ↦ inr (rw b idle)
      ]
    ]
  ];
  awaited = λ h j e. elim (Bool-cases (bytes_eq host h)) [
    | inl b ↦ cc (rw b at e)
    | inr b ↦ rw b (k.awaited h j (rw b at e))
  ];
  one_host = λ h g j e f. elim (Bool-cases (bytes_eq host h)) [
    | inl b ↦ cc (rw b at e)
    | inr b ↦ elim (Bool-cases (bytes_eq host g)) [
      | inl d ↦ cc (rw d at f)
      | inr d ↦ k.one_host h g j (rw b at e) (rw d at f)
    ]
  ];
  made = λ h j e. elim (Bool-cases (bytes_eq host h)) [
    | inl b ↦ cc (rw b at e)
    | inr b ↦ k.made h j (rw b at e)
  ];
}

-- The count of the host changes, and some adoption is left or no one waits for it.
counting-IsKept :
    (s : HostAdoptions) (host : Bytes) (v : ℕ)
    → ((i : ℕ) → s.idle host ≡ some i → 1 ≤ v)
    → IsKept s
    → IsKept (record s { n = put s.n host v })
counting-IsKept s host v left k = record {
  counted = k.counted;
  bound = k.bound;
  woken = k.woken;
  awaited = λ h i e. elim (Bool-cases (bytes_eq host h)) [
    | inl a ↦ rw a (left i (ap s.idle ((bytes_eq_iff host h).0 a) ∙ e))
    | inr a ↦ rw a (k.awaited h i e)
  ];
  one_host = k.one_host;
  made = k.made;
}

pub end_adoption-IsKept :
    (s : HostAdoptions) (host : Bytes) → IsKept s → IsKept (end_adoption s host)
unfolding end_adoption wake_waiters
end_adoption-IsKept s host k = elim (Bool-cases (ltb 0 (s.n host - 1))) [
  | inl a ↦ rw a (counting-IsKept s host (s.n host - 1) (λ i e. ground (arith, a)) k)
  | inr a ↦ elim (Option-cases (s.idle host)) [
    | inl e ↦ rw (a, e) (counting-IsKept s host (s.n host - 1) (λ i f. cc (e, f)) k)
    | inr (i, e) ↦ rw (a, e) (closing-IsKept s host i (s.n host - 1) e k)
  ]
]
