-- ===== src/Singleflight/Starts.antt =====
-- The first section of Do keeps the books.
use apt_cacher_ultra.Base.{
  ℕ, ◌≡◌, refl, sym, ap, inl, inr, none, some, [], ◌∷◌, ◌++◌, ◌==◌, ==_iff, if◌then◌else◌, arith,
  Bool-cases, Option-cases, subst, Bytes, bytes_eq, bytes_eq_iff, count_if, count_if-append,
  elem_at-append,
}
use apt_cacher_ultra.Singleflight.{leading, waiting, Doer, Group, put_call, start_at, start}
use apt_cacher_ultra.Singleflight.Kept.{
  has_value, is_closing, is_waiting, is_leader, leads, runs, IsKept,
}

module _ {A : Type 0} (g : Group A) (key : Bytes) (k : IsKept g) where
  join-IsKept : (i : ℕ) → g.calls key ≡ some i → IsKept (start_at g key (some i))
  unfolding start_at
  join-IsKept i has =
      let new : Doer A = record { key = key; call = i; phase = waiting } in
      record {
        one = λ h. omega (arith, count_if-append (leads h) g.doers new, k.one h);
        found = λ u d e l. elim (elem_at-append u g.doers new d e) [
          | inl same ↦ cc (l, ap (λ (x : Doer A). is_leader x.phase) same)
          | inr old ↦ k.found u d old l
        ];
        once = λ j. omega (arith, count_if-append (runs j) g.doers new, k.once j);
        closed = λ u d e l. elim (elem_at-append u g.doers new d e) [
          | inl same ↦ cc (l, ap (λ (x : Doer A). is_closing x.phase) same)
          | inr old ↦ k.closed u d old l
        ];
        joined = λ u d e l n. elim (elem_at-append u g.doers new d e) [
          | inl same ↦ subst (λ (x : Doer A). g.calls x.key ≡ some x.call) (sym same) has
          | inr old ↦ k.joined u d old l n
        ];
        fresh = λ j h.
            (omega (arith, count_if-append (runs j) g.doers new, (k.fresh j h).0), (k.fresh j h).1);
      }

  -- The entries of other keys stay.
  old_call :
      (h : Bytes) (i : ℕ)
      → g.calls key ≡ none
      → g.calls h ≡ some i
      → put_call g.calls key (some g.next_call) h ≡ some i
  old_call h i none_yet e = elim (Bool-cases (bytes_eq key h)) [
    | inl same ↦ cc (none_yet, e, ap g.calls ((bytes_eq_iff key h).0 same))
    | inr other ↦ rw other e
  ]

  lead_one :
      g.calls key ≡ none
      → (h : Bytes)
      → count_if
          (leads h)
          (g.doers ++ (record { key = key; call = g.next_call; phase = leading } ∷ []))
        ≡ (if has_value (put_call g.calls key (some g.next_call) h) then 1 else 0)
  lead_one none_yet h =
      let grown =
        count_if-append (leads h) g.doers
          (record { key = key; call = g.next_call; phase = leading }) in
      elim (Bool-cases (bytes_eq key h)) [
        | inl same ↦
            let absent : g.calls h ≡ none =
              subst (λ x. g.calls x ≡ none) ((bytes_eq_iff key h).0 same) none_yet in
            rw same (omega (arith, rw same at grown, rw absent at (k.one h)))
        | inr other ↦ rw other (omega (arith, rw other at grown, k.one h))
      ]

  lead-IsKept : g.calls key ≡ none → IsKept (start_at g key none)
  unfolding start_at
  lead-IsKept none_yet =
      let new : Doer A = record { key = key; call = g.next_call; phase = leading } in
      record {
        one = lead_one none_yet;
        found = λ u d e l. elim (elem_at-append u g.doers new d e) [
          | inl same ↦
              subst (λ (x : Doer A). put_call g.calls key (some g.next_call) x.key ≡ some x.call)
                (sym same) (rw ((bytes_eq_iff key key).1 refl) refl)
          | inr old ↦ old_call d.key d.call none_yet (k.found u d old l)
        ];
        once = λ j. elim (Bool-cases (g.next_call == j)) [
          | inl same ↦
              let (idle, no_result) = k.fresh j (omega (arith, (==_iff g.next_call j).0 same)) in
              rw no_result (omega (arith, rw same at (count_if-append (runs j) g.doers new), idle))
          | inr other ↦ omega (arith, rw other at (count_if-append (runs j) g.doers new), k.once j)
        ];
        closed = λ u d e l. elim (elem_at-append u g.doers new d e) [
          | inl same ↦ cc (l, ap (λ (x : Doer A). is_closing x.phase) same)
          | inr old ↦ k.closed u d old l
        ];
        joined = λ u d e l n. elim (elem_at-append u g.doers new d e) [
          | inl same ↦ cc (l, ap (λ (x : Doer A). is_waiting x.phase) same)
          | inr old ↦ old_call d.key d.call none_yet (k.joined u d old l n)
        ];
        fresh = λ j h.
            let (idle, no_result) = k.fresh j (omega (arith, h)) in
            (ground (arith, count_if-append (runs j) g.doers new, idle, h), no_result);
      }

pub start-IsKept : {A : Type 0} (g : Group A) (key : Bytes) → IsKept g → IsKept (start g key)
unfolding start
start-IsKept g key k = elim (Option-cases (g.calls key)) [
  | inl e ↦ rw e (lead-IsKept g key k e)
  | inr (i, e) ↦ rw e (join-IsKept g key k i e)
]
