-- ===== src/Singleflight/Steps.antt =====
-- The ends of fn, of the leader and of the waiters keep the books.
use apt_cacher_ultra.Base.{
  ℕ, ◌≡◌, refl, sym, ap, ◌∙◌, inl, inr, true, false, ◌&&◌, Option, none, some, ◌==◌, ==_iff,
  if◌then◌else◌, arith, Bool-cases, subst, Bytes, bytes_eq, bytes_eq_iff, elem_at, put_at, count_if,
  count_if-put_at, elem_at-put_at, count_if_pos,
}
use apt_cacher_ultra.Singleflight.{
  Phase, leading, waiting, returned, Doer, Group, put_call, complete, delete_key, wake_with,
}
use apt_cacher_ultra.Singleflight.Kept.{
  has_value, is_running, is_closing, is_waiting, is_leader, leads, runs, IsKept, same_count,
}

module _ {A : Type 0} (g : Group A) (t : ℕ) (c : Doer A) (k : IsKept g)
    (at_t : elem_at t g.doers ≡ some c) where
  pub complete-IsKept :
      (r : A) (p : Phase A)
      → c.phase ≡ leading
      → is_leader p ≡ true
      → is_running p ≡ false
      → is_waiting p ≡ false
      → IsKept (complete g t c r p)
  unfolding complete
  complete-IsKept r p w lead over awake =
      let c' : Doer A = record c { phase = p } in
      let mine = k.found t c at_t (ap is_leader w) in
      let running =
        count_if_pos (runs c.call) t g.doers c at_t (rw (w, (==_iff c.call c.call).1 refl) refl) in
      record {
        one = λ key.
            same_count (leads key) t g.doers c c' at_t
              (ap (λ b. b && bytes_eq c.key key) (ap is_leader w ∙ sym lead))
            ∙ k.one key;
        found = λ u d e l. elim (elem_at-put_at t u g.doers c' d e) [
          | inl same ↦ subst (λ (x : Doer A). g.calls x.key ≡ some x.call) (sym same) mine
          | inr old ↦ k.found u d old l
        ];
        once = λ i. elim (Bool-cases (c.call == i)) [
          | inl same ↦ rw same (
              ground (
                arith,
                count_if-put_at (runs i) t g.doers c c' at_t,
                k.once i,
                ap is_running w,
                over,
              ))
          | inr other ↦
              rw other (ground (arith, count_if-put_at (runs i) t g.doers c c' at_t, k.once i))
        ];
        closed = λ u d e l. elim (Bool-cases (c.call == d.call)) [
          | inl same ↦ rw same refl
          | inr other ↦ elim (elem_at-put_at t u g.doers c' d e) [
            | inl new ↦ cc (other, (==_iff c.call d.call).1 (sym (ap (λ (x : Doer A). x.call) new)))
            | inr old ↦ rw other (k.closed u d old l)
          ]
        ];
        joined = λ u d e l n. elim (elem_at-put_at t u g.doers c' d e) [
          | inl new ↦ cc (awake, l, ap (λ (x : Doer A). is_waiting x.phase) new)
          | inr old ↦ elim (Bool-cases (c.call == d.call)) [
            | inl same ↦ cc (rw same at n)
            | inr other ↦ k.joined u d old l (rw other at n)
          ]
        ];
        fresh = λ i h. elim (Bool-cases (c.call == i)) [
          | inl same ↦ absurd (
              omega
                (arith, running, (k.fresh c.call (omega (arith, h, (==_iff c.call i).0 same))).0))
          | inr other ↦ rw other (
            ground (arith, count_if-put_at (runs i) t g.doers c c' at_t, (k.fresh i h).0),
            (k.fresh i h).1,
          )
        ];
      }

  -- A delete leaves no leader of the key.
  delete_one :
      (p : Phase A)
      → is_closing c.phase ≡ true
      → is_leader c.phase ≡ true
      → is_leader p ≡ false
      → (key : Bytes)
      → count_if (leads key) (put_at t (record c { phase = p }) g.doers)
        ≡ (if has_value (put_call g.calls c.key none key) then 1 else 0)
  delete_one p closing lead gone key =
      let moved = count_if-put_at (leads key) t g.doers c (record c { phase = p }) at_t in
      elim (Bool-cases (bytes_eq c.key key)) [
        | inl same ↦
            let had : g.calls key ≡ some c.call =
              subst (λ x. g.calls x ≡ some c.call) ((bytes_eq_iff c.key key).0 same)
                (k.found t c at_t lead) in
            rw same (ground (arith, moved, k.one key, had, lead, gone, same))
        | inr other ↦ rw other (ground (arith, moved, k.one key, other))
      ]

  pub delete_key-IsKept :
      (p : Phase A)
      → is_closing c.phase ≡ true
      → is_leader c.phase ≡ true
      → is_running c.phase ≡ false
      → is_leader p ≡ false
      → is_running p ≡ false
      → is_waiting p ≡ false
      → is_closing p ≡ false
      → IsKept (delete_key g t c p)
  unfolding delete_key
  delete_key-IsKept p closing lead still gone over awake shut =
      let c' : Doer A = record c { phase = p } in
      let runs_same = λ (i : ℕ).
        same_count (runs i) t g.doers c c' at_t (ap (λ b. b && c.call == i) (still ∙ sym over)) in
      let calls' = put_call g.calls c.key none in
      record {
        one = delete_one p closing lead gone;
        found = λ u d e l. elim (elem_at-put_at t u g.doers c' d e) [
          | inl new ↦ cc (gone, l, ap (λ (x : Doer A). is_leader x.phase) new)
          | inr old ↦ elim (Bool-cases (bytes_eq c.key d.key)) [
            | inl same ↦
                let left = count_if_pos (leads c.key) u (put_at t c' g.doers) d e (
                  rw (l, (bytes_eq_iff d.key c.key).1 (sym ((bytes_eq_iff c.key d.key).0 same)))
                    refl) in
                let none_left = delete_one p closing lead gone c.key in
                absurd (omega (arith, left, rw ((bytes_eq_iff c.key c.key).1 refl) at none_left))
            | inr other ↦ rw other (k.found u d old l)
          ]
        ];
        once = λ i. omega (arith, runs_same i, k.once i);
        closed = λ u d e l. elim (elem_at-put_at t u g.doers c' d e) [
          | inl new ↦ cc (shut, l, ap (λ (x : Doer A). is_closing x.phase) new)
          | inr old ↦ k.closed u d old l
        ];
        joined = λ u d e l n. elim (elem_at-put_at t u g.doers c' d e) [
          | inl new ↦ cc (awake, l, ap (λ (x : Doer A). is_waiting x.phase) new)
          | inr old ↦ elim (Bool-cases (bytes_eq c.key d.key)) [
            | inl same ↦
                let mine : some c.call ≡ some d.call =
                  sym (k.found t c at_t lead)
                  ∙ (ap g.calls ((bytes_eq_iff c.key d.key).0 same) ∙ k.joined u d old l n) in
                let one_call : c.call ≡ d.call = cc mine in
                cc (
                  k.closed t c at_t closing,
                  n,
                  ap (λ i. has_value (g.res i)) one_call,
                  ap has_value n,
                )
            | inr other ↦ rw other (k.joined u d old l n)
          ]
        ];
        fresh = λ i h. (runs_same i ∙ (k.fresh i h).0, (k.fresh i h).1);
      }

  pub wake_with-IsKept : (o : Option A) → c.phase ≡ waiting → IsKept (wake_with g t c o)
  unfolding wake_with
  wake_with-IsKept none w = k
  wake_with-IsKept (some r) w =
      let c' : Doer A = record c { phase = returned r true 0 } in
      record {
        one = λ key.
            same_count (leads key) t g.doers c c' at_t
              (ap (λ x. is_leader x && bytes_eq c.key key) w)
            ∙ k.one key;
        found = λ u d e l. elim (elem_at-put_at t u g.doers c' d e) [
          | inl new ↦ cc (l, ap (λ (x : Doer A). is_leader x.phase) new)
          | inr old ↦ k.found u d old l
        ];
        once = λ i. omega (
          arith,
          same_count (runs i) t g.doers c c' at_t (ap (λ x. is_running x && c.call == i) w),
          k.once i,
        );
        closed = λ u d e l. elim (elem_at-put_at t u g.doers c' d e) [
          | inl new ↦ cc (l, ap (λ (x : Doer A). is_closing x.phase) new)
          | inr old ↦ k.closed u d old l
        ];
        joined = λ u d e l n. elim (elem_at-put_at t u g.doers c' d e) [
          | inl new ↦ cc (l, ap (λ (x : Doer A). is_waiting x.phase) new)
          | inr old ↦ k.joined u d old l n
        ];
        fresh = λ i h. (
          same_count (runs i) t g.doers c c' at_t (ap (λ x. is_running x && c.call == i) w)
              ∙ (k.fresh i h).0,
          (k.fresh i h).1,
        );
      }
