-- ===== src/Observability/Ring/Records.antt =====
-- Record keeps the slots in order: what they have, against the list of all events so far.
use apt_cacher_ultra.Base.{
  ℕ, zero, suc, ◌+◌, ◌<◌, ◌≤◌, ◌≡◌, refl, sym, ap, ◌∙◌, Bool, true, false, some, List, [], ◌∷◌,
  ◌++◌, ◌==◌, arith, length, take, length-append, append-nil, append_assoc, subst,
}
use apt_cacher_ultra.Observability.Ring.{Ring, store, advance, record_event, record_all}
use apt_cacher_ultra.Observability.Ring.Walk.{onto, onto-nil, onto_twice, length-onto, store-onto}

module _ {ℓ} {A : Type ℓ} where
  -- `xs` are the events of this round, the last first, and `ys` what the slots from `head` on have.
  unfoldable pub Shown : Bool → ℕ → List A → List A → List A → Type ℓ
  Shown true slots h xs ys = take slots h ≡ xs ++ onto ys []
  Shown false slots h xs ys = h ≡ xs

  pub record IsRing (r : Ring A) (h xs ys : List A) : Type ℓ where
    pub stored : r.buf ≡ onto xs ys
    pub head_at : r.head ≡ length xs
    pub cap_is : r.cap ≡ length xs + length ys
    pub room : 0 < length ys
    pub shown : Shown r.full r.cap h xs ys

  take_less :
      (n : ℕ) (h xs : List A) (x : A)
      → length xs ≡ n
      → take (suc n) h ≡ xs ++ (x ∷ [])
      → take n h ≡ xs
  take_less zero h [] x l e = refl
  take_less zero h (y ∷ xs) x l e = absurd (omega arith)
  take_less (suc n) [] [] x l e = absurd (omega arith)
  take_less (suc n) [] (y ∷ xs) x l e = cc e
  take_less (suc n) (z ∷ h) [] x l e = absurd (omega arith)
  take_less (suc n) (z ∷ h) (y ∷ xs) x l e = ground (arith, take_less n h xs x)

  pub take_whole : (n : ℕ) (xs : List A) → length xs ≤ n → take n xs ≡ xs
  take_whole zero [] l = refl
  take_whole zero (x ∷ xs) l = absurd (omega arith)
  take_whole (suc n) [] l = refl
  take_whole (suc n) (x ∷ xs) l = ap (◌∷◌ x) (take_whole n xs (omega arith))

  -- A full ring forgets the oldest event when the next comes.
  take_next :
      (slots : ℕ) (e : A) (h xs : List A) (x : A) (ys : List A)
      → slots ≡ length xs + suc (length ys)
      → take slots h ≡ xs ++ onto (x ∷ ys) []
      → take slots (e ∷ h) ≡ e ∷ (xs ++ onto ys [])
  unfolding onto
  take_next zero e h xs x ys l s = absurd (omega arith)
  take_next (suc k) e h xs x ys l s = ap (◌∷◌ e) (
      take_less k h (xs ++ onto ys []) x
        (omega (arith, length-append xs (onto ys []), length-onto ys []))
        (s
          ∙ (ap (λ zs. xs ++ zs) (onto-nil ys (x ∷ []))
              ∙ sym (append_assoc xs (onto ys []) (x ∷ [])))))

  record_event_lem :
      (r : Ring A) (e : A) (xs : List A) (x : A) (rest : List A)
      → r.buf ≡ onto xs (x ∷ rest)
      → r.head ≡ length xs
      → record_event r e ≡ some (advance r (onto xs (e ∷ rest)))
  record_event_lem r e xs x rest b l = stored_lem (onto xs (e ∷ rest)) (
      ap (λ buf. store buf r.head e) b
      ∙ (ap (λ i. store (onto xs (x ∷ rest)) i e) l ∙ store-onto xs x rest e))
    where
      stored_lem :
          (buf : List A) → store r.buf r.head e ≡ some buf → record_event r e ≡ some (advance r buf)
      stored_lem buf q = unfold record_event in rw (q, record_event) refl

  inner-Shown :
      (b : Bool) (slots : ℕ) (e : A) (h xs : List A) (x : A) (ys : List A)
      → slots ≡ length xs + suc (length ys)
      → Shown b slots h xs (x ∷ ys)
      → Shown b slots (e ∷ h) (e ∷ xs) ys
  unfolding Shown
  inner-Shown true slots e h xs x ys l s = take_next slots e h xs x ys l s
  inner-Shown false slots e h xs x ys l s = ap (◌∷◌ e) s

  last-Shown :
      (b : Bool) (slots : ℕ) (e : A) (h xs : List A) (x : A)
      → slots ≡ length xs + 1
      → Shown b slots h xs (x ∷ [])
      → take slots (e ∷ h) ≡ e ∷ xs
  unfolding Shown
  last-Shown true slots e h xs x l s =
      take_next slots e h xs x [] l s ∙ ap (◌∷◌ e) (unfold onto in append-nil xs)
  last-Shown false slots e h xs x l s =
      subst (λ k. take slots (e ∷ k) ≡ e ∷ xs) (sym s) (take_whole slots (e ∷ xs) (omega arith))

  -- Record writes a slot in the middle of the ring.
  record_inner :
      (r : Ring A) (e : A) (h xs : List A) (x y : A) (ys : List A)
      → IsRing r h xs (x ∷ y ∷ ys)
      → (r' : Ring A) × (record_event r e ≡ some r')
        × (r'.cap ≡ r.cap)
        × IsRing r' (e ∷ h) (e ∷ xs) (y ∷ ys)
  record_inner r e h xs x y ys v =
      let buf = onto xs (e ∷ y ∷ ys) in
      (
        record r { buf = buf; head = r.head + 1 },
        record_event_lem r e xs x (y ∷ ys) v.stored v.head_at ∙ ap some (steps buf),
        refl,
        record {
          stored = unfold onto in refl;
          head_at = omega (arith, v.head_at);
          cap_is = omega (arith, v.cap_is);
          room = omega arith;
          shown = inner-Shown r.full r.cap e h xs x (y ∷ ys) v.cap_is v.shown;
        },
      )
    where
      inside : (r.head + 1 == r.cap) ≡ false
      inside = ground (arith, v.head_at, v.cap_is)

      steps : (buf : List A) → advance r buf ≡ record r { buf = buf; head = r.head + 1 }
      steps buf = unfold advance in rw inside refl

  -- Record writes the last slot.
  record_last :
      (r : Ring A) (e : A) (h xs : List A) (x : A)
      → IsRing r h xs (x ∷ [])
      → (r' : Ring A) × (record_event r e ≡ some r')
        × (r'.cap ≡ r.cap)
        × IsRing r' (e ∷ h) [] (onto (e ∷ xs) [])
  record_last r e h xs x v =
      let buf = onto xs (e ∷ []) in
      (
        record r { buf = buf; head = 0; full = true },
        record_event_lem r e xs x [] v.stored v.head_at ∙ ap some (steps buf),
        refl,
        record {
          stored = unfold onto in refl;
          head_at = refl;
          cap_is = omega (arith, v.cap_is, length-onto (e ∷ xs) []);
          room = omega (arith, length-onto (e ∷ xs) []);
          shown =
              unfold Shown in
              (last-Shown r.full r.cap e h xs x v.cap_is v.shown ∙ sym (onto_back (e ∷ xs)));
        },
      )
    where
      outside : (r.head + 1 == r.cap) ≡ true
      outside = ground (arith, v.head_at, v.cap_is)

      steps : (buf : List A) → advance r buf ≡ record r { buf = buf; head = 0; full = true }
      steps buf = unfold advance in rw outside refl

      onto_back : (zs : List A) → [] ++ onto (onto zs []) [] ≡ zs
      onto_back zs = unfold onto in onto_twice zs []

  record_event-IsRing :
      (r : Ring A) (e : A) (h xs ys : List A)
      → IsRing r h xs ys
      → (r' : Ring A) × (xs' : List A) × (ys' : List A) × (record_event r e ≡ some r')
        × (r'.cap ≡ r.cap)
        × IsRing r' (e ∷ h) xs' ys'
  record_event-IsRing r e h xs [] v = absurd (omega (arith, v.room))
  record_event-IsRing r e h xs (x ∷ []) v =
      let (r', same, c, v') = record_last r e h xs x v in (r', [], onto (e ∷ xs) [], same, c, v')
  record_event-IsRing r e h xs (x ∷ y ∷ ys) v =
      let (r', same, c, v') = record_inner r e h xs x y ys v in (r', e ∷ xs, y ∷ ys, same, c, v')

  pub record_all-IsRing :
      (r : Ring A) (es h xs ys : List A)
      → IsRing r h xs ys
      → (r' : Ring A) × (xs' : List A) × (ys' : List A) × (record_all (some r) es ≡ some r')
        × (r'.cap ≡ r.cap)
        × IsRing r' (onto es h) xs' ys'
  unfolding record_all onto
  record_all-IsRing r [] h xs ys v = (r, xs, ys, refl, refl, v)
  record_all-IsRing r (e ∷ es) h xs ys v =
      let (r1, xs1, ys1, one, c1, v1) = record_event-IsRing r e h xs ys v in
      let (r2, xs2, ys2, all, c2, v2) = record_all-IsRing r1 es (e ∷ h) xs1 ys1 v1 in
      (r2, xs2, ys2, rw (one, record_all) all, c2 ∙ c1, v2)
