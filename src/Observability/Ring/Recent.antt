-- ===== src/Observability/Ring/Recent.antt =====
-- A ring shows the newest events: Record and Snapshot against the list of all events so far.
use apt_cacher_ultra.Base.{
  ℕ, zero, suc, ◌+◌, ◌<◌, ◌≡◌, refl, sym, ap, ◌∙◌, Bool, true, false, not, ◌&&◌, some, List, [],
  ◌∷◌, ◌==◌, if◌then◌else◌, arith, length, take,
}
use apt_cacher_ultra.Observability.Ring.{
  Ring, blanks, new_ring, before, walk_back, ring_len, snapshot, record_all,
}
use apt_cacher_ultra.Observability.Ring.Walk.{onto, newest_first, walk_part, walk_whole}
use apt_cacher_ultra.Observability.Ring.Records.{Shown, IsRing, take_whole, record_all-IsRing}

module _ {ℓ} {A : Type ℓ} where
  slots-Shown :
      (b : Bool) (slots head : ℕ) (buf h xs ys : List A)
      → buf ≡ onto xs ys
      → head ≡ length xs
      → slots ≡ length xs + length ys
      → 0 < length ys
      → Shown b slots h xs ys
      → (if not b && head == 0
          then some []
          else walk_back slots (if b then slots else head) (before slots head) buf)
        ≡ some (take slots h)
  unfolding Shown
  slots-Shown true slots head buf h xs ys stored head_at full_size room s =
      rw (s, stored, head_at, full_size) (walk_whole xs ys room)
  slots-Shown false slots head buf h [] ys stored head_at full_size room s =
      rw (s, head_at) (ap some (sym (take_whole slots [] (omega arith))))
  slots-Shown false slots head buf h (x ∷ xs) ys stored head_at full_size room s =
      let some_event : (suc (length xs) == 0) ≡ false = ground arith in
      rw (s, stored, head_at, some_event, take_whole slots (x ∷ xs) (omega arith))
        (walk_part slots (x ∷ xs) ys)

  snapshot-IsRing :
      (r : Ring A) (h xs ys : List A) → IsRing r h xs ys → snapshot r ≡ some (take r.cap h)
  unfolding snapshot ring_len
  snapshot-IsRing r h xs ys v =
      slots-Shown r.full r.cap r.head r.buf h xs ys v.stored v.head_at v.cap_is v.room v.shown

  length-blanks : (n : ℕ) (blank : A) → length (blanks n blank) ≡ n
  unfolding blanks
  length-blanks zero blank = refl
  length-blanks (suc n) blank = ap suc (length-blanks n blank)

-- A ring of a positive capacity takes any events with no panic, and Snapshot then gives the newest of
-- them, the last first, as many as the capacity.
pub snapshot-record_all {ℓ} :
    {A : Type ℓ} (blank : A) (capacity : ℕ) (es : List A)
    → 0 < capacity
    → (r : Ring A) × (record_all (new_ring blank capacity) es ≡ some r)
      × (snapshot r ≡ some (take capacity (newest_first es)))
unfolding new_ring
snapshot-record_all {A} blank zero es h = absurd (omega arith)
snapshot-record_all {A} blank (suc n) es h =
    let start : Ring A = record {
      buf = blanks (suc n) blank;
      head = 0;
      full = false;
      cap = suc n;
    } in
    let fresh : IsRing start [] [] (blanks (suc n) blank) = record {
      stored = unfold onto in refl;
      head_at = refl;
      cap_is = omega (arith, length-blanks (suc n) blank);
      room = omega (arith, length-blanks (suc n) blank);
      shown = unfold Shown in refl;
    } in
    let (r, xs, ys, recorded, same, v) =
      record_all-IsRing start es [] [] (blanks (suc n) blank) fresh in
    (
      r,
      recorded,
      snapshot-IsRing r (newest_first es) xs ys v ∙ ap (λ k. some (take k (newest_first es))) same,
    )
