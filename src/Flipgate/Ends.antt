-- ===== src/Flipgate/Ends.antt =====
-- The end of a hold: what lastEnd, lastEndBy and prevEnd remember, and who gets the token.
use apt_cacher_ultra.Base.{
  ℕ, ◌≡◌, refl, ◌∙◌, inl, inr, Bool, true, false, none, some, List, [], ◌∷◌, ltb, ◌==◌, ==_iff,
  if◌then◌else◌, arith, Bool-cases, subst,
}
use apt_cacher_ultra.Flipgate.State.{Gate}
use apt_cacher_ultra.Flipgate.Quiet.{is_entry, other_end}
use apt_cacher_ultra.Flipgate.Holds.{
  start_hold, mark_ended, record_end, grant_next, pass_token, end_hold,
}

-- The holds that held requests and have ended, newest first: each with its entry and its end.
abbrev pub Ends : Type 0
Ends = List (ℕ × ℕ)

-- The newest end by another entry, 0 if there is none.
unfoldable pub newest_other : ℕ → Ends → ℕ
newest_other e [] = 0
newest_other e ((i, t) ∷ ends) = if i == e then newest_other e ends else t

-- The gate's three fields, from the ends.
abbrev pub Remembers : Gate → Ends → Type 0
Remembers g [] = (g.last_end ≡ 0) × (g.last_end_by ≡ none) × (g.prev_end ≡ 0)
Remembers g ((i, t) ∷ ends) =
    (g.last_end ≡ t) × (g.last_end_by ≡ some i) × (g.prev_end ≡ newest_other i ends)

-- The three fields are enough to find the newest end by an entry other than any given one.
pub other_end-newest_other :
    (g : Gate) (ends : Ends) (e : ℕ) → Remembers g ends → other_end g e ≡ newest_other e ends
unfolding other_end newest_other is_entry
other_end-newest_other g [] e (p, q, r) = rw (q, p) refl
other_end-newest_other g ((i, t) ∷ ends) e (p, q, r) = elim (Bool-cases (i == e)) [
  | inl h ↦ rw (q, is_entry, h, r, (==_iff i e).0 h) refl
  | inr h ↦ rw (q, is_entry, h, p) refl
]

-- What start_hold and its callers leave of the three fields.
abbrev SameEnds : Gate → Gate → Type 0
SameEnds g g' =
    (g'.last_end ≡ g.last_end) × (g'.last_end_by ≡ g.last_end_by) × (g'.prev_end ≡ g.prev_end)

grant_next-SameEnds : (g : Gate) (ws : List ℕ) (now : ℕ) → SameEnds g (grant_next g ws now)
unfolding grant_next start_hold
grant_next-SameEnds g [] now = (refl, refl, refl)
grant_next-SameEnds g (w ∷ ws) now = ground arith

pass_token-SameEnds : (g : Gate) (h now : ℕ) → SameEnds g (pass_token g h now)
unfolding pass_token
pass_token-SameEnds g h now = elim (Bool-cases (is_entry g.holder h)) [
  | inl e ↦ rw e (grant_next-SameEnds (record g { holder = none }) g.queue now)
  | inr e ↦ rw e (refl, refl, refl)
]

Remembers-SameEnds :
    (g g' : Gate) (ends : Ends) → SameEnds g g' → Remembers g ends → Remembers g' ends
Remembers-SameEnds g g' [] s r = (s.0 ∙ r.0, s.1 ∙ r.1, s.2 ∙ r.2)
Remembers-SameEnds g g' (x ∷ ends) s r = (s.0 ∙ r.0, s.1 ∙ r.1, s.2 ∙ r.2)

-- The ends after this one.
unfoldable pub after_end : ℕ → ℕ → ℕ → Ends → Ends
after_end e held_total now ends = if ltb 0 held_total then (e, now) ∷ ends else ends

record_end-Remembers :
    (g : Gate) (e held_total now : ℕ) (ends : Ends)
    → Remembers g ends
    → Remembers (record_end g e held_total now) (after_end e held_total now ends)
unfolding record_end after_end is_entry other_end
record_end-Remembers g e held_total now ends r = elim (Bool-cases (ltb 0 held_total)) [
  | inl h ↦ rw h (refl, refl, other_end-newest_other g ends e r)
  | inr h ↦ rw h r
]

mark_ended-SameEnds :
    (g : Gate) (h : ℕ) (expired : Bool) (now : ℕ) → SameEnds g (mark_ended g h expired now)
unfolding mark_ended
mark_ended-SameEnds g h expired now = (refl, refl, refl)

-- Ending a hold keeps the three fields right: they then remember this end too, if the hold held
-- requests, and a hold that has ended before changes nothing.
pub end_hold-Remembers :
    (g : Gate) (h : ℕ) (expired : Bool) (now : ℕ) (ends : Ends)
    → Remembers g ends
    → Remembers (end_hold g h expired now).0 (
        if (g.hold_at h).ended
        then ends
        else after_end (g.hold_at h).entry (g.hold_at h).held_total now ends)
unfolding end_hold
end_hold-Remembers g h expired now ends r = elim (Bool-cases (g.hold_at h).ended) [
  | inl e ↦ rw e r
  | inr e ↦
      let marked =
        Remembers-SameEnds g (mark_ended g h expired now) ends (mark_ended-SameEnds g h expired now)
          r in
      let recorded =
        record_end-Remembers (mark_ended g h expired now) (g.hold_at h).entry
          (g.hold_at h).held_total now ends marked in
      let g' =
        record_end (mark_ended g h expired now) (g.hold_at h).entry (g.hold_at h).held_total now in
      let ends' = after_end (g.hold_at h).entry (g.hold_at h).held_total now ends in
      rw e
        (Remembers-SameEnds g' (pass_token g' h now) ends' (pass_token-SameEnds g' h now) recorded)
]

same : (n : ℕ) → (n == n) ≡ true
same n = (==_iff n n).1 refl

-- The waiter's hold n, of the entry e, has started and has the token; the others still wait.
abbrev pub Granted : ℕ → ℕ → Gate → ℕ → List ℕ → ℕ → Type 0
Granted n e g w ws now =
    (g.holder ≡ some n)
    × (g.queue ≡ ws)
    × ((g.waiter_at w).hold ≡ some n)
    × ((g.hold_at n).entry ≡ e)
    × ((g.hold_at n).start ≡ now)
    × ((g.hold_at n).ended ≡ false)

grant_next-Granted :
    (g : Gate) (w : ℕ) (ws : List ℕ) (now : ℕ)
    → g.closed ≡ false
    → Granted g.next_hold (g.waiter_at w).entry (grant_next g (w ∷ ws) now) w ws now
unfolding grant_next start_hold
grant_next-Granted g w ws now c =
    rw (c, same g.next_hold, same w) (refl, refl, refl, refl, refl, refl)

is_entry_refl : (h : ℕ) → is_entry (some h) h ≡ true
unfolding is_entry
is_entry_refl h = same h

pass_token-Granted :
    (g : Gate) (h w : ℕ) (ws : List ℕ) (now : ℕ)
    → g.holder ≡ some h
    → g.closed ≡ false
    → g.queue ≡ w ∷ ws
    → Granted g.next_hold (g.waiter_at w).entry (pass_token g h now) w ws now
unfolding pass_token
pass_token-Granted g h w ws now p c q =
    rw (p, is_entry_refl h, q)
      (grant_next-Granted (record g { holder = none; queue = w ∷ ws }) w ws now c)

-- What the end of a hold leaves for the next one.
abbrev SameQueue : Gate → Gate → Type 0
SameQueue g g' =
    (g'.holder ≡ g.holder)
    × (g'.closed ≡ g.closed)
    × (g'.queue ≡ g.queue)
    × (g'.next_hold ≡ g.next_hold)
    × (g'.waiter_at ≡ g.waiter_at)

record_end-SameQueue :
    (g : Gate) (e held_total now : ℕ) → SameQueue g (record_end g e held_total now)
unfolding record_end
record_end-SameQueue g e held_total now = elim (Bool-cases (ltb 0 held_total)) [
  | inl h ↦ rw h (refl, refl, refl, refl, refl)
  | inr h ↦ rw h (refl, refl, refl, refl, refl)
]

mark_ended-SameQueue :
    (g : Gate) (h : ℕ) (expired : Bool) (now : ℕ) → SameQueue g (mark_ended g h expired now)
unfolding mark_ended
mark_ended-SameQueue g h expired now = (refl, refl, refl, refl, refl)

-- When a hold that has the token ends at an open gate, the flip that has waited longest gets it:
-- its hold, a new one of its entry, starts at that moment and has the token.
pub end_hold_grants :
    (g : Gate) (h w : ℕ) (ws : List ℕ) (expired : Bool) (now : ℕ)
    → g.holder ≡ some h
    → (g.hold_at h).ended ≡ false
    → g.closed ≡ false
    → g.queue ≡ w ∷ ws
    → Granted g.next_hold (g.waiter_at w).entry (end_hold g h expired now).0 w ws now
unfolding end_hold mark_ended
end_hold_grants g h w ws expired now p e c q =
    let marked = mark_ended g h expired now in
    let ended = record_end marked (g.hold_at h).entry (g.hold_at h).held_total now in
    let (p', c', q', n', w') =
      record_end-SameQueue marked (g.hold_at h).entry (g.hold_at h).held_total now in
    let all = pass_token-Granted ended h w ws now (p' ∙ p) (c' ∙ c) (q' ∙ q) in
    rw e (
      subst (λ n. Granted n (g.waiter_at w).entry (pass_token ended h now) w ws now) n'
        (subst (λ f. Granted ended.next_hold (f w).entry (pass_token ended h now) w ws now) w' all))
