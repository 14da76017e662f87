-- ===== src/Flipgate/Token.antt =====
-- The hold token: at most one hold runs, and the token does not lie idle while a flip waits for it.
use apt_cacher_ultra.Base.{
  ℕ, ◌≡◌, refl, sym, ap, ◌∙◌, ◌≢◌, inl, inr, Bool, true, false, Option, none, some, List, [], ◌∷◌,
  ltb, ◌==◌, ==_iff, if◌then◌else◌, Bool-cases, subst,
}
use apt_cacher_ultra.Flipgate.State.{Gate, update}
use apt_cacher_ultra.Flipgate.Quiet.{is_entry}
use apt_cacher_ultra.Flipgate.Holds.{
  start_hold, mark_ended, record_end, grant_next, pass_token, end_hold,
}

-- A hold that has not ended is the one with the token, and the other way round; and an open gate
-- whose token is free has no flip in its queue.
abbrev pub IsExclusive : Option ℕ → List ℕ → Bool → (ℕ → Bool) → Type 0
IsExclusive holder queue closed ended =
    ((h : ℕ) → ended h ≡ false → holder ≡ some h)
    × ((h : ℕ) → holder ≡ some h → ended h ≡ false)
    × (holder ≡ none → closed ≡ false → queue ≡ [])

abbrev pub ended_of : Gate → ℕ → Bool
ended_of g h = (g.hold_at h).ended

abbrev pub IsSingle : Gate → Type 0
IsSingle g = IsExclusive g.holder g.queue g.closed (ended_of g)

-- What an operation keeps that has nothing to do with the token.
abbrev pub SameToken : Gate → Gate → Type 0
SameToken g g' =
    (g'.holder ≡ g.holder)
    × (g'.queue ≡ g.queue)
    × (g'.closed ≡ g.closed)
    × ((h : ℕ) → ended_of g' h ≡ ended_of g h)

pub SameToken-IsSingle : (g g' : Gate) → SameToken g g' → IsSingle g → IsSingle g'
SameToken-IsSingle g g' (p, q, c, e) (one, live, busy) = (
  λ h x. p ∙ one h (sym (e h) ∙ x),
  λ h x. e h ∙ live h (sym p ∙ x),
  λ x y. q ∙ busy (sym p ∙ x) (sym c ∙ y),
)

some_inj : {a b : ℕ} → some a ≡ some b → a ≡ b
some_inj e = cc e

pub start_hold-IsSingle :
    (g : Gate) (e now : ℕ) → ((h : ℕ) → ended_of g h ≡ true) → IsSingle (start_hold g e now)
unfolding start_hold
start_hold-IsSingle g e now all_ended = (
  λ h x. elim (Bool-cases (g.next_hold == h)) [
    | inl s ↦ ap some ((==_iff g.next_hold h).0 s)
    | inr d ↦ cc (all_ended h, rw (ended_of, d) at x)
  ],
  λ h x. rw (ended_of, (==_iff g.next_hold h).1 (some_inj x)) refl,
  λ x y. cc x,
)

-- What grant_next leaves when the gate is open.
abbrev next_granted : Gate → ℕ → List ℕ → ℕ → Gate
next_granted g w ws now =
    let g' = start_hold (record g { queue = ws }) (g.waiter_at w).entry now in
    record g' {
      waiter_at = update g'.waiter_at w (record (g'.waiter_at w) { hold = some g.next_hold });
    }

grant_next-IsSingle :
    (g : Gate) (ws : List ℕ) (now : ℕ)
    → ((h : ℕ) → ended_of g h ≡ true)
    → g.holder ≡ none
    → g.queue ≡ ws
    → IsSingle (grant_next g ws now)
unfolding grant_next start_hold
grant_next-IsSingle g [] now all_ended free q =
    (λ h x. cc (all_ended h, x), λ h x. cc (free, x), λ x y. q)
grant_next-IsSingle g (w ∷ ws) now all_ended free q = elim (Bool-cases g.closed) [
  | inl c ↦
      subst (λ b. IsSingle (if b then g else next_granted g w ws now)) (sym c)
        (λ h x. cc (all_ended h, x), λ h x. cc (free, x), λ x y. cc (c, y))
  | inr o ↦
      subst (λ b. IsSingle (if b then g else next_granted g w ws now)) (sym o)
        (start_hold-IsSingle (record g { queue = ws }) (g.waiter_at w).entry now all_ended)
]

-- The state between the end of a hold and the next grant: the hold has ended, and may still have
-- the token.
abbrev IsEnding : Gate → ℕ → Type 0
IsEnding g h =
    ((k : ℕ) → ended_of g k ≡ false → g.holder ≡ some k)
    × ((k : ℕ) → g.holder ≡ some k → k ≢ h → ended_of g k ≡ false)
    × (g.holder ≡ none → g.closed ≡ false → g.queue ≡ [])
    × (ended_of g h ≡ true)

is_entry_iff : (o : Option ℕ) (h : ℕ) → is_entry o h ≡ true → o ≡ some h
unfolding is_entry
is_entry_iff none h e = cc e
is_entry_iff (some i) h e = ap some ((==_iff i h).0 e)

is_entry_other : (o : Option ℕ) (h : ℕ) → is_entry o h ≡ false → o ≢ some h
unfolding is_entry
is_entry_other none h e x = cc x
is_entry_other (some i) h e x = cc (e, (==_iff i h).1 (some_inj x))

pass_token-IsSingle : (g : Gate) (h now : ℕ) → IsEnding g h → IsSingle (pass_token g h now)
unfolding pass_token
pass_token-IsSingle g h now (one, live, busy, over) = elim (Bool-cases (is_entry g.holder h)) [
  | inl e ↦ rw e (
      grant_next-IsSingle (record g { holder = none }) g.queue now
        (λ k. elim (Bool-cases (ended_of g k)) [
          | inl x ↦ x
          | inr x ↦ cc (over, some_inj (sym (is_entry_iff g.holder h e) ∙ one k x))
        ])
        refl refl)
  | inr e ↦
      rw e (one, λ k x. live k x (λ same. is_entry_other g.holder h e (x ∙ ap some same)), busy)
]

mark_ended-IsEnding :
    (g : Gate) (h : ℕ) (expired : Bool) (now : ℕ)
    → IsSingle g
    → IsEnding (mark_ended g h expired now) h
unfolding mark_ended
mark_ended-IsEnding g h expired now (one, live, busy) = (
  λ k x. elim (Bool-cases (h == k)) [
    | inl s ↦ cc (rw (ended_of, s) at x)
    | inr d ↦ one k (rw (ended_of, d) at x)
  ],
  λ k p other. elim (Bool-cases (h == k)) [
    | inl s ↦ absurd (other (sym ((==_iff h k).0 s)))
    | inr d ↦ rw (ended_of, d) (live k p)
  ],
  busy,
  rw (ended_of, (==_iff h h).1 refl) refl,
)

record_end-SameToken :
    (g : Gate) (e held_total now : ℕ) → SameToken g (record_end g e held_total now)
unfolding record_end
record_end-SameToken g e held_total now = elim (Bool-cases (ltb 0 held_total)) [
  | inl h ↦ rw h (refl, refl, refl, λ k. refl)
  | inr h ↦ rw h (refl, refl, refl, λ k. refl)
]

SameToken-IsEnding : (g g' : Gate) (h : ℕ) → SameToken g g' → IsEnding g h → IsEnding g' h
SameToken-IsEnding g g' h (p, q, c, e) (one, live, busy, over) = (
  λ k x. p ∙ one k (sym (e k) ∙ x),
  λ k x other. e k ∙ live k (sym p ∙ x) other,
  λ x y. q ∙ busy (sym p ∙ x) (sym c ∙ y),
  e h ∙ over,
)

pub end_hold-IsSingle :
    (g : Gate) (h : ℕ) (expired : Bool) (now : ℕ)
    → IsSingle g
    → IsSingle (end_hold g h expired now).0
unfolding end_hold
end_hold-IsSingle g h expired now s = elim (Bool-cases (g.hold_at h).ended) [
  | inl e ↦ rw e s
  | inr e ↦
      let marked = mark_ended g h expired now in
      let hold = g.hold_at h in
      let g' = record_end marked hold.entry hold.held_total now in
      rw e (
        pass_token-IsSingle g' h now (
          SameToken-IsEnding marked g' h
            (record_end-SameToken marked hold.entry hold.held_total now)
            (mark_ended-IsEnding g h expired now s)))
]
