-- ===== src/Flipgate/Starts.antt =====
-- The start of a hold lies behind the ends of the others.
use apt_cacher_ultra.Base.{
  ℕ, suc, ◌≤◌, ◌≡◌, refl, sym, ◌∙◌, inl, inr, Bool, true, false, not, ◌&&◌, ◌||◌, Option, none,
  some, List, [], ◌∷◌, ◌++◌, ltb, ◌==◌, ==_iff, if◌then◌else◌, arith, Bool-cases, Option-cases,
  subst,
}
use apt_cacher_ultra.Flipgate.State.{Gate, new, empty_gate, min_quiet, max_quiet, update}
use apt_cacher_ultra.Flipgate.Quiet.{is_some, is_entry}
use apt_cacher_ultra.Flipgate.Holds.{
  ask, give_up, start_hold, mark_ended, record_end, grant_next, pass_token, end_hold, close, Cause,
  is_timeout, remove, no_waiter, refused_closed, granted, queued,
}
use apt_cacher_ultra.Flipgate.Serves.{entry, join, anchor_released, done, purge}
use apt_cacher_ultra.Flipgate.Flip.{begin_flip, end_flip, abort, skip_hold, count_cut_short}
use apt_cacher_ultra.Flipgate.Token.{IsSingle}
use apt_cacher_ultra.Flipgate.Times.{
  TimedReach, opens_at, joins_at, leaves_at, serves_done_at, purges_at, begins_at, asks_at,
  gives_up_at, hold_ends_at, aborts_at, skips_at, cuts_short_at, flip_ends_at, closes_at,
  timed-Reach, IsTimed, SameTimes, SameTimes-IsTimed, same_times, chained, entry-SameTimes,
  join_entry-SameTimes, anchor_released-SameTimes, done-SameTimes, purge-SameTimes,
}
use apt_cacher_ultra.Flipgate.Runs.{Reach-IsSingle}

-- The part that a change of the holder leaves.
abbrev EndsBy : ℕ → Gate → Type 0
EndsBy now g = (g.quiet ≤ max_quiet) × (g.last_end ≤ now) × (g.prev_end ≤ now)

ends_by : (clock now : ℕ) (g : Gate) → clock ≤ now → IsTimed clock g → EndsBy now g
ends_by clock now g l k = (k.short, omega (arith, k.last, l), omega (arith, k.previous, l))

no_holder-IsTimed : (now : ℕ) (g : Gate) → EndsBy now g → g.holder ≡ none → IsTimed now g
no_holder-IsTimed now g (q, a, b) free = record {
  short = q;
  last = a;
  previous = b;
  started = λ h e. cc (free, e);
}

start_hold-IsTimed : (g : Gate) (e now : ℕ) → EndsBy now g → IsTimed now (start_hold g e now)
unfolding start_hold
start_hold-IsTimed g e now (q, a, b) = record {
  short = q;
  last = a;
  previous = b;
  started = λ h x. let same : g.next_hold ≡ h = cc x in rw ((==_iff g.next_hold h).1 same) (a, b);
}

grant_next-IsTimed :
    (g : Gate) (ws : List ℕ) (now : ℕ)
    → EndsBy now g
    → g.holder ≡ none
    → IsTimed now (grant_next g ws now)
unfolding grant_next
grant_next-IsTimed g [] now k free = no_holder-IsTimed now g k free
grant_next-IsTimed g (w ∷ ws) now k free = elim (Bool-cases g.closed) [
  | inl c ↦
      subst (λ b. IsTimed now (if b then g else granted_gate)) (sym c)
        (no_holder-IsTimed now g k free)
  | inr c ↦
      subst (λ b. IsTimed now (if b then g else granted_gate)) (sym c)
        (SameTimes-IsTimed now now started_gate granted_gate (omega arith) (same_starts)
          (start_hold-IsTimed (record g { queue = ws }) (g.waiter_at w).entry now k))
]
  where
    started_gate : Gate
    started_gate = start_hold (record g { queue = ws }) (g.waiter_at w).entry now

    granted_gate : Gate
    granted_gate = record started_gate {
      waiter_at =
          update started_gate.waiter_at w
            (record (started_gate.waiter_at w) { hold = some g.next_hold });
    }

    same_starts : SameTimes started_gate granted_gate
    same_starts = (refl, refl, refl, refl, λ h. refl)

record_end-EndsBy :
    (g : Gate) (e held_total now : ℕ) → EndsBy now g → EndsBy now (record_end g e held_total now)
unfolding record_end
record_end-EndsBy g e held_total now (q, a, b) = elim (Bool-cases (ltb 0 held_total)) [
  | inl h ↦ rw h (q, omega arith, ground arith)
  | inr h ↦ rw h (q, a, b)
]

record_end-holder :
    (g : Gate) (e held_total now : ℕ) → (record_end g e held_total now).holder ≡ g.holder
unfolding record_end
record_end-holder g e held_total now = elim (Bool-cases (ltb 0 held_total)) [
  | inl h ↦ rw h refl
  | inr h ↦ rw h refl
]

pass_token-IsTimed :
    (g : Gate) (h now : ℕ) → EndsBy now g → g.holder ≡ some h → IsTimed now (pass_token g h now)
unfolding pass_token is_entry
pass_token-IsTimed g h now k held =
    rw (held, (==_iff h h).1 refl)
      (grant_next-IsTimed (record g { holder = none }) g.queue now k refl)

end_hold-IsTimed :
    (clock now : ℕ) (g : Gate) (h : ℕ) (expired : Bool)
    → clock ≤ now
    → IsSingle g
    → IsTimed clock g
    → IsTimed now (end_hold g h expired now).0
unfolding end_hold mark_ended
end_hold-IsTimed clock now g h expired l single k = elim (Bool-cases (g.hold_at h).ended) [
  | inl e ↦ rw e (SameTimes-IsTimed clock now g g l (same_times g) k)
  | inr e ↦
      let hold = g.hold_at h in
      let marked = mark_ended g h expired now in
      rw e (
        pass_token-IsTimed (record_end marked hold.entry hold.held_total now) h now
          (record_end-EndsBy marked hold.entry hold.held_total now (ends_by clock now g l k))
          (record_end-holder marked hold.entry hold.held_total now ∙ single.0 h e))
]

-- A branch of an operation, one case at a time.
if-IsTimed {ℓ} :
    {A : Type ℓ} (now : ℕ) (b : Bool) (x y : Gate × A)
    → IsTimed now x.0
    → IsTimed now y.0
    → IsTimed now (if b then x else y).0
if-IsTimed now true x y p q = p
if-IsTimed now false x y p q = q

if-gate :
    (now : ℕ) (b : Bool) (x y : Gate)
    → IsTimed now x
    → IsTimed now y
    → IsTimed now (if b then x else y)
if-gate now true x y p q = p
if-gate now false x y p q = q

ask-IsTimed :
    (clock now : ℕ) (g : Gate) (e : ℕ) → clock ≤ now → IsTimed clock g → IsTimed now (ask g e now).0
unfolding ask
ask-IsTimed clock now g e l k =
    let free = not (is_some g.holder) && no_waiter g.queue in
    let later = record g {
      queue = g.queue ++ (g.next_waiter ∷ []);
      waiter_at = update g.waiter_at g.next_waiter (record { entry = e; hold = none });
      next_waiter = suc g.next_waiter;
    } in
    if-IsTimed now g.closed (g, refused_closed)
      (if free then (start_hold g e now, granted g.next_hold) else (later, queued g.next_waiter))
      (SameTimes-IsTimed clock now g g l (same_times g) k)
      (if-IsTimed now free (start_hold g e now, granted g.next_hold) (later, queued g.next_waiter)
        (start_hold-IsTimed g e now (ends_by clock now g l k))
        (SameTimes-IsTimed clock now g later l (same_times g) k))

give_up-IsTimed :
    (clock now : ℕ) (g : Gate) (w : ℕ) (cause : Cause)
    → clock ≤ now
    → IsSingle g
    → IsTimed clock g
    → IsTimed now (give_up g w cause now).0
unfolding give_up
give_up-IsTimed clock now g w cause l single k = elim (Option-cases (g.waiter_at w).hold) [
  | inl e ↦
      rw (give_up, e)
        (SameTimes-IsTimed clock now g (record g { queue = remove w g.queue }) l (same_times g) k)
  | inr (h, e) ↦ elim (Bool-cases (is_timeout cause)) [
    | inl t ↦ rw (give_up, e, t) (SameTimes-IsTimed clock now g g l (same_times g) k)
    | inr t ↦ rw (give_up, e, t) (end_hold-IsTimed clock now g h false l single k)
  ]
]

-- What Close leaves once the gate is closed.
let_go-IsTimed :
    (clock now : ℕ) (g : Gate) (o : Option ℕ)
    → clock ≤ now
    → IsSingle g
    → IsTimed clock g
    → IsTimed now (elim o [ none ↦ g | some h ↦ (end_hold g h false now).0 ])
let_go-IsTimed clock now g none l single k = SameTimes-IsTimed clock now g g l (same_times g) k
let_go-IsTimed clock now g (some h) l single k = end_hold-IsTimed clock now g h false l single k

close-IsTimed :
    (clock now : ℕ) (g : Gate)
    → clock ≤ now
    → IsSingle g
    → IsTimed clock g
    → IsTimed now (close g now)
unfolding close
close-IsTimed clock now g l single k =
    let closed = record g { closed = true } in
    let shut : Gate = elim g.holder [ none ↦ closed | some h ↦ (end_hold closed h false now).0 ] in
    let same = SameTimes-IsTimed clock now g g l (same_times g) k in
    if-gate now (not (ltb 0 g.quiet)) g (if g.closed then g else shut) same (
      if-gate now g.closed g shut same (
        let_go-IsTimed clock now closed g.holder l (single.0, single.1, λ x y. cc y)
          (SameTimes-IsTimed clock clock g closed (omega arith) (same_times g) k)))

new-IsTimed : (quiet now : ℕ) (g : Gate) → new quiet ≡ some g → IsTimed now g
unfolding new
new-IsTimed quiet now g e =
    elim (Bool-cases (not (quiet == 0) && (ltb quiet min_quiet || ltb max_quiet quiet))) [
      | inl x ↦ cc (rw x at e)
      | inr x ↦
          let same : some (empty_gate quiet) ≡ some g = rw x at e in
          let one : empty_gate quiet ≡ g = cc same in
          subst (IsTimed now) one (record {
            short = ground (arith, x);
            last = omega arith;
            previous = omega arith;
            started = λ h y. cc y;
          })
    ]

pub TimedReach-IsTimed : (clock : ℕ) (g : Gate) → TimedReach clock g → IsTimed clock g
unfolding end_flip abort skip_hold count_cut_short join begin_flip
TimedReach-IsTimed _ _ (opens_at quiet now g e) = new-IsTimed quiet now g e
TimedReach-IsTimed _ _ (joins_at clock now g key l r) =
    SameTimes-IsTimed clock now g (join g key now).0 l
      (chained g (entry g key now).0 (join g key now).0 (entry-SameTimes g key now)
        (join_entry-SameTimes (entry g key now).0 (entry g key now).1 now))
      (TimedReach-IsTimed clock g r)
TimedReach-IsTimed _ _ (leaves_at clock now g e h left joined l r) =
    SameTimes-IsTimed clock now g (anchor_released g e h left joined now).0 l
      (anchor_released-SameTimes g e h left joined now) (TimedReach-IsTimed clock g r)
TimedReach-IsTimed _ _ (serves_done_at clock now g t l r) =
    SameTimes-IsTimed clock now g (done g t now) l (done-SameTimes g t now)
      (TimedReach-IsTimed clock g r)
TimedReach-IsTimed _ _ (purges_at clock now g key l r) =
    SameTimes-IsTimed clock now g (purge g key now).0 l (purge-SameTimes g key now)
      (TimedReach-IsTimed clock g r)
TimedReach-IsTimed _ _ (begins_at clock now g key l r) =
    SameTimes-IsTimed clock now g (begin_flip g key now).0 l (entry-SameTimes g key now)
      (TimedReach-IsTimed clock g r)
TimedReach-IsTimed _ _ (asks_at clock now g e l r) =
    ask-IsTimed clock now g e l (TimedReach-IsTimed clock g r)
TimedReach-IsTimed _ _ (gives_up_at clock now g w cause l r) =
    give_up-IsTimed clock now g w cause l (Reach-IsSingle g (timed-Reach clock g r))
      (TimedReach-IsTimed clock g r)
TimedReach-IsTimed _ _ (hold_ends_at clock now g h expired l r) =
    end_hold-IsTimed clock now g h expired l (Reach-IsSingle g (timed-Reach clock g r))
      (TimedReach-IsTimed clock g r)
TimedReach-IsTimed _ _ (aborts_at clock g r) =
    SameTimes-IsTimed clock clock g (abort g) (omega arith) (same_times g)
      (TimedReach-IsTimed clock g r)
TimedReach-IsTimed _ _ (skips_at clock g r) =
    SameTimes-IsTimed clock clock g (skip_hold g) (omega arith) (same_times g)
      (TimedReach-IsTimed clock g r)
TimedReach-IsTimed _ _ (cuts_short_at clock g r) =
    SameTimes-IsTimed clock clock g (count_cut_short g) (omega arith) (same_times g)
      (TimedReach-IsTimed clock g r)
TimedReach-IsTimed _ _ (flip_ends_at clock now g e l r) =
    SameTimes-IsTimed clock now g (end_flip g e now) l (same_times g) (TimedReach-IsTimed clock g r)
TimedReach-IsTimed _ _ (closes_at clock now g l r) =
    close-IsTimed clock now g l (Reach-IsSingle g (timed-Reach clock g r))
      (TimedReach-IsTimed clock g r)
