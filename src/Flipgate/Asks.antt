-- ===== src/Flipgate/Asks.antt =====
-- The token for a flip that asks for it or gives up, and for a gate that closes.
use apt_cacher_ultra.Base.{
  ℕ, suc, ◌≡◌, refl, inl, inr, Bool, true, false, not, ◌&&◌, Option, none, some, [], ◌∷◌, ◌++◌, ltb,
  if◌then◌else◌, Bool-cases,
}
use apt_cacher_ultra.Flipgate.State.{Gate, update}
use apt_cacher_ultra.Flipgate.Quiet.{is_some}
use apt_cacher_ultra.Flipgate.Holds.{
  start_hold, end_hold, close, ask, give_up, remove, Cause, is_timeout, refused_closed, granted,
  queued, no_waiter,
}
use apt_cacher_ultra.Flipgate.Token.{IsSingle, ended_of, start_hold-IsSingle, end_hold-IsSingle}

free-ended : (g : Gate) → IsSingle g → g.holder ≡ none → (h : ℕ) → ended_of g h ≡ true
free-ended g (one, live, busy) free h = elim (Bool-cases (ended_of g h)) [
  | inl x ↦ x
  | inr x ↦ cc (free, one h x)
]

is_some-none : (o : Option ℕ) → is_some o ≡ false → o ≡ none
unfolding is_some
is_some-none none e = refl
is_some-none (some n) e = cc e

-- The flip that cannot have the token now.
abbrev queue_up : Gate → ℕ → Gate
queue_up g e = record g {
  queue = g.queue ++ (g.next_waiter ∷ []);
  waiter_at = update g.waiter_at g.next_waiter (record { entry = e; hold = none });
  next_waiter = suc g.next_waiter;
}

queue_up-IsSingle :
    (g : Gate) (e : ℕ)
    → (not (is_some g.holder) && no_waiter g.queue) ≡ false
    → IsSingle g
    → IsSingle (queue_up g e)
unfolding is_some no_waiter
queue_up-IsSingle g e no_token (one, live, busy) =
    (one, live, λ x y. cc (rw (x, busy x y) at no_token))

-- A branch of an operation, one case at a time.
pub if-IsSingle {ℓ} :
    {A : Type ℓ} (b : Bool) (x y : Gate × A)
    → (b ≡ true → IsSingle x.0)
    → (b ≡ false → IsSingle y.0)
    → IsSingle (if b then x else y).0
if-IsSingle true x y p q = p refl
if-IsSingle false x y p q = q refl

if-gate : (b : Bool) (x y : Gate) → IsSingle x → IsSingle y → IsSingle (if b then x else y)
if-gate true x y p q = p
if-gate false x y p q = q

free_token : (g : Gate) → (not (is_some g.holder) && no_waiter g.queue) ≡ true → g.holder ≡ none
free_token g e = elim (Bool-cases (is_some g.holder)) [
  | inl h ↦ cc (rw h at e)
  | inr h ↦ is_some-none g.holder h
]

pub ask-IsSingle : (g : Gate) (e now : ℕ) → IsSingle g → IsSingle (ask g e now).0
unfolding ask
ask-IsSingle g e now s =
    if-IsSingle g.closed (g, refused_closed)
      (if not (is_some g.holder) && no_waiter g.queue
        then (start_hold g e now, granted g.next_hold)
        else (queue_up g e, queued g.next_waiter))
      (λ c. s)
      (λ o.
        if-IsSingle (not (is_some g.holder) && no_waiter g.queue)
          (start_hold g e now, granted g.next_hold) (queue_up g e, queued g.next_waiter)
          (λ f. start_hold-IsSingle g e now (free-ended g s (free_token g f)))
          (λ f. queue_up-IsSingle g e f s))

-- What a flip that gives up leaves, if its hold was granted as it did, and if not.
abbrev given_up : Gate → ℕ → Cause → ℕ → Option ℕ → Gate × Option ℕ
given_up g w cause now granted_hold = elim granted_hold [
  | some h ↦ if is_timeout cause then (g, some h) else ((end_hold g h false now).0, none)
  | none ↦ (record g { queue = remove w g.queue }, none)
]

given_up-IsSingle :
    (g : Gate) (w : ℕ) (cause : Cause) (now : ℕ) (o : Option ℕ)
    → IsSingle g
    → IsSingle (given_up g w cause now o).0
unfolding remove
given_up-IsSingle g w cause now (some h) s =
    if-IsSingle (is_timeout cause) (g, some h) ((end_hold g h false now).0, none) (λ t. s)
      (λ t. end_hold-IsSingle g h false now s)
given_up-IsSingle g w cause now none s = (s.0, s.1, λ x y. rw (s.2 x y) refl)

pub give_up-IsSingle :
    (g : Gate) (w : ℕ) (cause : Cause) (now : ℕ) → IsSingle g → IsSingle (give_up g w cause now).0
unfolding give_up
give_up-IsSingle g w cause now s = given_up-IsSingle g w cause now (g.waiter_at w).hold s

-- What Close leaves once the gate is closed.
abbrev let_go : Gate → ℕ → Option ℕ → Gate
let_go g now holder = elim holder [ none ↦ g | some h ↦ (end_hold g h false now).0 ]

let_go-IsSingle : (g : Gate) (now : ℕ) (o : Option ℕ) → IsSingle g → IsSingle (let_go g now o)
let_go-IsSingle g now none s = s
let_go-IsSingle g now (some h) s = end_hold-IsSingle g h false now s

pub close-IsSingle : (g : Gate) (now : ℕ) → IsSingle g → IsSingle (close g now)
unfolding close
close-IsSingle g now s =
    let shut = let_go (record g { closed = true }) now g.holder in
    let shut_single =
      let_go-IsSingle (record g { closed = true }) now g.holder (s.0, s.1, λ x y. cc y) in
    if-gate (not (ltb 0 g.quiet)) g (if g.closed then g else shut) s
      (if-gate g.closed g shut s shut_single)
