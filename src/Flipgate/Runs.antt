-- ===== src/Flipgate/Runs.antt =====
-- The gates that its critical sections lead to, in any order and with any arguments.
use apt_cacher_ultra.Base.{
  ℕ, ◌+◌, ◌-◌, ◌≡◌, refl, ◌∙◌, inl, inr, Bool, true, false, not, ◌&&◌, ◌||◌, some, ltb, leb, ◌==◌,
  if◌then◌else◌, arith, Bool-cases, Bytes, Option-cases, subst,
}
use apt_cacher_ultra.Flipgate.State.{Gate, new, min_quiet, max_quiet, max_waiters, update}
use apt_cacher_ultra.Flipgate.Quiet.{is_live}
use apt_cacher_ultra.Flipgate.Holds.{ask, give_up, end_hold, close, Cause}
use apt_cacher_ultra.Flipgate.Serves.{
  find, delete, sweep, sweep_entries, use_entry, entry, register, waits, join_hold, serve_now,
  join_entry, join, anchor_released, done, purge,
}
use apt_cacher_ultra.Flipgate.Flip.{begin_flip, end_flip, abort, skip_hold, count_cut_short}
use apt_cacher_ultra.Flipgate.Token.{IsSingle, SameToken, SameToken-IsSingle, end_hold-IsSingle}
use apt_cacher_ultra.Flipgate.Asks.{ask-IsSingle, give_up-IsSingle, close-IsSingle}

unchanged : (g : Gate) → SameToken g g
unchanged g = (refl, refl, refl, λ h. refl)

chained : (f g h : Gate) → SameToken f g → SameToken g h → SameToken f h
chained f g h (p, q, c, e) (p', q', c', e') = (p' ∙ p, q' ∙ q, c' ∙ c, λ k. e' k ∙ e k)

-- A hold whose counts change.
abbrev set_waiting : Gate → ℕ → ℕ → ℕ → Gate
set_waiting g h waiting held_total = record g {
  hold_at =
      update g.hold_at h (record (g.hold_at h) { waiting = waiting; held_total = held_total });
}

set_waiting-SameToken :
    (g : Gate) (h waiting held_total : ℕ) → SameToken g (set_waiting g h waiting held_total)
set_waiting-SameToken g h waiting held_total = (refl, refl, refl, λ k. ground arith)

if-SameToken :
    (f : Gate) (b : Bool) (g h : Gate)
    → SameToken f g
    → SameToken f h
    → SameToken f (if b then g else h)
if-SameToken f true g h p q = p
if-SameToken f false g h p q = q

either-SameToken {ℓ} :
    {A : Type ℓ} (f : Gate) (b : Bool) (x y : Gate × A)
    → SameToken f x.0
    → SameToken f y.0
    → SameToken f (if b then x else y).0
either-SameToken f true x y p q = p
either-SameToken f false x y p q = q

sweep-SameToken : (g : Gate) (now : ℕ) → SameToken g (sweep g now)
unfolding sweep
sweep-SameToken g now =
    if-SameToken g (ltb (now - g.last_sweep) g.quiet) g
      (record g { last_sweep = now; entries = sweep_entries g now g.entries }) (unchanged g)
      (unchanged g)

entry-SameToken : (g : Gate) (key : Bytes) (now : ℕ) → SameToken g (entry g key now).0
unfolding entry use_entry
entry-SameToken g key now = elim (Option-cases (find key (sweep g now).entries)) [
  | inl e ↦ rw (entry, e) (sweep-SameToken g now)
  | inr (i, e) ↦ rw (entry, e) (sweep-SameToken g now)
]

serve_now-SameToken : (g : Gate) (e now : ℕ) → SameToken g (serve_now g e now).0
unfolding serve_now register
serve_now-SameToken g e now = unchanged g

join_hold-SameToken : (g : Gate) (e h : ℕ) → SameToken g (join_hold g e h)
unfolding join_hold
join_hold-SameToken g e h =
    set_waiting-SameToken g h ((g.hold_at h).waiting + 1) ((g.hold_at h).held_total + 1)

join_entry-SameToken : (g : Gate) (e now : ℕ) → SameToken g (join_entry g e now).0
unfolding join_entry
join_entry-SameToken g e now = elim (Option-cases (g.entry_at e).hold) [
  | inl n ↦ rw (join_entry, n) (serve_now-SameToken g e now)
  | inr (h, n) ↦
      rw (join_entry, n)
        (either-SameToken g (leb max_waiters (g.hold_at h).waiting) (serve_now g e now)
          (join_hold g e h, waits e h) (serve_now-SameToken g e now) (join_hold-SameToken g e h))
]

join-SameToken : (g : Gate) (key : Bytes) (now : ℕ) → SameToken g (join g key now).0
unfolding join
join-SameToken g key now =
    chained g (entry g key now).0 (join_entry (entry g key now).0 (entry g key now).1 now).0
      (entry-SameToken g key now) (join_entry-SameToken (entry g key now).0 (entry g key now).1 now)

begin_flip-SameToken : (g : Gate) (key : Bytes) (now : ℕ) → SameToken g (begin_flip g key now).0
unfolding begin_flip
begin_flip-SameToken g key now = entry-SameToken g key now

anchor_released-SameToken :
    (g : Gate) (e h : ℕ) (left : Bool) (joined now : ℕ)
    → SameToken g (anchor_released g e h left joined now).0
unfolding anchor_released register
anchor_released-SameToken g e h true joined now =
    set_waiting-SameToken g h ((g.hold_at h).waiting - 1) (g.hold_at h).held_total
anchor_released-SameToken g e h false joined now =
    set_waiting-SameToken g h ((g.hold_at h).waiting - 1) (g.hold_at h).held_total

done-SameToken : (g : Gate) (t now : ℕ) → SameToken g (done g t now)
unfolding done
done-SameToken g t now = elim (Bool-cases (g.token_at t).done) [
  | inl e ↦ rw e (unchanged g)
  | inr e ↦ rw e (refl, refl, refl, λ h. refl)
]

purge-SameToken : (g : Gate) (key : Bytes) (now : ℕ) → SameToken g (purge g key now).0
unfolding purge
purge-SameToken g key now = elim (Option-cases (find key g.entries)) [
  | inl e ↦ rw (purge, e) (unchanged g)
  | inr (i, e) ↦
      rw (purge, e)
        (either-SameToken g (is_live (g.entry_at i) now g.quiet) (g, false)
          (record g { entries = delete key g.entries }, true) (unchanged g) (unchanged g))
]

-- Everything that the gate's mutex guards, as it happens: requests join and leave a hold, are
-- served and done; flips begin, ask for the token, give up, count how they ended, and end; holds
-- end, by their bound or not; entries are purged; the gate closes.
pub data Reach : Gate → Type 0 where
  opens : (quiet : ℕ) (g : Gate) → new quiet ≡ some g → Reach g
  joins : (g : Gate) (key : Bytes) (now : ℕ) → Reach g → Reach (join g key now).0
  leaves :
      (g : Gate) (e h : ℕ) (left : Bool) (joined now : ℕ)
      → Reach g
      → Reach (anchor_released g e h left joined now).0
  serves_done : (g : Gate) (t now : ℕ) → Reach g → Reach (done g t now)
  purges : (g : Gate) (key : Bytes) (now : ℕ) → Reach g → Reach (purge g key now).0
  begins : (g : Gate) (key : Bytes) (now : ℕ) → Reach g → Reach (begin_flip g key now).0
  asks : (g : Gate) (e now : ℕ) → Reach g → Reach (ask g e now).0
  gives_up :
      (g : Gate) (w : ℕ) (cause : Cause) (now : ℕ) → Reach g → Reach (give_up g w cause now).0
  hold_ends :
      (g : Gate) (h : ℕ) (expired : Bool) (now : ℕ) → Reach g → Reach (end_hold g h expired now).0
  aborts : (g : Gate) → Reach g → Reach (abort g)
  skips : (g : Gate) → Reach g → Reach (skip_hold g)
  cuts_short : (g : Gate) → Reach g → Reach (count_cut_short g)
  flip_ends : (g : Gate) (e now : ℕ) → Reach g → Reach (end_flip g e now)
  closes : (g : Gate) (now : ℕ) → Reach g → Reach (close g now)

some_injective : {g h : Gate} → some g ≡ some h → g ≡ h
some_injective e = cc e

new-IsSingle : (quiet : ℕ) (g : Gate) → new quiet ≡ some g → IsSingle g
unfolding new
new-IsSingle quiet g e =
    elim (Bool-cases (not (quiet == 0) && (ltb quiet min_quiet || ltb max_quiet quiet))) [
      | inl x ↦ cc (rw x at e)
      | inr x ↦
          subst IsSingle (some_injective (rw x at e)) ((λ h y. cc y), (λ h y. cc y), λ y z. refl)
    ]

-- In every gate that runs lead to, a hold that has not ended is the one with the token, and the
-- other way round, so that at most one hold runs at a time; and while the gate is open and flips
-- wait in its queue, the token is not free.
pub Reach-IsSingle : (g : Gate) → Reach g → IsSingle g
unfolding end_flip abort skip_hold count_cut_short
Reach-IsSingle _ (opens quiet g e) = new-IsSingle quiet g e
Reach-IsSingle _ (joins g key now r) =
    SameToken-IsSingle g (join g key now).0 (join-SameToken g key now) (Reach-IsSingle g r)
Reach-IsSingle _ (leaves g e h left joined now r) =
    SameToken-IsSingle g (anchor_released g e h left joined now).0
      (anchor_released-SameToken g e h left joined now) (Reach-IsSingle g r)
Reach-IsSingle _ (serves_done g t now r) =
    SameToken-IsSingle g (done g t now) (done-SameToken g t now) (Reach-IsSingle g r)
Reach-IsSingle _ (purges g key now r) =
    SameToken-IsSingle g (purge g key now).0 (purge-SameToken g key now) (Reach-IsSingle g r)
Reach-IsSingle _ (begins g key now r) =
    SameToken-IsSingle g (begin_flip g key now).0 (begin_flip-SameToken g key now)
      (Reach-IsSingle g r)
Reach-IsSingle _ (asks g e now r) = ask-IsSingle g e now (Reach-IsSingle g r)
Reach-IsSingle _ (gives_up g w cause now r) = give_up-IsSingle g w cause now (Reach-IsSingle g r)
Reach-IsSingle _ (hold_ends g h expired now r) =
    end_hold-IsSingle g h expired now (Reach-IsSingle g r)
Reach-IsSingle _ (aborts g r) = Reach-IsSingle g r
Reach-IsSingle _ (skips g r) = Reach-IsSingle g r
Reach-IsSingle _ (cuts_short g r) = Reach-IsSingle g r
Reach-IsSingle _ (flip_ends g e now r) = Reach-IsSingle g r
Reach-IsSingle _ (closes g now r) = close-IsSingle g now (Reach-IsSingle g r)
