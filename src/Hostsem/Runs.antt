-- ===== src/Hostsem/Runs.antt =====
-- The semaphore in whatever order calls enter, get tokens, are cancelled and leave.
use apt_cacher_ultra.Base.{
  ℕ, ◌≡◌, refl, ◌∙◌, inl, inr, Option, none, some, arith, Option-cases, Bytes, elem_at, count_if,
}
use apt_cacher_ultra.Hostsem.{
  Phase, waiting, holding, leaving, done, Caller, Sem, new_sem, enter_at, enter, take_token,
  give_token, drop_ref, Move, send, cancel, release, drop, move_phase, move_at, move,
}
use apt_cacher_ultra.Hostsem.Kept.{IsKept}
use apt_cacher_ultra.Hostsem.Tokens.{take_token-IsKept, cancel-IsKept, give_token-IsKept}
use apt_cacher_ultra.Hostsem.Drops.{drop_ref-IsKept}
use apt_cacher_ultra.Hostsem.Enters.{enter-IsKept}

move_phase-IsKept :
    (m : Move) (p : Phase) (s : Sem) (t : ℕ) (c : Caller)
    → c.phase ≡ p
    → elem_at t s.callers ≡ some c
    → IsKept s
    → IsKept (move_phase m p s t c)
unfolding move_phase
move_phase-IsKept send waiting s t c w at_t k = take_token-IsKept s t c k at_t w
move_phase-IsKept cancel waiting s t c w at_t k = cancel-IsKept s t c k at_t w
move_phase-IsKept release holding s t c w at_t k = give_token-IsKept s t c k at_t w
move_phase-IsKept drop leaving s t c w at_t k = drop_ref-IsKept s t c k at_t w
move_phase-IsKept send holding s t c w at_t k = k
move_phase-IsKept send leaving s t c w at_t k = k
move_phase-IsKept send done s t c w at_t k = k
move_phase-IsKept cancel holding s t c w at_t k = k
move_phase-IsKept cancel leaving s t c w at_t k = k
move_phase-IsKept cancel done s t c w at_t k = k
move_phase-IsKept release waiting s t c w at_t k = k
move_phase-IsKept release leaving s t c w at_t k = k
move_phase-IsKept release done s t c w at_t k = k
move_phase-IsKept drop waiting s t c w at_t k = k
move_phase-IsKept drop holding s t c w at_t k = k
move_phase-IsKept drop done s t c w at_t k = k

move-IsKept : (m : Move) (s : Sem) (t : ℕ) → IsKept s → IsKept (move m s t)
unfolding move move_at
move-IsKept m s t k = elim (Option-cases (elem_at t s.callers)) [
  | inl e ↦ rw e k
  | inr (c, e) ↦ rw e (move_phase-IsKept m c.phase s t c refl e k)
]

-- What a semaphore goes through: calls of Acquire start, and those that have started move, in any order.
pub data Reach (limit : ℕ) : Sem → Type 0 where
  starts : Reach limit (new_sem limit)
  enters : (s : Sem) (host : Bytes) → Reach limit s → Reach limit (enter s host)
  moves : (m : Move) (s : Sem) (t : ℕ) → Reach limit s → Reach limit (move m s t)

pub Reach-IsKept : (limit : ℕ) (s : Sem) → Reach limit s → IsKept s
unfolding count_if elem_at
Reach-IsKept limit _ starts = record {
  counted = λ i. refl;
  held = λ i. refl;
  bound = λ i. omega arith;
  fresh = λ i h. refl;
  found = λ u d e l. cc e;
  in_use = λ h i e. cc e;
  one_host = λ h g i e f. cc e;
}
Reach-IsKept limit _ (enters s host r) = enter-IsKept s host (Reach-IsKept limit s r)
Reach-IsKept limit _ (moves m s t r) = move-IsKept m s t (Reach-IsKept limit s r)

enter_at-limit : (s : Sem) (host : Bytes) (o : Option ℕ) → (enter_at s host o).limit ≡ s.limit
unfolding enter_at
enter_at-limit s host none = refl
enter_at-limit s host (some i) = refl

move_phase-limit :
    (m : Move) (p : Phase) (s : Sem) (t : ℕ) (c : Caller) → (move_phase m p s t c).limit ≡ s.limit
unfolding move_phase give_token drop_ref take_token
move_phase-limit send waiting s t c = ground arith
move_phase-limit send _ s t c = refl
move_phase-limit cancel waiting s t c = refl
move_phase-limit cancel _ s t c = refl
move_phase-limit release holding s t c = refl
move_phase-limit release _ s t c = refl
move_phase-limit drop leaving s t c = refl
move_phase-limit drop _ s t c = refl

move_at-limit : (m : Move) (s : Sem) (t : ℕ) (o : Option Caller) → (move_at m s t o).limit ≡ s.limit
unfolding move_at
move_at-limit m s t none = refl
move_at-limit m s t (some c) = move_phase-limit m c.phase s t c

pub Reach-limit : (limit : ℕ) (s : Sem) → Reach limit s → s.limit ≡ limit
unfolding enter move
Reach-limit limit _ starts = refl
Reach-limit limit _ (enters s host r) = enter_at-limit s host (s.entry host) ∙ Reach-limit limit s r
Reach-limit limit _ (moves m s t r) =
    move_at-limit m s t (elem_at t s.callers) ∙ Reach-limit limit s r
