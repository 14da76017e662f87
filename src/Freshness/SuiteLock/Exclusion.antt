-- ===== src/Freshness/SuiteLock/Exclusion.antt =====
-- No two goroutines have the lock of one suite, however their steps interleave.
use apt_cacher_ultra.Base.{
  ℕ, ◌≡◌, refl, sym, ap, ◌∙◌, ◌≢◌, inl, inr, true, Option, none, some, ◌==◌, ==_iff, Bytes,
  Bool-cases, subst,
}
use apt_cacher_ultra.Freshness.SuiteLock.{
  Place, outside, loaded, tried, holding, leaving, Locks, no_locks, set_place, set_owner, set_entry,
  load_entry, load_at, load, try_mutex, try_at, try_lock, is_mutex, unlocked, validate_at, validate,
  unlock_at, unlock, drop_at, drop_entry, leave_at, leave,
}
use apt_cacher_ultra.Freshness.SuiteLock.Frame.{
  IsGood, AllGood, some_eq, taken-IsGood, given-IsGood, stored-IsGood, erased-IsGood,
}

-- A goroutine that moves has to be good where it comes; the others stay where they are.
moved-IsGood :
    (entry : Bytes → Option ℕ) (owner : ℕ → Option ℕ) (place : ℕ → Place) (t : ℕ) (p : Place)
    → IsGood entry owner t p
    → ((u : ℕ) → t ≢ u → IsGood entry owner u (place u))
    → (u : ℕ) → IsGood entry owner u (set_place place t p u)
moved-IsGood entry owner place t p here others u = elim (Bool-cases (t == u)) [
  | inl e ↦ rw e (subst (λ v. IsGood entry owner v p) ((==_iff t u).0 e) here)
  | inr d ↦ rw d (others u (λ same. cc (d, (==_iff t u).1 same)))
]

load_entry-AllGood :
    (s : Locks) (t : ℕ) (key : Bytes) (o : Option ℕ)
    → s.entry key ≡ o
    → AllGood s
    → AllGood (load_entry s t key o)
unfolding load_entry IsGood
load_entry-AllGood s t key (some m) e good =
    moved-IsGood s.entry s.owner s.place t (loaded key m) tt (λ u d. good u)
load_entry-AllGood s t key none e good =
    moved-IsGood (set_entry s.entry key (some s.next_mutex)) s.owner s.place t
      (loaded key s.next_mutex) tt
      (λ u d. stored-IsGood s.entry s.owner key s.next_mutex u (s.place u) e (good u))

load_at-AllGood :
    (s : Locks) (t : ℕ) (key : Bytes) (p : Place) → AllGood s → AllGood (load_at s t key p)
unfolding load_at
load_at-AllGood s t key outside good = load_entry-AllGood s t key (s.entry key) refl good
load_at-AllGood s t key (loaded k m) good = good
load_at-AllGood s t key (tried k m) good = good
load_at-AllGood s t key (holding k m) good = good
load_at-AllGood s t key (leaving k m) good = good

try_mutex-AllGood :
    (s : Locks) (t : ℕ) (key : Bytes) (m : ℕ) (o : Option ℕ)
    → s.owner m ≡ o
    → AllGood s
    → AllGood (try_mutex s t key m o)
unfolding try_mutex IsGood
try_mutex-AllGood s t key m (some u) e good =
    moved-IsGood s.entry s.owner s.place t outside tt (λ v d. good v)
try_mutex-AllGood s t key m none e good =
    moved-IsGood s.entry (set_owner s.owner m (some t)) s.place t (tried key m)
      (rw ((==_iff m m).1 refl) refl)
      (λ u d. taken-IsGood s.entry s.owner m t u (s.place u) e (good u))

try_at-AllGood : (s : Locks) (t : ℕ) (p : Place) → AllGood s → AllGood (try_at s t p)
unfolding try_at
try_at-AllGood s t (loaded key m) good = try_mutex-AllGood s t key m (s.owner m) refl good
try_at-AllGood s t outside good = good
try_at-AllGood s t (tried k m) good = good
try_at-AllGood s t (holding k m) good = good
try_at-AllGood s t (leaving k m) good = good

unlocked-AllGood : (s : Locks) (t m : ℕ) → s.owner m ≡ some t → AllGood s → AllGood (unlocked s t m)
unfolding IsGood
unlocked-AllGood s t m mine good =
    moved-IsGood s.entry (set_owner s.owner m none) s.place t outside tt
      (λ u d. given-IsGood s.entry s.owner m t u (s.place u) mine d (good u))

is_mutex_sound : (o : Option ℕ) (m : ℕ) → is_mutex o m ≡ true → o ≡ some m
unfolding is_mutex
is_mutex_sound none m e = cc e
is_mutex_sound (some n) m e = ap some ((==_iff n m).0 e)

-- The steps that look at where the goroutine is, with what it can count on there.
validate_at-AllGood :
    (s : Locks) (t : ℕ) (p : Place)
    → IsGood s.entry s.owner t p
    → AllGood s
    → AllGood (validate_at s t p)
unfolding validate_at IsGood
validate_at-AllGood s t (tried key m) mine good = elim (Bool-cases (is_mutex (s.entry key) m)) [
  | inl e ↦ rw e (
      moved-IsGood s.entry s.owner s.place t (holding key m)
        (mine, is_mutex_sound (s.entry key) m e) (λ u d. good u))
  | inr e ↦ rw e (moved-IsGood s.entry s.owner s.place t (leaving key m) mine (λ u d. good u))
]
validate_at-AllGood s t outside mine good = good
validate_at-AllGood s t (loaded k m) mine good = good
validate_at-AllGood s t (holding k m) mine good = good
validate_at-AllGood s t (leaving k m) mine good = good

unlock_at-AllGood :
    (s : Locks) (t : ℕ) (p : Place)
    → IsGood s.entry s.owner t p
    → AllGood s
    → AllGood (unlock_at s t p)
unfolding unlock_at IsGood
unlock_at-AllGood s t (holding key m) mine good = unlocked-AllGood s t m mine.0 good
unlock_at-AllGood s t outside mine good = good
unlock_at-AllGood s t (loaded k m) mine good = good
unlock_at-AllGood s t (tried k m) mine good = good
unlock_at-AllGood s t (leaving k m) mine good = good

drop_at-AllGood :
    (s : Locks) (t : ℕ) (p : Place)
    → IsGood s.entry s.owner t p
    → AllGood s
    → AllGood (drop_at s t p)
unfolding drop_at IsGood is_mutex
drop_at-AllGood s t (holding key m) mine good =
    rw (mine.1, (==_iff m m).1 refl)
      (moved-IsGood (set_entry s.entry key none) s.owner s.place t (leaving key m) mine.0
        (λ u d. erased-IsGood s.entry s.owner key m t u (s.place u) mine.1 mine.0 d (good u)))
drop_at-AllGood s t outside mine good = good
drop_at-AllGood s t (loaded k m) mine good = good
drop_at-AllGood s t (tried k m) mine good = good
drop_at-AllGood s t (leaving k m) mine good = good

leave_at-AllGood :
    (s : Locks) (t : ℕ) (p : Place)
    → IsGood s.entry s.owner t p
    → AllGood s
    → AllGood (leave_at s t p)
unfolding leave_at IsGood
leave_at-AllGood s t (leaving key m) mine good = unlocked-AllGood s t m mine good
leave_at-AllGood s t outside mine good = good
leave_at-AllGood s t (loaded k m) mine good = good
leave_at-AllGood s t (tried k m) mine good = good
leave_at-AllGood s t (holding k m) mine good = good

-- Any number of goroutines, in any order of their steps.
pub data Reach : Locks → Type 0 where
  starts : Reach no_locks
  loads : (s : Locks) (t : ℕ) (key : Bytes) → Reach s → Reach (load s t key)
  tries : (s : Locks) (t : ℕ) → Reach s → Reach (try_lock s t)
  validates : (s : Locks) (t : ℕ) → Reach s → Reach (validate s t)
  unlocks : (s : Locks) (t : ℕ) → Reach s → Reach (unlock s t)
  drops : (s : Locks) (t : ℕ) → Reach s → Reach (drop_entry s t)
  leaves : (s : Locks) (t : ℕ) → Reach s → Reach (leave s t)

Reach-AllGood : (s : Locks) → Reach s → AllGood s
unfolding load try_lock validate unlock drop_entry leave IsGood
Reach-AllGood _ starts = λ t. tt
Reach-AllGood _ (loads s t key r) = load_at-AllGood s t key (s.place t) (Reach-AllGood s r)
Reach-AllGood _ (tries s t r) = try_at-AllGood s t (s.place t) (Reach-AllGood s r)
Reach-AllGood _ (validates s t r) =
    validate_at-AllGood s t (s.place t) (Reach-AllGood s r t) (Reach-AllGood s r)
Reach-AllGood _ (unlocks s t r) =
    unlock_at-AllGood s t (s.place t) (Reach-AllGood s r t) (Reach-AllGood s r)
Reach-AllGood _ (drops s t r) =
    drop_at-AllGood s t (s.place t) (Reach-AllGood s r t) (Reach-AllGood s r)
Reach-AllGood _ (leaves s t r) =
    leave_at-AllGood s t (s.place t) (Reach-AllGood s r t) (Reach-AllGood s r)

-- Two goroutines that hold the lock of the same suite are the same goroutine, in every state that
-- interleavings of their steps lead to.
pub holding_once :
    (s : Locks) (t u : ℕ) (key : Bytes) (m n : ℕ)
    → Reach s
    → s.place t ≡ holding key m
    → s.place u ≡ holding key n
    → t ≡ u
unfolding IsGood
holding_once s t u key m n r p q =
    let mine = subst (IsGood s.entry s.owner t) p (Reach-AllGood s r t) in
    let other = subst (IsGood s.entry s.owner u) q (Reach-AllGood s r u) in
    let same : m ≡ n = some_eq (sym mine.1 ∙ other.1) in
    some_eq (sym mine.0 ∙ (ap s.owner same ∙ other.0))
