-- ===== src/Freshness/Due/Bound.antt =====
-- At most max_suites suites are queued, waiting or in flight behind a tick that found no more.
use apt_cacher_ultra.Base.{
  ℕ, zero, suc, ◌+◌, ◌-◌, ◌≤◌, ◌≡◌, refl, Bool, List, [], ◌∷◌, length, take, max, leb,
  if◌then◌else◌, arith, Bytes, bytes_eq, bytes_eq_iff, count_if, count_if_zero, lt→ltb, ◌/◌,
}
use apt_cacher_ultra.Cache.Newest.{is_in}
use apt_cacher_ultra.Freshness.Queues.{
  SuiteFreshness, SchedQueues, ref_key, enqueue, insert_key, refresh_signed,
}
use apt_cacher_ultra.Freshness.Due.{
  Checker, has_change_pending, due_suites, insert_due, sort_due, by_key, by_check, not_queued,
  keys_of, admitted, bound_due, enqueue_all, tick, second,
}

abbrev pub has_the_key : Bytes → SuiteFreshness → Bool
has_the_key k s = bytes_eq (ref_key s.suite) k

-- No key is there twice.
abbrev pub AreDistinct : List SuiteFreshness → Type 0
AreDistinct due = (k : Bytes) → count_if (has_the_key k) due ≤ 1

due_suites-count :
    (p : SuiteFreshness → Bool) (c : Checker) (now : ℕ) (suites : List SuiteFreshness)
    → count_if p (due_suites c now suites) ≤ count_if p suites
unfolding due_suites count_if
due_suites-count p c now [] = omega arith
due_suites-count p c now (s ∷ suites) = ground (arith, due_suites-count p c now suites)

insert_due-count :
    (p : SuiteFreshness → Bool) (before : SuiteFreshness → SuiteFreshness → Bool)
    (s : SuiteFreshness) (due : List SuiteFreshness)
    → count_if p (insert_due before s due) ≡ (if p s then 1 else 0) + count_if p due
unfolding insert_due count_if
insert_due-count p before s [] = refl
insert_due-count p before s (t ∷ due) = ground (arith, insert_due-count p before s due)

sort_due-count :
    (p : SuiteFreshness → Bool) (before : SuiteFreshness → SuiteFreshness → Bool)
    (due : List SuiteFreshness)
    → count_if p (sort_due before due) ≡ count_if p due
unfolding sort_due count_if
sort_due-count p before [] = refl
sort_due-count p before (s ∷ due) =
    omega (arith, insert_due-count p before s (sort_due before due), sort_due-count p before due)

not_queued-count :
    (p : SuiteFreshness → Bool) (q : SchedQueues) (due : List SuiteFreshness)
    → count_if p (not_queued q due) ≤ count_if p due
unfolding not_queued count_if
not_queued-count p q [] = omega arith
not_queued-count p q (s ∷ due) = ground (arith, not_queued-count p q due)

split_keys :
    (k : Bytes) (keys : List Bytes) (due : List SuiteFreshness)
    → count_if (λ s. is_in (ref_key s.suite) (k ∷ keys)) due
      ≤ count_if (has_the_key k) due + count_if (λ s. is_in (ref_key s.suite) keys) due
unfolding is_in count_if
split_keys k keys [] = omega arith
split_keys k keys (s ∷ due) = ground (
  arith,
  split_keys k keys due,
  bytes_eq_iff k (ref_key s.suite),
  bytes_eq_iff (ref_key s.suite) k,
)

-- The elements whose key is in a list of keys are at most as many as the keys.
among :
    (keys : List Bytes) (due : List SuiteFreshness)
    → AreDistinct due
    → count_if (λ s. is_in (ref_key s.suite) keys) due ≤ length keys
unfolding is_in
among [] due d =
    omega (
      arith,
      count_if_zero (λ (s : SuiteFreshness). is_in (ref_key s.suite) []) due (λ i s e. refl),
    )
among (k ∷ keys) due d = omega (arith, split_keys k keys due, d k, among keys due d)

admitted-length :
    (keys : List Bytes) (due : List SuiteFreshness)
    → length (admitted keys due) ≡ count_if (λ s. is_in (ref_key s.suite) keys) due
unfolding admitted count_if
admitted-length keys [] = refl
admitted-length keys (s ∷ due) = ground (arith, admitted-length keys due)

length-keys_of : (due : List SuiteFreshness) → length (keys_of due) ≡ length due
unfolding keys_of
length-keys_of [] = refl
length-keys_of (s ∷ due) = omega (arith, length-keys_of due)

take_le : (n : ℕ) (due : List SuiteFreshness) → length (take n due) ≤ n
take_le zero due = omega arith
take_le (suc n) [] = omega arith
take_le (suc n) (s ∷ due) = omega (arith, take_le n due)

fits :
    (fresh some_fresh : List SuiteFreshness) (room : ℕ)
    → length some_fresh ≤ room
    → length (if leb (length fresh) room then fresh else some_fresh) ≤ room
fits fresh some_fresh room h = ground (arith, h)

bound_due-length :
    (due : List SuiteFreshness) (q : SchedQueues) (max_suites now : ℕ)
    → AreDistinct due
    → length (bound_due due q max_suites now) ≤ max_suites - length q.queued
unfolding bound_due
bound_due-length due q max_suites now d =
    let fresh = not_queued q due in
    let room = max_suites - length q.queued in
    let first = take room (sort_due (by_check now) fresh) in
    let once : AreDistinct fresh =
      λ k. omega (arith, not_queued-count (has_the_key k) q due, d k) in
    let some_fit : length (admitted (keys_of first) fresh) ≤ room = omega (
      arith,
      admitted-length (keys_of first) fresh,
      among (keys_of first) fresh once,
      length-keys_of first,
      take_le room (sort_due (by_check now) fresh),
    ) in
    fits fresh (admitted (keys_of first) fresh) room some_fit

enqueue-length :
    (q : SchedQueues) (s : SuiteFreshness) (mark : Bool)
    → length (enqueue q s mark).0.queued ≤ length q.queued + 1
unfolding enqueue insert_key
enqueue-length q s mark = ground arith

enqueue_all-length :
    (c : Checker) (q : SchedQueues) (due : List SuiteFreshness)
    → length (enqueue_all c q due).queued ≤ length q.queued + length due
unfolding enqueue_all
enqueue_all-length c q [] = omega arith
enqueue_all-length c q (s ∷ due) = omega (
  arith,
  enqueue_all-length c (enqueue q s (has_change_pending c s)).0 due,
  enqueue-length q s (has_change_pending c s),
)

-- With a bound on the suites and rows of which no two have the same key, a tick leaves at most
-- max_suites suites queued, waiting or in flight, or as many as there were.
pub tick-length :
    (c : Checker) (q : SchedQueues) (suites : List SuiteFreshness) (signed : Bytes → Bool)
    (max_suites now : ℕ)
    → 1 ≤ max_suites
    → AreDistinct suites
    → length (tick c q suites signed max_suites now).queued ≤ max max_suites (length q.queued)
unfolding tick refresh_signed
tick-length c q suites signed max_suites now h d =
    let refreshed = refresh_signed q signed in
    let found = due_suites c now suites in
    let due = sort_due by_key found in
    let once : AreDistinct due = λ k. omega (
      arith,
      sort_due-count (has_the_key k) by_key found,
      due_suites-count (has_the_key k) c now suites,
      d k,
    ) in
    let bounded = bound_due due refreshed max_suites (now / second) in
    rw (lt→ltb 0 max_suites h) (
      omega (
        arith,
        enqueue_all-length c refreshed bounded,
        bound_due-length due refreshed max_suites (now / second) once,
      ))
