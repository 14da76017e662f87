-- ===== src/Debversion/Loop.antt =====
-- verrevcmp against the order of keys: the non-digit loop, a round, and the outer loop.
use apt_cacher_ultra.Base.{
  ℕ, zero, suc, ◌+◌, ◌-◌, ◌≤◌, ◌<◌, ◌≡◌, refl, sym, ap, ◌∙◌, ◌≢◌, inl, inr, true, false, ◌||◌, none,
  some, [], ◌∷◌, arith, List, if◌then◌else◌, ◌==◌, pos_part, neg_part, sub_ℕ, length, Bytes, ℤ, pos,
  negsuc, Bool-cases,
}
use apt_cacher_ultra.Debversion.Key.{key, lex, by, weight}
use apt_cacher_ultra.Debversion.Digits.{Meets, Meets-mono, NoNul, at_run}
use apt_cacher_ultra.Debversion.DigitRun.{numbers-Meets}
use apt_cacher_ultra.Debversion.{
  Run, returns, reaches, is_digit, byte_at, order, clamp, compare_orders, non_digit_run, digit_run,
  strip_zeros, round, verrevcmp_loop, verrevcmp,
}

-- The rank of a byte in a key: a digit and the end of the string (0) end a run, with rank 1.
rank : ℕ → ℕ
rank c = if c == 0 || is_digit c then 1 else weight c

-- Both at a digit or at the end.
abbrev Stops : Run → ℕ → ℤ → Type 0
Stops (returns r) size v = r ≡ v
Stops (reaches a b) size v =
    (v ≡ lex (key none a) (key none b))
    × (length a + length b ≤ size)
    × (at_run a ≡ true)
    × (at_run b ≡ true)
    × NoNul a
    × NoNul b

Stops-mono : (r : Run) {s t : ℕ} (v : ℤ) → s ≤ t → Stops r s v → Stops r t v
Stops-mono (returns r) v h m = m
Stops-mono (reaches a b) v h m = (m.0, omega arith, m.2, m.3, m.4, m.5)

-- An order is its rank less one.
order-rank : (c : ℕ) → pos_part (order c) + 1 ≡ rank c + neg_part (order c)
unfolding order rank is_digit
order-rank c = ground arith

clamp_lem : (m n : ℕ) → (m < n → clamp (sub_ℕ m n) ≡ negsuc 0) × (n < m → clamp (sub_ℕ m n) ≡ pos 1)
unfolding clamp
clamp_lem m n = (λ h. ground arith, λ h. ground arith)

-- On one round of the non-digit loop the keys differ as the orders do.
compare_orders-Stops :
    (x y : ℕ) (rest : Run) (size : ℕ) (v : ℤ)
    → (rank x ≡ rank y → Stops rest size v)
    → Stops (compare_orders x y rest) size (by (rank x) (rank y) v)
unfolding compare_orders
compare_orders-Stops x y rest size v m = ground (
  arith,
  order-rank x,
  order-rank y,
  clamp_lem (pos_part (order x) + neg_part (order y)) (pos_part (order y) + neg_part (order x)),
)

key-other : (c : ℕ) (s : Bytes) → is_digit c ≡ false → key none (c ∷ s) ≡ weight c ∷ key none s
unfolding key is_digit
key-other c s h = rw (h, key)

key_end : key none [] ≡ []
unfolding key
key_end = refl

key-head : (c : ℕ) (s : Bytes) → is_digit c ≡ true → (k : List ℕ) × (key none (c ∷ s) ≡ 1 ∷ k)
unfolding key is_digit
key-head c s h = (key (some (c - 48)) s, rw (h, key))

rank-other : (c : ℕ) → c ≢ 0 → is_digit c ≡ false → (rank c ≡ weight c) × (rank c ≢ 1)
unfolding rank is_digit
rank-other c i h = ground arith

rank-digit : (c : ℕ) → is_digit c ≡ true → rank c ≡ 1
unfolding rank
rank-digit c h = ground arith

-- Against the end of the other string.
left-Stops :
    (x : ℕ) (rest : Run) (size : ℕ) (v : ℤ)
    → Stops rest size v
    → Stops (compare_orders x (byte_at []) rest) size (by (rank x) 1 v)
unfolding byte_at rank is_digit
left-Stops x rest size v m = compare_orders-Stops x 0 rest size v (λ _. m)

right-Stops :
    (y : ℕ) (rest : Run) (size : ℕ) (v : ℤ)
    → Stops rest size v
    → Stops (compare_orders (byte_at []) y rest) size (by 1 (rank y) v)
unfolding byte_at rank is_digit
right-Stops y rest size v m = compare_orders-Stops 0 y rest size v (λ _. m)

-- A digit against a non-digit: the orders differ.
digit-Stops :
    (x y : ℕ) (rest : Run) (size : ℕ) (v : ℤ)
    → y ≢ 0
    → is_digit x ≡ true
    → is_digit y ≡ false
    → Stops (compare_orders x y rest) size (by 1 (weight y) v)
digit-Stops x y rest size v i d e =
    rw (rank-digit x d, (rank-other y i e).0) at
      (compare_orders-Stops x y rest size v
        (λ same. absurd ((rank-other y i e).1 (sym same ∙ rank-digit x d))))

other-Stops :
    (x y : ℕ) (rest : Run) (size : ℕ) (v : ℤ)
    → x ≢ 0
    → is_digit x ≡ false
    → is_digit y ≡ true
    → Stops (compare_orders x y rest) size (by (weight x) 1 v)
other-Stops x y rest size v i d e =
    rw (rank-digit y e, (rank-other x i d).0) at
      (compare_orders-Stops x y rest size v
        (λ same. absurd ((rank-other x i d).1 (same ∙ rank-digit y e))))

non_digit_run-Stops :
    (a b : Bytes)
    → NoNul a
    → NoNul b
    → Stops (non_digit_run a b) (length a + length b) (lex (key none a) (key none b))
unfolding non_digit_run at_run lex
non_digit_run-Stops [] [] u v = (refl, omega arith, refl, refl, tt, tt)
non_digit_run-Stops (x ∷ xs) [] u v = elim (Bool-cases (is_digit x)) [
  | inl d ↦ rw d (refl, omega arith, d, refl, u, tt)
  | inr d ↦
      rw (d, key_end, key-other x xs d, ← (rank-other x u.0 d).0)
        (left-Stops x _ _ _ (
          Stops-mono (non_digit_run xs []) _ (omega arith)
            (rw key_end at (non_digit_run-Stops xs [] u.1 tt))))
]
non_digit_run-Stops [] (y ∷ ys) u v = elim (Bool-cases (is_digit y)) [
  | inl d ↦ rw d (refl, omega arith, refl, d, tt, v)
  | inr d ↦
      rw (d, key_end, key-other y ys d, ← (rank-other y v.0 d).0)
        (right-Stops y _ _ _ (
          Stops-mono (non_digit_run [] ys) _ (omega arith)
            (rw key_end at (non_digit_run-Stops [] ys tt v.1))))
]
non_digit_run-Stops (x ∷ xs) (y ∷ ys) u v = elim (Bool-cases (is_digit x)) [
  | inl d ↦ elim (Bool-cases (is_digit y)) [
    | inl e ↦ rw (d, e) (refl, omega arith, d, e, u, v)
    | inr e ↦
        rw (d, e, (key-head x xs d).1, key-other y ys e)
          (digit-Stops x y (non_digit_run xs ys) (length (x ∷ xs) + length (y ∷ ys))
            (lex (key-head x xs d).0 (key none ys)) v.0 d e)
  ]
  | inr d ↦ elim (Bool-cases (is_digit y)) [
    | inl e ↦
        rw (d, (key-head y ys e).1, key-other x xs d)
          (other-Stops x y (non_digit_run xs ys) (length (x ∷ xs) + length (y ∷ ys))
            (lex (key none xs) (key-head y ys e).0) u.0 d e)
    | inr e ↦
        rw
          (
            d,
            key-other x xs d,
            key-other y ys e,
            ← (rank-other x u.0 d).0,
            ← (rank-other y v.0 e).0,
          )
          (compare_orders-Stops x y _ _ _ (λ _.
            Stops-mono (non_digit_run xs ys) _ (omega arith) (non_digit_run-Stops xs ys u.1 v.1)))
  ]
]

finish-Meets :
    (r : Run) (size : ℕ) (v : ℤ)
    → Stops r size v
    → Meets
        (elim r [
          | returns s ↦ returns s
          | reaches a b ↦ digit_run (pos 0) (strip_zeros a) (strip_zeros b)
        ])
        size
        v
finish-Meets (returns s) size v m = m
finish-Meets (reaches a b) size v (e, l, p, q, m, n) =
    Meets-mono (digit_run (pos 0) (strip_zeros a) (strip_zeros b)) _ l
      (rw e (numbers-Meets a b p q m n))

round-Meets :
    (a b : Bytes)
    → NoNul a
    → NoNul b
    → Meets (round a b) (length a + length b) (lex (key none a) (key none b))
unfolding round
round-Meets a b u v = finish-Meets (non_digit_run a b) _ _ (non_digit_run-Stops a b u v)

-- The loop from two parts on, under the fuel.
abbrev Decides : ℕ → Bytes → Bytes → Type 0
Decides fuel a b = verrevcmp_loop fuel a b ≡ some (lex (key none a) (key none b))

round-Decides :
    (fuel : ℕ) (r : Run) (size : ℕ) (v : ℤ)
    → ((a b : Bytes) → NoNul a → NoNul b → length a + length b < fuel → Decides fuel a b)
    → 0 < size
    → size < suc fuel
    → Meets r size v
    → (elim r [ returns s ↦ some s | reaches a b ↦ verrevcmp_loop fuel a b ]) ≡ some v
round-Decides fuel (returns r) size v ih pos_size h m = ap some m
round-Decides fuel (reaches a b) size v ih pos_size h (e, l, m, n) =
    ih a b m n (omega arith) ∙ ap some (sym e)

-- With more fuel than bytes the outer loop ends, with the order of the keys.
loop-Decides :
    (fuel : ℕ) (a b : Bytes) → NoNul a → NoNul b → length a + length b < fuel → Decides fuel a b
unfolding verrevcmp_loop lex
loop-Decides zero a b u v h = absurd (omega arith)
loop-Decides (suc fuel) [] [] u v h = rw key_end refl
loop-Decides (suc fuel) [] (y ∷ ys) u v h =
    round-Decides fuel (round [] (y ∷ ys)) _ _ (loop-Decides fuel) (omega arith) h
      (round-Meets [] (y ∷ ys) u v)
loop-Decides (suc fuel) (x ∷ xs) b u v h =
    round-Decides fuel (round (x ∷ xs) b) _ _ (loop-Decides fuel) (omega arith) h
      (round-Meets (x ∷ xs) b u v)

pub verrevcmp-lex :
    (a b : Bytes) → NoNul a → NoNul b → verrevcmp a b ≡ some (lex (key none a) (key none b))
verrevcmp-lex a b u v =
    unfold verrevcmp in loop-Decides (length a + length b + 1) a b u v (omega arith)
