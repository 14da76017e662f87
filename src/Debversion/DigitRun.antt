-- ===== src/Debversion/DigitRun.antt =====
-- The digit loop of verrevcmp, behind the leading zeros, against the numbers in the keys.
use apt_cacher_ultra.Base.{
  ℕ, zero, suc, ◌+◌, ◌-◌, ◌*◌, ◌≤◌, ◌<◌, ◌≡◌, refl, ◌≢◌, inl, inr, true, false, ◌&&◌, none, some,
  [], ◌∷◌, is_zero, ◌==◌, if◌then◌else◌, sub_ℕ, arith, length, Bytes, ℤ, pos, negsuc, Bool-cases,
}
use apt_cacher_ultra.Debversion.Key.{key, lex}
use apt_cacher_ultra.Debversion.{is_digit, strip_zeros, at_digit, digit_run}
use apt_cacher_ultra.Debversion.Digits.{
  number, number-le, further, lex-key-at_run, key-strip_zeros, at_run, NonZeroHead, Diff,
  SameLength, NoNul, Meets, after_digits-Meets,
}

Diff-step :
    (fd : ℤ) (m n x y : ℕ)
    → Diff fd m n
    → is_digit x ≡ true
    → is_digit y ≡ true
    → Diff (if is_zero fd then sub_ℕ x y else fd) (m * 10 + (x - 48)) (n * 10 + (y - 48))
unfolding is_digit
Diff-step (pos zero) m n x y d p q = ground arith
Diff-step (pos (suc k)) m n x y d p q = ground arith
Diff-step (negsuc k) m n x y d p q = ground arith

SameLength-step :
    {p m n : ℕ} (x y : ℕ)
    → SameLength p m n
    → is_digit x ≡ true
    → is_digit y ≡ true
    → SameLength (10 * p) (m * 10 + (x - 48)) (n * 10 + (y - 48))
unfolding is_digit
SameLength-step x y l p q = ground arith

key-step :
    (n c : ℕ) (s : Bytes)
    → is_digit c ≡ true
    → key (some n) (c ∷ s) ≡ key (some (n * 10 + (c - 48))) s
unfolding key is_digit
key-step n c s h = rw (h, key)

longer :
    {p m n : ℕ} (s : Bytes)
    → SameLength p m n
    → at_digit s ≡ true
    → (n < number m s) × (m < number n s)
longer {m = m} {n = n} s l h = (omega (arith, further m s h), omega (arith, further n s h))

digit_run-Meets :
    (fd : ℤ) (p m n size : ℕ) (a b : Bytes)
    → Diff fd m n
    → SameLength p m n
    → NoNul a
    → NoNul b
    → length a + length b ≤ size - 1
    → Meets (digit_run fd a b) size (lex (key (some m) a) (key (some n) b))
unfolding digit_run
digit_run-Meets fd p m n size [] b d l u v fits =
    after_digits-Meets fd m n size [] b d (λ h. (longer [] l h).0) (λ h. (longer b l h).1) u v
      (unfold at_digit in refl) (λ _ _. fits)
digit_run-Meets fd p m n size (x ∷ xs) [] d l u v fits =
    after_digits-Meets fd m n size (x ∷ xs) [] d (λ h. (longer (x ∷ xs) l h).0)
      (λ h. (longer [] l h).1) u v (unfold at_digit in ground arith) (λ _ _. fits)
digit_run-Meets fd p m n size (x ∷ xs) (y ∷ ys) d l u v fits =
    elim (Bool-cases (is_digit x && is_digit y)) [
      | inl e ↦
          let p' : is_digit x ≡ true = ground arith in
          let q' : is_digit y ≡ true = ground arith in
          rw (e, key-step m x xs p', key-step n y ys q')
            (digit_run-Meets (if is_zero fd then sub_ℕ x y else fd) (10 * p) (m * 10 + (x - 48))
              (n * 10 + (y - 48)) size xs ys (Diff-step fd m n x y d p' q')
              (SameLength-step x y l p' q') u.1 v.1 (omega arith))
      | inr e ↦ rw e (
          after_digits-Meets fd m n size (x ∷ xs) (y ∷ ys) d (λ h. (longer (x ∷ xs) l h).0)
            (λ h. (longer (y ∷ ys) l h).1) u v (unfold at_digit in e) (λ _ _. fits))
    ]

leading : (s : Bytes) → NonZeroHead s → at_digit s ≡ true → 0 < number 0 s
unfolding number at_digit is_digit
leading [] i h = cc
leading (c ∷ cs) i h = rw h (omega (arith, number-le (0 * 10 + (c - 48)) cs, first))
  where
    first : 48 < c
    first = ground arith

first_digits :
    (x y : ℕ)
    → x ≢ 48
    → y ≢ 48
    → is_digit x ≡ true
    → is_digit y ≡ true
    → Diff (sub_ℕ x y) (0 * 10 + (x - 48)) (0 * 10 + (y - 48))
      × SameLength 1 (0 * 10 + (x - 48)) (0 * 10 + (y - 48))
unfolding is_digit
first_digits x y i j p q = ground arith

-- The first round of the digit loop, behind the leading zeros: nothing is read yet.
digit_run-start :
    (size : ℕ) (a b : Bytes)
    → NonZeroHead a
    → NonZeroHead b
    → NoNul a
    → NoNul b
    → length a + length b ≤ size
    → (at_digit a ≡ false → at_digit b ≡ false → length a + length b ≤ size - 1)
    → Meets (digit_run (pos 0) a b) size (lex (key (some 0) a) (key (some 0) b))
unfolding digit_run
digit_run-start size [] b i j u v fits short =
    after_digits-Meets (pos 0) 0 0 size [] b refl (leading [] i) (leading b j) u v
      (unfold at_digit in refl) short
digit_run-start size (x ∷ xs) [] i j u v fits short =
    after_digits-Meets (pos 0) 0 0 size (x ∷ xs) [] refl (leading (x ∷ xs) i) (leading [] j) u v
      (unfold at_digit in ground arith) short
digit_run-start size (x ∷ xs) (y ∷ ys) i j u v fits short =
    elim (Bool-cases (is_digit x && is_digit y)) [
      | inl e ↦
          let p' : is_digit x ≡ true = ground arith in
          let q' : is_digit y ≡ true = ground arith in
          rw (e, key-step 0 x xs p', key-step 0 y ys q')
            (digit_run-Meets (sub_ℕ x y) 1 _ _ size xs ys (first_digits x y i j p' q').0
              (first_digits x y i j p' q').1 u.1 v.1 (omega arith))
      | inr e ↦ rw e (
          after_digits-Meets (pos 0) 0 0 size (x ∷ xs) (y ∷ ys) refl (leading (x ∷ xs) i)
            (leading (y ∷ ys) j) u v (unfold at_digit in e) short)
    ]

strip_zeros-NonZeroHead : (s : Bytes) → NonZeroHead (strip_zeros s)
unfolding strip_zeros
strip_zeros-NonZeroHead [] = tt
strip_zeros-NonZeroHead (c ∷ cs) = ground (arith, strip_zeros-NonZeroHead cs)

strip_zeros-NoNul : (s : Bytes) → NoNul s → NoNul (strip_zeros s)
unfolding strip_zeros
strip_zeros-NoNul [] u = tt
strip_zeros-NoNul (c ∷ cs) u = elim (Bool-cases (c == 48)) [
  | inl e ↦ rw e (strip_zeros-NoNul cs u.1)
  | inr e ↦ rw e u
]

length-strip_zeros-le : (s : Bytes) → length (strip_zeros s) ≤ length s
unfolding strip_zeros
length-strip_zeros-le [] = omega arith
length-strip_zeros-le (c ∷ cs) = ground (arith, length-strip_zeros-le cs)

-- From a place that is at a digit or at the end: no digit is left only if a zero was dropped.
strip_zeros-short :
    (s : Bytes)
    → at_run s ≡ true
    → at_digit (strip_zeros s) ≡ false
    → length (strip_zeros s) ≤ length s - 1
unfolding strip_zeros at_run at_digit
strip_zeros-short [] h e = omega arith
strip_zeros-short (c ∷ cs) h e = elim (Bool-cases (c == 48)) [
  | inl z ↦ rw z (omega (arith, length-strip_zeros-le cs))
  | inr z ↦ cc (rw z at e)
]

-- The number part of a round, from where the non-digit loop ends.
pub numbers-Meets :
    (a b : Bytes)
    → at_run a ≡ true
    → at_run b ≡ true
    → NoNul a
    → NoNul b
    → Meets
        (digit_run (pos 0) (strip_zeros a) (strip_zeros b))
        (length a + length b)
        (lex (key none a) (key none b))
numbers-Meets a b p q u v =
    rw (lex-key-at_run a b p q, ← key-strip_zeros a, ← key-strip_zeros b)
      (digit_run-start (length a + length b) (strip_zeros a) (strip_zeros b)
        (strip_zeros-NonZeroHead a) (strip_zeros-NonZeroHead b) (strip_zeros-NoNul a u)
        (strip_zeros-NoNul b v) (omega (arith, length-strip_zeros-le a, length-strip_zeros-le b))
        (λ h k. omega (
          arith,
          strip_zeros-short a p h,
          strip_zeros-short b q k,
          length-strip_zeros-le a,
          length-strip_zeros-le b,
        )))
