-- ===== src/Debversion/Digits.antt =====
-- The numbers in the keys, and what follows the digit loop of verrevcmp.
use apt_cacher_ultra.Base.{
  ℕ, zero, suc, ◌+◌, ◌-◌, ◌*◌, ◌≤◌, ◌<◌, ◌≡◌, refl, sym, ap, ◌≢◌, inl, inr, Bool, true, false, ◌&&◌,
  none, some, [], ◌∷◌, is_zero, ◌==◌, if◌then◌else◌, arith, length, All, Bytes, ℤ, pos, negsuc,
  Bool-cases, ==_iff,
}
use apt_cacher_ultra.Debversion.Key.{key, lex, by}
use apt_cacher_ultra.Debversion.{
  Run, returns, reaches, is_digit, strip_zeros, at_digit, after_digits, clamp,
}

-- The number at the head of a part, on top of the digits already read, and what follows it.
unfoldable pub number : ℕ → Bytes → ℕ
number n [] = n
number n (c ∷ cs) = if is_digit c then number (n * 10 + (c - 48)) cs else n

unfoldable pub behind : Bytes → Bytes
behind [] = []
behind (c ∷ cs) = if is_digit c then behind cs else c ∷ cs

pub number-le : (n : ℕ) (s : Bytes) → n ≤ number n s
unfolding number
number-le n [] = omega arith
number-le n (c ∷ cs) = ground (arith, number-le (n * 10 + (c - 48)) cs)

key-some : (n : ℕ) (s : Bytes) → key (some n) s ≡ suc (number n s) ∷ key none (behind s)
unfolding key number behind is_digit
key-some n [] = refl
key-some n (c ∷ cs) = ground (arith, key-some (n * 10 + (c - 48)) cs)

pub key-strip_zeros : (s : Bytes) → key (some 0) (strip_zeros s) ≡ key (some 0) s
unfolding key strip_zeros
key-strip_zeros [] = refl
key-strip_zeros (c ∷ cs) = elim (Bool-cases (c == 48)) [
  | inl e ↦ rw ((==_iff c 48).0 e) (key-strip_zeros cs)
  | inr e ↦ rw e
]

key-digit : (c : ℕ) (s : Bytes) → is_digit c ≡ true → key none (c ∷ s) ≡ 1 ∷ key (some 0) (c ∷ s)
unfolding key is_digit
key-digit c s h = rw (h, key) (ap (λ (n : ℕ). 1 ∷ key (some n) s) (omega arith))

-- Not at a non-digit.
unfoldable pub at_run : Bytes → Bool
at_run [] = true
at_run (c ∷ cs) = is_digit c

-- Between two non-digit runs that ended together, the keys go on with the two numbers.
pub lex-key-at_run :
    (a b : Bytes)
    → at_run a ≡ true
    → at_run b ≡ true
    → lex (key none a) (key none b) ≡ lex (key (some 0) a) (key (some 0) b)
unfolding at_run lex
lex-key-at_run [] [] p q = unfold key in refl
lex-key-at_run (x ∷ a) [] p q =
    rw (key-digit x a p, key-some 0 (x ∷ a), key-some 0 []) (unfold key number behind in refl)
lex-key-at_run [] (y ∷ b) p q =
    rw (key-digit y b q, key-some 0 (y ∷ b), key-some 0 []) (unfold key number behind in refl)
lex-key-at_run (x ∷ a) (y ∷ b) p q = rw (key-digit x a p, key-digit y b q)

abbrev pub NonZeroHead : Bytes → Type 0
NonZeroHead [] = Unit
NonZeroHead (c ∷ cs) = c ≢ 48

-- The digits read so far: the same count on both sides, with no leading zero, and the sign of
-- their difference in `first_diff`.
abbrev pub Diff : ℤ → ℕ → ℕ → Type 0
Diff (pos zero) m n = m ≡ n
Diff (pos (suc d)) m n = n < m
Diff (negsuc d) m n = m < n

pub record SameLength (p m n : ℕ) : Type 0 where
  pub positive : 1 ≤ p
  pub left : p ≤ m
  pub left_below : m < 10 * p
  pub right : p ≤ n
  pub right_below : n < 10 * p

abbrev pub NoNul : Bytes → Type 0
NoNul = All (λ c. c ≢ 0)

-- What a loop says of two parts whose keys compare as `v`: it returns `v`, or it leaves the
-- comparison to what is left, which is shorter than `size`.
abbrev pub Meets : Run → ℕ → ℤ → Type 0
Meets (returns r) size v = r ≡ v
Meets (reaches a b) size v =
    (v ≡ lex (key none a) (key none b)) × (length a + length b ≤ size - 1) × NoNul a × NoNul b

pub Meets-mono : (r : Run) {s t : ℕ} (v : ℤ) → s ≤ t → Meets r s v → Meets r t v
Meets-mono (returns r) v h m = m
Meets-mono (reaches a b) v h m = (m.0, omega arith, m.2, m.3)

stopped : (n : ℕ) (s : Bytes) → at_digit s ≡ false → (number n s ≡ n) × (behind s ≡ s)
unfolding number behind at_digit
stopped n [] h = (refl, refl)
stopped n (c ∷ cs) h = (rw h, rw h)

pub further : (n : ℕ) (s : Bytes) → at_digit s ≡ true → n * 10 ≤ number n s
unfolding number at_digit
further n [] h = cc
further n (c ∷ cs) h = rw h (omega (arith, number-le (n * 10 + (c - 48)) cs))

by_gt : (x y : ℕ) (r : ℤ) → y < x → by x y r ≡ pos 1
by_gt x y r h = ground arith

by_lt : (x y : ℕ) (r : ℤ) → x < y → by x y r ≡ negsuc 0
by_lt x y r h = ground arith

-- The sign of the difference decides, or the rest does.
by-Diff :
    (d : ℤ) (m n : ℕ) (r : ℤ)
    → Diff d m n
    → by (suc m) (suc n) r ≡ (if is_zero d then r else clamp d)
unfolding clamp
by-Diff (pos zero) m n r h = ground arith
by-Diff (pos (suc d)) m n r h = ground arith
by-Diff (negsuc d) m n r h = ground arith

-- `m` and `n` are read; whichever part has a digit left holds the larger number.
pub after_digits-Meets :
    (fd : ℤ) (m n size : ℕ) (a b : Bytes)
    → Diff fd m n
    → (at_digit a ≡ true → n < number m a)
    → (at_digit b ≡ true → m < number n b)
    → NoNul a
    → NoNul b
    → (at_digit a && at_digit b) ≡ false
    → (at_digit a ≡ false → at_digit b ≡ false → length a + length b ≤ size - 1)
    → Meets (after_digits fd a b) size (lex (key (some m) a) (key (some n) b))
unfolding after_digits lex
after_digits-Meets fd m n size a b d long_a long_b u v h fits =
    rw (key-some m a, key-some n b)
      (elim (Bool-cases (at_digit a)) [
        | inl e ↦ rw e (
            sym (
              by_gt (suc (number m a)) (suc (number n b)) _
                (omega (arith, long_a e, (stopped n b (rw e at h)).0))))
        | inr e ↦ rw e (elim (Bool-cases (at_digit b)) [
          | inl f ↦ rw f (
              sym (
                by_lt (suc (number m a)) (suc (number n b)) _
                  (omega (arith, long_b f, (stopped m a e).0))))
          | inr f ↦
              rw
                (
                  f,
                  (stopped m a e).0,
                  (stopped m a e).1,
                  (stopped n b f).0,
                  (stopped n b f).1,
                  by-Diff fd m n _ d,
                )
                (elim (Bool-cases (is_zero fd)) [
                  | inl z ↦ rw z (refl, fits e f, u, v)
                  | inr z ↦ rw z refl
                ])
        ])
      ])
