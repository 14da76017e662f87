-- ===== src/Debversion/Epoch.antt =====
-- compareNumericString against the numbers that the epochs write.
use apt_cacher_ultra.Base.{
  ℕ, ◌+◌, ◌-◌, ◌*◌, ◌≤◌, ◌<◌, ◌≡◌, refl, ap, not, inl, inr, true, false, [], ◌∷◌, ltb, ◌==◌,
  if◌then◌else◌, arith, length, all, Bytes, pos, negsuc, trim_left, bytes_lt, Bool-cases, ==_iff,
}
use apt_cacher_ultra.Debversion.Key.{by}
use apt_cacher_ultra.Debversion.{is_digit, compare_numeric_string}

-- The number that digits write, on top of those already read.
unfoldable pub value : ℕ → Bytes → ℕ
value n [] = n
value n (c ∷ cs) = value (n * 10 + (c - 48)) cs

abbrev IsNumber : Bytes → Type 0
IsNumber s = all is_digit s ≡ true

digit_bounds : (c : ℕ) → is_digit c ≡ true → (48 ≤ c) × (c < 58)
unfolding is_digit
digit_bounds c h = ground arith

IsNumber-cons : (c : ℕ) (s : Bytes) → IsNumber (c ∷ s) → (is_digit c ≡ true) × IsNumber s
IsNumber-cons c s h = ground arith

value-lt-same :
    (m n : ℕ) (a b : Bytes)
    → IsNumber a
    → IsNumber b
    → length a ≡ length b
    → m < n
    → value m a < value n b
unfolding value
value-lt-same m n [] [] p q l h = h
value-lt-same m n [] (y ∷ b) p q l h = absurd (omega arith)
value-lt-same m n (x ∷ a) [] p q l h = absurd (omega arith)
value-lt-same m n (x ∷ a) (y ∷ b) p q l h =
    let (dx, ia) = IsNumber-cons x a p in
    let (dy, ib) = IsNumber-cons y b q in
    value-lt-same (m * 10 + (x - 48)) (n * 10 + (y - 48)) a b ia ib (omega arith)
      (omega (arith, digit_bounds x dx, digit_bounds y dy))

value-lt-longer :
    (m n : ℕ) (a b : Bytes)
    → IsNumber a
    → IsNumber b
    → length a < length b
    → m ≤ n
    → 1 ≤ n
    → value m a < value n b
unfolding value
value-lt-longer m n a [] p q l h k = absurd (omega arith)
value-lt-longer m n a (y ∷ b) p q l h k =
    let (dy, ib) = IsNumber-cons y b q in
    elim (Bool-cases (length a == length b)) [
      | inl e ↦ value-lt-same m (n * 10 + (y - 48)) a b p ib ((==_iff _ _).0 e) (omega arith)
      | inr e ↦
          value-lt-longer m (n * 10 + (y - 48)) a b p ib (ground arith) (omega arith) (omega arith)
    ]

value-bytes_lt :
    (n : ℕ) (a b : Bytes)
    → IsNumber a
    → IsNumber b
    → length a ≡ length b
    → bytes_lt a b ≡ true
    → value n a < value n b
unfolding value bytes_lt
value-bytes_lt n [] [] p q l h = cc
value-bytes_lt n [] (y ∷ b) p q l h = absurd (omega arith)
value-bytes_lt n (x ∷ a) [] p q l h = absurd (omega arith)
value-bytes_lt n (x ∷ a) (y ∷ b) p q l h =
    let (dx, ia) = IsNumber-cons x a p in
    let (dy, ib) = IsNumber-cons y b q in
    elim (Bool-cases (ltb x y)) [
      | inl e ↦
          value-lt-same (n * 10 + (x - 48)) (n * 10 + (y - 48)) a b ia ib (omega arith)
            (ground (arith, digit_bounds x dx, digit_bounds y dy))
      | inr e ↦
          let same : x ≡ y = ground arith in
          rw same (value-bytes_lt (n * 10 + (y - 48)) a b ia ib (omega arith) (ground arith))
    ]

bytes_lt-neither : (a b : Bytes) → bytes_lt a b ≡ false → bytes_lt b a ≡ false → a ≡ b
unfolding bytes_lt
bytes_lt-neither (x ∷ a) (y ∷ b) p q = ground (arith, bytes_lt-neither a b)
bytes_lt-neither _ _ p q = ground arith

IsNumber-trim_left : (s : Bytes) → IsNumber s → IsNumber (trim_left b'0' s)
unfolding trim_left
IsNumber-trim_left [] h = refl
IsNumber-trim_left (c ∷ cs) h = elim (Bool-cases (c == 48)) [
  | inl e ↦ rw e (IsNumber-trim_left cs (IsNumber-cons c cs h).1)
  | inr e ↦ rw e h
]

value-trim_left : (s : Bytes) → value 0 (trim_left b'0' s) ≡ value 0 s
unfolding trim_left value
value-trim_left [] = refl
value-trim_left (c ∷ cs) = elim (Bool-cases (c == 48)) [
  | inl e ↦ rw ((==_iff c 48).0 e) (value-trim_left cs)
  | inr e ↦ rw e
]

trim_left-head : (c : ℕ) (r s : Bytes) → trim_left b'0' s ≡ c ∷ r → (c == b'0') ≡ false
unfolding trim_left
trim_left-head c r [] e = cc
trim_left-head c r (x ∷ s) e = ground (arith, trim_left-head c r s)

-- With no leading zero the longer number is the larger one.
value-lt-length :
    (a b : Bytes)
    → IsNumber a
    → IsNumber b
    → length a < length b
    → ((c : ℕ) (r : Bytes) → b ≡ c ∷ r → (c == b'0') ≡ false)
    → value 0 a < value 0 b
unfolding value
value-lt-length a [] p q l lead = absurd (omega arith)
value-lt-length a (y ∷ b) p q l lead =
    let (dy, ib) = IsNumber-cons y b q in
    let big : 1 ≤ 0 * 10 + (y - 48) = ground (arith, digit_bounds y dy, lead y b refl) in
    elim (Bool-cases (length a == length b)) [
      | inl e ↦ value-lt-same 0 (0 * 10 + (y - 48)) a b p ib ((==_iff _ _).0 e) big
      | inr e ↦ value-lt-longer 0 (0 * 10 + (y - 48)) a b p ib (ground arith) (omega arith) big
    ]

neither : (a b : Bytes) → bytes_lt a b ≡ false → bytes_lt b a ≡ false → value 0 a ≡ value 0 b
neither a b p q = ap (value 0) (bytes_lt-neither a b p q)

-- The comparison of two numbers with no leading zero, by length and then by bytes.
trimmed-value :
    (a b : Bytes)
    → IsNumber a
    → IsNumber b
    → ((c : ℕ) (r : Bytes) → a ≡ c ∷ r → (c == b'0') ≡ false)
    → ((c : ℕ) (r : Bytes) → b ≡ c ∷ r → (c == b'0') ≡ false)
    → (if not (length a == length b)
        then (if ltb (length a) (length b) then negsuc 0 else pos 1)
        else if bytes_lt a b
        then negsuc 0
        else if bytes_lt b a
        then pos 1
        else pos 0)
      ≡ by (value 0 a) (value 0 b) (pos 0)
trimmed-value a b p q i j = ground (
  arith,
  λ (l : length a < length b). value-lt-length a b p q l j,
  λ (l : length b < length a). value-lt-length b a q p l i,
  value-bytes_lt 0 a b p q,
  value-bytes_lt 0 b a q p,
  neither a b,
)

pub compare_numeric_string-value :
    (a b : Bytes)
    → IsNumber a
    → IsNumber b
    → compare_numeric_string a b ≡ by (value 0 a) (value 0 b) (pos 0)
unfolding compare_numeric_string
compare_numeric_string-value a b p q =
    rw (← value-trim_left a, ← value-trim_left b)
      (trimmed-value (trim_left b'0' a) (trim_left b'0' b) (IsNumber-trim_left a p)
        (IsNumber-trim_left b q) (λ c r. trim_left-head c r a) (λ c r. trim_left-head c r b))
