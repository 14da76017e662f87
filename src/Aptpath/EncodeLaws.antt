-- ===== src/Aptpath/EncodeLaws.antt =====
-- The encoding of a path against percent-decoding as RFC 3986 describes it.
use apt_cacher_ultra.Base.{
  ℕ, zero, suc, ◌+◌, ◌-◌, ◌*◌, ◌/◌, ◌%◌, ◌<◌, ◌≡◌, refl, inl, inr, Bool, true, false, not, ◌&&◌,
  ◌||◌, Option, none, some, [], ◌∷◌, leb, ltb, ◌==◌, if◌then◌else◌, arith, get_or, All, Bytes,
  contains_byte, Bool-cases,
}
use apt_cacher_ultra.Aptpath.Encode.{
  hex_lower, escaped_bytes, needs_escape, count_escapes, write_escaped, apt_encode_path,
}

-- The value of a hexadecimal digit, in either case.
abbrev pub unhex : ℕ → Option ℕ
unhex c =
    if leb b'0' c && leb c b'9'
    then some (c - 48)
    else if leb b'a' c && leb c b'f'
    then some (c - 87)
    else if leb b'A' c && leb c b'F'
    then some (c - 55)
    else none

unfoldable pub octet : Option ℕ → Option ℕ → Option ℕ
octet (some h) (some l) = some (h * 16 + l)
octet _ _ = none

unfoldable pub push : Option ℕ → Option Bytes → Option Bytes
push (some c) (some cs) = some (c ∷ cs)
push _ _ = none

-- A percent sign stands before two hexadecimal digits; any other byte stands for itself.
unfoldable pub percent_decode : Bytes → Option Bytes
percent_decode [] = some []
percent_decode (c ∷ []) = if c == b'%' then none else some (c ∷ [])
percent_decode (c ∷ d ∷ []) =
    let rest = percent_decode (d ∷ []) in if c == b'%' then none else push (some c) rest
percent_decode (c ∷ d ∷ e ∷ cs) =
    let coded = percent_decode cs in
    let rest = percent_decode (d ∷ e ∷ cs) in
    if c == b'%' then push (octet (unhex d) (unhex e)) coded else push (some c) rest

percent_decode-plain :
    (c : ℕ) (cs : Bytes)
    → (c == b'%') ≡ false
    → percent_decode (c ∷ cs) ≡ push (some c) (percent_decode cs)
unfolding percent_decode push
percent_decode-plain c [] h = rw h refl
percent_decode-plain c (d ∷ []) h = rw h refl
percent_decode-plain c (d ∷ e ∷ cs) h = rw h refl

-- A test of the numbers from 0 up to a bound, and what it shows of each of them.
tries : (ℕ → Bool) → ℕ → Bool
tries ok zero = true
tries ok (suc m) = tries ok m && ok m

tries_sound : (ok : ℕ → Bool) (i m : ℕ) → i < m → tries ok m ≡ true → ok i ≡ true
unfolding tries
tries_sound ok i (suc m) less tried = ground (arith, tries_sound ok i m)
tries_sound ok i zero less tried = absurd (omega arith)

-- Every digit of the table reads back as its place.
is_digit_of : ℕ → Bool
is_digit_of n = elim (unhex (get_or hex_lower n 0)) [ none ↦ false | some m ↦ m == n ]

unhex-hex_lower : (n : ℕ) → n < 16 → unhex (get_or hex_lower n 0) ≡ some n
unfolding is_digit_of tries
unhex-hex_lower n h = ground (arith, tries_sound is_digit_of n 16 h refl)

percent_decode-escaped :
    (c : ℕ) (cs : Bytes)
    → c < 256
    → percent_decode (b'%' ∷ get_or hex_lower (c / 16) 0 ∷ get_or hex_lower (c % 16) 0 ∷ cs)
      ≡ push (some c) (percent_decode cs)
unfolding percent_decode octet
percent_decode-escaped c cs h =
    let same : c / 16 * 16 + c % 16 ≡ c = omega arith in
    rw (unhex-hex_lower (c / 16) (omega arith), unhex-hex_lower (c % 16) (omega arith), same) refl

not_percent : (c : ℕ) → needs_escape c ≡ false → (c == b'%') ≡ false
unfolding needs_escape contains_byte
not_percent c h = ground arith

write_escaped-decodes :
    (p : Bytes) → All (λ c. c < 256) p → percent_decode (write_escaped p) ≡ some p
unfolding write_escaped push
write_escaped-decodes [] h = unfold percent_decode in refl
write_escaped-decodes (c ∷ cs) h = elim (Bool-cases (needs_escape c)) [
  | inl e ↦
      rw (e, percent_decode-escaped c (write_escaped cs) h.0, write_escaped-decodes cs h.1) refl
  | inr e ↦
      rw
        (
          e,
          percent_decode-plain c (write_escaped cs) (not_percent c e),
          write_escaped-decodes cs h.1,
        )
        refl
]

-- With nothing to escape the loop copies the path.
write_escaped-plain : (p : Bytes) → (count_escapes p == 0) ≡ true → write_escaped p ≡ p
unfolding write_escaped count_escapes
write_escaped-plain [] h = refl
write_escaped-plain (c ∷ cs) h = ground (arith, write_escaped-plain cs)

apt_encode_path-write_escaped : (p : Bytes) → apt_encode_path p ≡ write_escaped p
unfolding apt_encode_path
apt_encode_path-write_escaped p = ground (arith, write_escaped-plain p)

-- Decoding the encoded path gives the path back, for every list of bytes.
pub percent_decode-apt_encode_path :
    (p : Bytes) → All (λ c. c < 256) p → percent_decode (apt_encode_path p) ≡ some p
percent_decode-apt_encode_path p h =
    rw (apt_encode_path-write_escaped p) (write_escaped-decodes p h)

-- A byte that stands in an encoded path: visible ASCII, and of the bytes that are escaped only the
-- percent sign itself.
abbrev pub IsSafe : ℕ → Type 0
IsSafe c = (0x20 < c) × (c < 0x7f) × (contains_byte escaped_bytes c ≡ true → c ≡ b'%')

unescaped-IsSafe : (c : ℕ) → needs_escape c ≡ false → IsSafe c
unfolding needs_escape
unescaped-IsSafe c h = ground arith

is_safe : ℕ → Bool
is_safe c = ltb 0x20 c && ltb c 0x7f && (not (contains_byte escaped_bytes c) || c == b'%')

is_safe-IsSafe : (c : ℕ) → is_safe c ≡ true → IsSafe c
unfolding is_safe
is_safe-IsSafe c h = ground arith

digit-IsSafe : (n : ℕ) → n < 16 → IsSafe (get_or hex_lower n 0)
unfolding is_safe contains_byte tries
digit-IsSafe n h =
    is_safe-IsSafe (get_or hex_lower n 0)
      (tries_sound (λ k. is_safe (get_or hex_lower k 0)) n 16 h refl)

write_escaped-IsSafe : (p : Bytes) → All (λ c. c < 256) p → All IsSafe (write_escaped p)
unfolding write_escaped
write_escaped-IsSafe [] h = tt
write_escaped-IsSafe (c ∷ cs) h = elim (Bool-cases (needs_escape c)) [
  | inl e ↦ rw e (
    (omega arith, omega arith, λ _. refl),
    (
      digit-IsSafe (c / 16) (omega arith),
      (digit-IsSafe (c % 16) (omega arith), write_escaped-IsSafe cs h.1),
    ),
  )
  | inr e ↦ rw e (unescaped-IsSafe c e, write_escaped-IsSafe cs h.1)
]

-- An encoded path holds visible ASCII only, and none of the bytes that the encoding escapes but
-- its own percent signs.
pub apt_encode_path-IsSafe : (p : Bytes) → All (λ c. c < 256) p → All IsSafe (apt_encode_path p)
apt_encode_path-IsSafe p h = rw (apt_encode_path-write_escaped p) (write_escaped-IsSafe p h)
