-- ===== src/Debversion.antt =====
-- internal/debversion/debversion.go: dpkg's version order. A Go string is its list of bytes, and
-- an index that only moves forward is the suffix that it leaves: `ai < la` says that the suffix is
-- not empty. The outer loop of verrevcmp runs on fuel.
pub mod Key
pub mod Digits
mod DigitRun
mod Loop
mod Epoch
pub mod Compare
pub mod Order
mod Tests
use apt_cacher_ultra.Base.{
  ℕ, zero, suc, ◌+◌, ◌-◌, Bool, true, false, not, ◌&&◌, ◌||◌, Option, none, some, List, [], ◌∷◌,
  ltb, leb, ◌==◌, if◌then◌else◌, length, take, drop, all, Bytes, ℤ, pos, negsuc, sub_ℕ, ◌-ℤ◌,
  is_zero, index_byte, last_index_byte, trim_left, bytes_lt,
}

unfoldable pub is_digit : ℕ → Bool
is_digit c = leb b'0' c && leb c b'9'

-- `for i := 0; i < len(s); i++`, behind the test for the empty string.
pub is_all_digits : Bytes → Bool
is_all_digits [] = false
is_all_digits (c ∷ cs) = all is_digit (c ∷ cs)

-- Go's byteAt at the head of a suffix: 0 at the end of the string.
byte_at : Bytes → ℕ
byte_at [] = 0
byte_at (c ∷ cs) = c

pub order : ℕ → ℤ
order c =
    if is_digit c
    then pos 0
    else if (leb b'a' c && leb c b'z') || (leb b'A' c && leb c b'Z')
    then pos c
    else if c == b'~'
    then negsuc 0
    else if c == 0
    then pos 0
    else pos (c + 256)

pub clamp : ℤ → ℤ
clamp (negsuc n) = negsuc 0
clamp (pos zero) = pos 0
clamp (pos (suc n)) = pos 1

-- How a loop inside verrevcmp ends: the function returns, or the two indices stand further on.
pub data Run : Type 0 where
  returns : ℤ → Run
  reaches : Bytes → Bytes → Run

-- One round of the non-digit loop: `rest` is the loop behind the two bytes.
pub compare_orders : ℕ → ℕ → Run → Run
compare_orders x y rest =
    if is_zero (order x -ℤ order y) then rest else returns (clamp (order x -ℤ order y))

-- The non-digit loop. An index at the end stays there, and reads 0.
pub non_digit_run : Bytes → Bytes → Run
non_digit_run [] [] = reaches [] []
non_digit_run (x ∷ xs) [] =
    if not (is_digit x)
    then compare_orders x (byte_at []) (non_digit_run xs [])
    else reaches (x ∷ xs) []
non_digit_run [] (y ∷ ys) =
    if not (is_digit y)
    then compare_orders (byte_at []) y (non_digit_run [] ys)
    else reaches [] (y ∷ ys)
non_digit_run (x ∷ xs) (y ∷ ys) =
    if not (is_digit x) || not (is_digit y)
    then compare_orders x y (non_digit_run xs ys)
    else reaches (x ∷ xs) (y ∷ ys)

pub strip_zeros : Bytes → Bytes
strip_zeros [] = []
strip_zeros (x ∷ xs) = if x == b'0' then strip_zeros xs else x ∷ xs

pub at_digit : Bytes → Bool
at_digit [] = false
at_digit (x ∷ xs) = is_digit x

-- What follows the digit loop in a round of the outer loop.
pub after_digits : ℤ → Bytes → Bytes → Run
after_digits first_diff a b =
    if at_digit a
    then returns (pos 1)
    else if at_digit b
    then returns (negsuc 0)
    else if not (is_zero first_diff)
    then returns (clamp first_diff)
    else reaches a b

-- The digit loop, with what follows it.
pub digit_run : ℤ → Bytes → Bytes → Run
digit_run first_diff [] b = after_digits first_diff [] b
digit_run first_diff (x ∷ xs) [] = after_digits first_diff (x ∷ xs) []
digit_run first_diff (x ∷ xs) (y ∷ ys) =
    if is_digit x && is_digit y
    then digit_run (if is_zero first_diff then sub_ℕ x y else first_diff) xs ys
    else after_digits first_diff (x ∷ xs) (y ∷ ys)

-- A round of the outer loop that does not end it.
pub round : Bytes → Bytes → Run
round a b = elim (non_digit_run a b) [
  | returns r ↦ returns r
  | reaches a' b' ↦ digit_run (pos 0) (strip_zeros a') (strip_zeros b')
]

-- The outer loop; `none` means that the fuel ran out.
pub verrevcmp_loop : ℕ → Bytes → Bytes → Option ℤ
verrevcmp_loop zero a b = none
verrevcmp_loop (suc fuel) [] [] = some (pos 0)
verrevcmp_loop (suc fuel) a b = elim (round a b) [
  | returns r ↦ some r
  | reaches a' b' ↦ verrevcmp_loop fuel a' b'
]

unfoldable pub verrevcmp : Bytes → Bytes → Option ℤ
unfolding verrevcmp_loop round non_digit_run digit_run strip_zeros at_digit after_digits order clamp
    is_digit compare_orders byte_at
verrevcmp a b = verrevcmp_loop (length a + length b + 1) a b

unfoldable pub compare_numeric_string : Bytes → Bytes → ℤ
unfolding trim_left bytes_lt
compare_numeric_string a0 b0 =
    let a = trim_left b'0' a0 in
    let b = trim_left b'0' b0 in
    if not (length a == length b)
    then (if ltb (length a) (length b) then negsuc 0 else pos 1)
    else if bytes_lt a b
    then negsuc 0
    else if bytes_lt b a
    then pos 1
    else pos 0

pub record Version : Type 0 where
  pub epoch : Bytes
  pub upstream : Bytes
  pub revision : Bytes

-- The epoch and what follows it.
pub split_epoch : Bytes → Bytes × Bytes
unfolding index_byte
split_epoch v = elim (index_byte b':' v) [
  | none ↦ ([], v)
  | some i ↦ if ltb 0 i && is_all_digits (take i v) then (take i v, drop (i + 1) v) else ([], v)
]

-- The upstream version and the revision.
pub split_revision : Bytes → Bytes × Bytes
unfolding last_index_byte
split_revision rest = elim (last_index_byte b'-' rest) [
  | some i ↦ (take i rest, drop (i + 1) rest)
  | none ↦ (rest, [])
]

unfoldable pub parse : Bytes → Version
unfolding split_epoch split_revision is_all_digits is_digit
parse v =
    let parts = split_revision (split_epoch v).1 in
    record { epoch = (split_epoch v).0; upstream = parts.0; revision = parts.1 }

-- `if c := first; c != 0 { return c }`, before what follows it.
pub or_else : ℤ → Option ℤ → Option ℤ
or_else c rest = if is_zero c then rest else some c

pub then_compare : Option ℤ → Option ℤ → Option ℤ
then_compare none rest = none
then_compare (some c) rest = or_else c rest

unfoldable pub compare : Bytes → Bytes → Option ℤ
unfolding parse verrevcmp compare_numeric_string or_else then_compare
compare a b =
    let va = parse a in
    let vb = parse b in
    or_else (compare_numeric_string va.epoch vb.epoch)
      (then_compare (verrevcmp va.upstream vb.upstream) (verrevcmp va.revision vb.revision))
