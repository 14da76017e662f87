-- ===== src/Base/Scanner.antt =====
-- bufio.Scanner over a text in memory, and strconv.ParseInt in base 10.
use Prim.Native.Nat.{ℕ, zero, suc, ◌+◌, ◌-◌, ◌*◌, ◌^◌, ◌<◌}
use mathlib.Core.Path.{◌≡◌}
use native.Mathlib.Omega.{arith}
use mathlib.Core.Bool.{◌&&◌}
use mathlib.Core.Option.{Option, none, some}
use mathlib.Core.List.{List, [], ◌∷◌}
use apt_cacher_ultra.Base.Tests.{ltb, leb, ◌==◌, if◌then◌else◌}
use apt_cacher_ultra.Base.Text.{Bytes}
use apt_cacher_ultra.Base.Segments.{split, grow}
use apt_cacher_ultra.Base.Int.{ℤ, pos, negsuc}

-- The text behind the last line feed is a line if it is not empty.
unfoldable pub drop_last_empty : List Bytes → List Bytes
drop_last_empty [] = []
drop_last_empty ([] ∷ []) = []
drop_last_empty ((c ∷ s) ∷ []) = (c ∷ s) ∷ []
drop_last_empty (s ∷ t ∷ ss) = s ∷ drop_last_empty (t ∷ ss)

-- The lines that the scanner meets, each with the carriage return that it drops.
unfoldable pub raw_lines : Bytes → List Bytes
unfolding drop_last_empty split grow
raw_lines text = drop_last_empty (split b'\n' text)

unfoldable pub drop_cr : Bytes → Bytes
drop_cr [] = []
drop_cr (c ∷ []) = if c == 13 then [] else c ∷ []
drop_cr (c ∷ d ∷ s) = c ∷ drop_cr (d ∷ s)

-- The value of a run of decimal digits behind the value `n`; `none` for any other byte.
unfoldable pub digits_value : ℕ → Bytes → Option ℕ
digits_value n [] = some n
digits_value n (c ∷ s) =
    let rest = digits_value (n * 10 + (c - 48)) s in if leb b'0' c && leb c b'9' then rest else none

unfoldable pub unsigned : Bytes → Option ℕ
unsigned [] = none
unsigned (c ∷ s) = digits_value 0 (c ∷ s)

unfoldable pub positive : Option ℕ → Option ℤ
positive none = none
positive (some n) = if ltb n (2 ^ 63) then some (pos n) else none

unfoldable pub negative : Option ℕ → Option ℤ
negative none = none
negative (some zero) = some (pos 0)
negative (some (suc n)) = if leb (suc n) (2 ^ 63) then some (negsuc n) else none

-- strconv.ParseInt(s, 10, 64), `none` for an error.
unfoldable pub parse_int : Bytes → Option ℤ
unfolding unsigned positive negative digits_value
parse_int [] = none
parse_int (c ∷ s) =
    if c == b'-'
    then negative (unsigned s)
    else if c == b'+'
    then positive (unsigned s)
    else positive (unsigned (c ∷ s))

-- A size that is read fits an int64.
positive_bound : (o : Option ℕ) (n : ℕ) → positive o ≡ some (pos n) → n < 2 ^ 63
unfolding positive
positive_bound none n e = cc e
positive_bound (some m) n e = ground arith

negative_bound : (o : Option ℕ) (n : ℕ) → negative o ≡ some (pos n) → n < 2 ^ 63
unfolding negative
negative_bound none n e = cc e
negative_bound (some zero) n e = ground arith
negative_bound (some (suc m)) n e = ground arith

pub parse_int_bound : (s : Bytes) (n : ℕ) → parse_int s ≡ some (pos n) → n < 2 ^ 63
unfolding parse_int
parse_int_bound [] n e = cc e
parse_int_bound (c ∷ s) n e = ground (
  arith,
  negative_bound (unsigned s) n,
  positive_bound (unsigned s) n,
  positive_bound (unsigned (c ∷ s)) n,
)
