-- ===== src/Debversion/Key.antt =====
-- The order on version parts that verrevcmp implements, with no loops over two strings: a part is
-- read into a list of numbers, and two parts compare as their lists.
use apt_cacher_ultra.Base.{
  ℕ, suc, ◌+◌, ◌-◌, ◌*◌, Bool, true, false, ◌&&◌, ◌||◌, Option, none, some, List, [], ◌∷◌, ltb, leb,
  ◌==◌, if◌then◌else◌, Bytes, ℤ, pos, negsuc,
}

abbrev is_number : ℕ → Bool
is_number c = leb b'0' c && leb c b'9'

-- The rank of a non-digit: the tilde before the end of the run (1), then letters, then the rest.
abbrev pub weight : ℕ → ℕ
weight c =
    if c == b'~'
    then 0
    else if (leb b'a' c && leb c b'z') || (leb b'A' c && leb c b'Z')
    then c + 1
    else c + 257

-- The key of a part: the ranks of a non-digit run, 1 for its end, then one more than the number
-- that follows, and so on. With `some n` the key starts inside a number that reads n so far.
unfoldable pub key : Option ℕ → Bytes → List ℕ
key none [] = []
key (some n) [] = suc n ∷ []
key none (c ∷ cs) = elim (is_number c) [
  | true ↦ 1 ∷ key (some (c - 48)) cs
  | false ↦ weight c ∷ key none cs
]
key (some n) (c ∷ cs) = elim (is_number c) [
  | true ↦ key (some (n * 10 + (c - 48))) cs
  | false ↦ suc n ∷ weight c ∷ key none cs
]

-- The sign of the first difference.
abbrev pub by : ℕ → ℕ → ℤ → ℤ
by x y rest = if ltb x y then negsuc 0 else if ltb y x then pos 1 else rest

-- Lexicographic order of lists that go on as 1, 1, 1, ...
unfoldable pub lex : List ℕ → List ℕ → ℤ
lex [] [] = pos 0
lex (x ∷ xs) [] = by x 1 (lex xs [])
lex [] (y ∷ ys) = by 1 y (lex [] ys)
lex (x ∷ xs) (y ∷ ys) = by x y (lex xs ys)
