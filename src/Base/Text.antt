-- ===== src/Base/Text.antt =====
-- Go strings and byte slices as lists of byte values, and the functions of the packages strings
-- and bytes that the program uses.
use Prim.Native.Char.{code}
use Prim.Native.String.{String}
use Prim.Native.Nat.{ℕ, suc}
use mathlib.Core.Path.{◌≡◌, refl}
use mathlib.Core.Bool.{Bool, true, false, ◌&&◌, ◌||◌}
use mathlib.Core.List.{List, [], ◌∷◌, ◌++◌}
use mathlib.Core.Logic.{◌↔◌}
use mathlib.Core.Option
use mathlib.Core.Option.{Option, none, some}
use native.Mathlib.Omega.{arith}
use apt_cacher_ultra.Base.Tests.{ltb, ◌==◌, if◌then◌else◌, Option-cases}
use apt_cacher_ultra.Base.Lists.{length, take}

abbrev pub Bytes : Type 0
Bytes = List ℕ

-- The bytes of an ASCII literal.
abbrev pub codes : String → Bytes
codes String.[] = []
codes (String.◌∷◌ c s) = code c ∷ codes s

-- `a == b` on strings.
unfoldable pub bytes_eq : Bytes → Bytes → Bool
bytes_eq [] [] = true
bytes_eq (x ∷ xs) (y ∷ ys) = x == y && bytes_eq xs ys
bytes_eq _ _ = false

pub bytes_eq_iff : (a b : Bytes) → (bytes_eq a b ≡ true) ↔ (a ≡ b)
unfolding bytes_eq
bytes_eq_iff (x ∷ a) (y ∷ b) = ground (arith, bytes_eq_iff a b)
bytes_eq_iff _ _ = ground arith

-- `a < b` on strings.
unfoldable pub bytes_lt : Bytes → Bytes → Bool
bytes_lt [] [] = false
bytes_lt [] (y ∷ ys) = true
bytes_lt (x ∷ xs) [] = false
bytes_lt (x ∷ xs) (y ∷ ys) = ltb x y || (x == y && bytes_lt xs ys)

-- strings.IndexByte, with `none` for -1.
unfoldable pub index_byte : ℕ → Bytes → Option ℕ
index_byte c [] = none
index_byte c (x ∷ xs) = if x == c then some 0 else Option.map suc (index_byte c xs)

-- strings.LastIndexByte.
unfoldable pub last_index_byte : ℕ → Bytes → Option ℕ
last_index_byte c [] = none
last_index_byte c (x ∷ xs) = elim (last_index_byte c xs) [
  | some i ↦ some (suc i)
  | none ↦ if x == c then some 0 else none
]

-- strings.TrimLeft with a cutset of one byte.
unfoldable pub trim_left : ℕ → Bytes → Bytes
trim_left c [] = []
trim_left c (x ∷ xs) = if x == c then trim_left c xs else x ∷ xs

-- Whether a byte stands in a cutset or a string.
unfoldable pub contains_byte : Bytes → ℕ → Bool
contains_byte [] c = false
contains_byte (x ∷ xs) c = x == c || contains_byte xs c

-- bytes.TrimLeft and bytes.TrimRight with a cutset.
unfoldable pub trim_left_set : Bytes → Bytes → Bytes
unfolding contains_byte
trim_left_set set [] = []
trim_left_set set (x ∷ xs) = if contains_byte set x then trim_left_set set xs else x ∷ xs

-- A byte in front of what is left of the text behind it.
unfoldable pub keep_front : Bytes → ℕ → Bytes → Bytes
keep_front set x [] = if contains_byte set x then [] else x ∷ []
keep_front set x (y ∷ ys) = x ∷ y ∷ ys

unfoldable pub trim_right : Bytes → Bytes → Bytes
unfolding keep_front contains_byte
trim_right set [] = []
trim_right set (x ∷ xs) = keep_front set x (trim_right set xs)

-- The part of a text before a byte, and the part behind it, if the byte is there.
unfoldable pub line_of : Bytes → Bytes
unfolding index_byte
line_of s = elim (index_byte b'\n' s) [ some i ↦ take i s | none ↦ s ]

-- strings.CutPrefix: what follows the prefix, or `none`.
unfoldable pub cut_prefix : Bytes → Bytes → Option Bytes
cut_prefix s [] = some s
cut_prefix [] (y ∷ ys) = none
cut_prefix (x ∷ xs) (y ∷ ys) = if x == y then cut_prefix xs ys else none

unfoldable pub has_prefix : Bytes → Bytes → Bool
has_prefix s [] = true
has_prefix [] (y ∷ ys) = false
has_prefix (x ∷ xs) (y ∷ ys) = x == y && has_prefix xs ys

-- strings.TrimSuffix.
trim_suffix_tail : Bytes → Bytes → Bytes
trim_suffix_tail [] t = []
trim_suffix_tail (x ∷ xs) t = if bytes_eq xs t then x ∷ [] else x ∷ trim_suffix_tail xs t

unfoldable pub trim_suffix : Bytes → Bytes → Bytes
unfolding trim_suffix_tail bytes_eq
trim_suffix s t = elim (bytes_eq s t) [ true ↦ [] | false ↦ trim_suffix_tail s t ]

pub index_byte-append :
    (c : ℕ) (s t : Bytes) → index_byte c s ≡ none → index_byte c (s ++ (c ∷ t)) ≡ some (length s)
unfolding index_byte
index_byte-append c [] t h = ground arith
index_byte-append c (x ∷ s) t h =
    ground (arith, index_byte-append c s t, Option-cases (index_byte c s))

pub last_index_byte-append :
    (c : ℕ) (s t : Bytes)
    → last_index_byte c t ≡ none
    → last_index_byte c (s ++ (c ∷ t)) ≡ some (length s)
unfolding last_index_byte
last_index_byte-append c [] t h = ground arith
last_index_byte-append c (x ∷ s) t h = rw (last_index_byte-append c s t h) refl
