-- ===== src/Base/Space.antt =====
-- White space as the packages strings and unicode see it in UTF-8, and the text functions that stop
-- at it; and comparison without regard to case. The first byte of a rune is no byte inside one, so
-- that a rune is found from its first byte on.
use Prim.Native.Nat.{ℕ, zero, suc, ◌+◌, ◌-◌}
use mathlib.Core.Bool.{Bool, true, false, not, ◌&&◌, ◌||◌}
use mathlib.Core.List.{List, [], ◌∷◌, map}
use apt_cacher_ultra.Base.Tests.{ltb, leb, ◌==◌, if◌then◌else◌}
use apt_cacher_ultra.Base.Lists.{drop}
use apt_cacher_ultra.Base.Text.{Bytes}
use apt_cacher_ultra.Base.Segments.{grow}

-- "\t\n\v\f\r "
abbrev pub ascii_space : ℕ → Bool
ascii_space c = (leb 9 c && leb c 13) || c == 32

-- U+0085 and U+00A0.
abbrev pub two_space : ℕ → ℕ → Bool
two_space a b = a == 0xc2 && (b == 0x85 || b == 0xa0)

-- U+1680, U+2000 to U+200A, U+2028, U+2029, U+202F, U+205F and U+3000.
abbrev pub three_space : ℕ → ℕ → ℕ → Bool
three_space a b c =
    (a == 0xe1 && b == 0x9a && c == 0x80)
    || (a == 0xe2
        && b == 0x80
        && ((leb 0x80 c && leb c 0x8a) || c == 0xa8 || c == 0xa9 || c == 0xaf))
    || (a == 0xe2 && b == 0x81 && c == 0x9f)
    || (a == 0xe3 && b == 0x80 && c == 0x80)

-- The width of the white-space rune that a text starts with, 0 for none.
unfoldable pub space_width : Bytes → ℕ
space_width [] = 0
space_width (a ∷ []) = if ascii_space a then 1 else 0
space_width (a ∷ b ∷ []) = if ascii_space a then 1 else if two_space a b then 2 else 0
space_width (a ∷ b ∷ c ∷ s) =
    if ascii_space a then 1 else if two_space a b then 2 else if three_space a b c then 3 else 0

-- Each byte, with whether it stands in a white-space rune; the first `k` do.
unfoldable pub tag_from : ℕ → Bytes → List (ℕ × Bool)
tag_from k [] = []
tag_from (suc k) (a ∷ s) = (a, true) ∷ tag_from k s
tag_from zero (a ∷ s) = (a, ltb 0 (space_width (a ∷ s))) ∷ tag_from (space_width (a ∷ s) - 1) s

-- The runs of bytes between white-space bytes, empty ones too.
unfoldable pub cut_spaces : List (ℕ × Bool) → List Bytes
cut_spaces [] = [] ∷ []
cut_spaces ((c, true) ∷ s) = [] ∷ cut_spaces s
cut_spaces ((c, false) ∷ s) = grow c (cut_spaces s)

unfoldable pub drop_empty : List Bytes → List Bytes
drop_empty [] = []
drop_empty ([] ∷ ws) = drop_empty ws
drop_empty ((c ∷ w) ∷ ws) = (c ∷ w) ∷ drop_empty ws

-- strings.Fields.
unfoldable pub fields : Bytes → List Bytes
unfolding cut_spaces tag_from drop_empty space_width grow
fields s = drop_empty (cut_spaces (tag_from 0 s))

unfoldable pub drop_front : List (ℕ × Bool) → List (ℕ × Bool)
drop_front [] = []
drop_front ((c, b) ∷ s) = if b then drop_front s else (c, b) ∷ s

-- A byte in front of what is left of the text behind it.
unfoldable pub keep_tagged : ℕ × Bool → List (ℕ × Bool) → List (ℕ × Bool)
keep_tagged (c, b) [] = if b then [] else (c, b) ∷ []
keep_tagged x (y ∷ s) = x ∷ y ∷ s

unfoldable pub drop_back : List (ℕ × Bool) → List (ℕ × Bool)
unfolding keep_tagged
drop_back [] = []
drop_back (x ∷ s) = keep_tagged x (drop_back s)

-- strings.TrimSpace.
unfoldable pub trim_space : Bytes → Bytes
unfolding drop_front drop_back tag_from space_width
trim_space s = map (λ x. x.0) (drop_back (drop_front (tag_from 0 s)))

abbrev pub lower_byte : ℕ → ℕ
lower_byte c = if leb b'A' c && leb c b'Z' then c + 32 else c

-- How many bytes at the front are a rune that strings.EqualFold takes for the ASCII byte `c`: the
-- byte in either case, the Kelvin sign for a k, the long s for an s.
unfoldable pub fold_width : Bytes → ℕ → ℕ
fold_width [] c = 0
fold_width (a ∷ []) c = if lower_byte a == lower_byte c then 1 else 0
fold_width (a ∷ b ∷ []) c =
    if lower_byte a == lower_byte c
    then 1
    else if lower_byte c == b's' && a == 0xc5 && b == 0xbf
    then 2
    else 0
fold_width (a ∷ b ∷ d ∷ s) c =
    if lower_byte a == lower_byte c
    then 1
    else if lower_byte c == b's' && a == 0xc5 && b == 0xbf
    then 2
    else if lower_byte c == b'k' && a == 0xe2 && b == 0x84 && d == 0xaa
    then 3
    else 0

-- strings.EqualFold with an ASCII text.
unfoldable pub equal_fold : Bytes → Bytes → Bool
equal_fold [] [] = true
equal_fold (a ∷ s) [] = false
equal_fold s (c ∷ t) = not (fold_width s c == 0) && equal_fold (drop (fold_width s c) s) t

-- How many bytes at the front are a rune that strings.ToLower turns into the ASCII byte `c`, a
-- lower-case one or no letter: the byte in either case, the Kelvin sign for a k, the dotted capital I
-- for an i.
unfoldable pub lower_width : Bytes → ℕ → ℕ
lower_width [] c = 0
lower_width (a ∷ []) c = if lower_byte a == c then 1 else 0
lower_width (a ∷ b ∷ []) c =
    if lower_byte a == c then 1 else if c == b'i' && a == 0xc4 && b == 0xb0 then 2 else 0
lower_width (a ∷ b ∷ d ∷ s) c =
    if lower_byte a == c
    then 1
    else if c == b'i' && a == 0xc4 && b == 0xb0
    then 2
    else if c == b'k' && a == 0xe2 && b == 0x84 && d == 0xaa
    then 3
    else 0

-- Whether strings.ToLower turns the text into an ASCII text with no capital.
unfoldable pub lowers_to : Bytes → Bytes → Bool
lowers_to [] [] = true
lowers_to (a ∷ s) [] = false
lowers_to s (c ∷ t) = not (lower_width s c == 0) && lowers_to (drop (lower_width s c) s) t
