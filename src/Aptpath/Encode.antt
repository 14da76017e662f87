-- ===== src/Aptpath/Encode.antt =====
-- internal/aptpath/encode.go: apt's percent-encoding of a decoded path.
use apt_cacher_ultra.Base.{
  ℕ, ◌+◌, ◌/◌, ◌%◌, Bool, true, ◌||◌, [], ◌∷◌, leb, ◌==◌, if◌then◌else◌, get_or, Bytes, codes,
  contains_byte,
}

abbrev pub hex_lower : Bytes
hex_lower = codes "0123456789abcdef"

-- The bytes of the switch.
abbrev pub escaped_bytes : Bytes
escaped_bytes = codes "+~%\"<>\\^`{|}#?"

unfoldable pub needs_escape : ℕ → Bool
needs_escape c = if leb c 0x20 || leb 0x7f c then true else contains_byte escaped_bytes c

unfoldable pub count_escapes : Bytes → ℕ
count_escapes [] = 0
count_escapes (c ∷ cs) = (if needs_escape c then 1 else 0) + count_escapes cs

-- The loop that writes the encoded path.
unfoldable pub write_escaped : Bytes → Bytes
write_escaped [] = []
write_escaped (c ∷ cs) =
    let rest = write_escaped cs in
    if needs_escape c
    then b'%' ∷ get_or hex_lower (c / 16) 0 ∷ get_or hex_lower (c % 16) 0 ∷ rest
    else c ∷ rest

unfoldable pub apt_encode_path : Bytes → Bytes
apt_encode_path p = if count_escapes p == 0 then p else write_escaped p
