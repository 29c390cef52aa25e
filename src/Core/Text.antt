-- ===== src/Core/Text.antt =====
-- `String::from_utf8`, on the bytes of a text: well-formed UTF-8.
use novabase.Common.{ℕ, zero, suc, ◌&&◌, not, Bool, true, false, [], ◌∷◌, leb, ◌==◌, if◌then◌else◌}
use novabase.Storage.Bytes.{Bytes}

abbrev within : ℕ → ℕ → ℕ → Bool
within lo hi b = leb lo b && leb b hi

-- The bytes that a first byte asks for, with the bounds of the next one; none where it is no first byte.
abbrev follows : ℕ → ℕ × ℕ × ℕ
follows b =
    if within 0xc2 0xdf b
    then (1, 0x80, 0xbf)
    else if b == 0xe0
    then (2, 0xa0, 0xbf)
    else if b == 0xed
    then (2, 0x80, 0x9f)
    else if within 0xe1 0xef b
    then (2, 0x80, 0xbf)
    else if b == 0xf0
    then (3, 0x90, 0xbf)
    else if within 0xf1 0xf3 b
    then (3, 0x80, 0xbf)
    else if b == 0xf4
    then (3, 0x80, 0x8f)
    else (0, 0, 0)

-- `pending` bytes are to come, the next one between `lo` and `hi`.
unfoldable pub utf8_from : ℕ → ℕ → ℕ → Bytes → Bool
utf8_from zero lo hi [] = true
utf8_from (suc pending) lo hi [] = false
utf8_from zero lo hi (b ∷ bs) =
    let plain = utf8_from zero 0 0 bs in
    let (pending, lo', hi') = follows b in
    let wide = utf8_from pending lo' hi' bs in
    if leb b 0x7f then plain else not (pending == 0) && wide
utf8_from (suc pending) lo hi (b ∷ bs) = within lo hi b && utf8_from pending 0x80 0xbf bs

unfoldable pub is_utf8 : Bytes → Bool
unfolding utf8_from
is_utf8 bs = utf8_from 0 0 0 bs
