-- ===== src/Percent/Utf8.antt =====
-- What src/utils/percent_encoding.rs uses of the standard library's `String::from_utf8`: the test
-- for well-formed UTF-8 by the table of the Unicode standard.
use video_proxy_server.Prelude.{
  ℕ, zero, suc, Bool, true, false, ◌&&◌, [], ◌∷◌, leb, ltb, ◌==◌, if◌then◌else◌,
}
use video_proxy_server.Storage.Disk.File.{Bytes}

-- `more` continuation bytes are due, the first of them from `low` to `high`.
unfoldable pub is_utf8_from : ℕ → ℕ → ℕ → Bytes → Bool
is_utf8_from zero low high [] = true
is_utf8_from (suc more) low high [] = false
is_utf8_from (suc more) low high (b ∷ bs) =
    leb low b && leb b high && is_utf8_from more 0x80 0xbf bs
is_utf8_from zero low high (b ∷ bs) =
    let after : ℕ → ℕ → ℕ → Bool = λ more from to. is_utf8_from more from to bs in
    if ltb b 0x80
    then after 0 0 0
    else if ltb b 0xc2
    then false
    else if ltb b 0xe0
    then after 1 0x80 0xbf
    else if b == 0xe0
    then after 2 0xa0 0xbf
    else if b == 0xed
    then after 2 0x80 0x9f
    else if ltb b 0xf0
    then after 2 0x80 0xbf
    else if b == 0xf0
    then after 3 0x90 0xbf
    else if ltb b 0xf4
    then after 3 0x80 0xbf
    else if b == 0xf4
    then after 3 0x80 0x8f
    else false

unfoldable pub is_utf8 : Bytes → Bool
is_utf8 bytes = is_utf8_from 0 0 0 bytes
