-- ===== src/Percent.antt =====
-- src/utils/percent_encoding.rs: percent encoding of one component of a URL. A `&str` is the list
-- of its UTF-8 bytes.
pub mod Utf8
pub mod RoundTrip
pub mod Errors
use video_proxy_server.Prelude.{
  ℕ, suc, ◌+◌, ◌-◌, ◌*◌, ◌/◌, ◌%◌, Bool, true, false, ◌&&◌, ◌||◌, Option, none, some, List, [], ◌∷◌,
  ltb, leb, ◌==◌, if◌then◌else◌, codes, get_elem?,
}
use video_proxy_server.Storage.Disk.File.{Bytes}
use video_proxy_server.Strings.{contains}
use video_proxy_server.Percent.Utf8.{is_utf8}

pub data PercentDecodeError : Type 0 where
  invalid_escape : ℕ → PercentDecodeError
  invalid_utf8 : PercentDecodeError

-- The result of decoding.
pub data Decoded : Type 0 where
  decoded : Bytes → Decoded
  failed : PercentDecodeError → Decoded

abbrev pub percent : ℕ
percent = 37

unfoldable pub is_unreserved : ℕ → Bool
is_unreserved byte =
    leb 97 byte && leb byte 122
    || leb 65 byte && leb byte 90
    || leb 48 byte && leb byte 57
    || byte == 45
    || byte == 46
    || byte == 95
    || byte == 126

unfoldable pub hex_value : ℕ → Option ℕ
hex_value byte =
    if leb 48 byte && leb byte 57
    then some (byte - 48)
    else if leb 97 byte && leb byte 102
    then some (byte - 97 + 10)
    else if leb 65 byte && leb byte 70
    then some (byte - 65 + 10)
    else none

-- `HEX[n]`: out of range the code would panic, which no byte reaches.
unfoldable pub upper_hex : ℕ → ℕ
upper_hex n = elim (get_elem? (codes "0123456789ABCDEF") n) [ none ↦ 0 | some c ↦ c ]

unfoldable pub all_unreserved : Bytes → Bool
all_unreserved [] = true
all_unreserved (b ∷ bs) = is_unreserved b && all_unreserved bs

unfoldable pub encode_bytes : Bytes → Bytes
encode_bytes [] = []
encode_bytes (b ∷ bs) =
    let rest = encode_bytes bs in
    if is_unreserved b then b ∷ rest else percent ∷ upper_hex (b / 16) ∷ upper_hex (b % 16) ∷ rest

unfoldable pub encode_component : Bytes → Bytes
encode_component value = if all_unreserved value then value else encode_bytes value

abbrev pub push : ℕ → Decoded → Decoded
push b (decoded bs) = decoded (b ∷ bs)
push b (failed e) = failed e

-- The byte of an escape at `index`, before what follows it; `high << 4 | low` of two digits.
abbrev pub push_escape : ℕ → Option ℕ → Option ℕ → Decoded → Decoded
push_escape index none low rest = failed (invalid_escape index)
push_escape index (some high) none rest = failed (invalid_escape index)
push_escape index (some high) (some low) rest = push (high * 16 + low) rest

-- The loop, from `index` on.
unfoldable pub decode_from : ℕ → Bytes → Decoded
decode_from index [] = decoded []
decode_from index (b ∷ []) =
    if b == percent then failed (invalid_escape index) else decoded (b ∷ [])
decode_from index (b ∷ h ∷ []) =
    let rest = decode_from (suc index) (h ∷ []) in
    if b == percent then failed (invalid_escape index) else push b rest
decode_from index (b ∷ h ∷ l ∷ bs) = elim (b == percent) [
  | true ↦ push_escape index (hex_value h) (hex_value l) (decode_from (index + 3) bs)
  | false ↦ push b (decode_from (suc index) (h ∷ l ∷ bs))
]

-- `String::from_utf8(decoded)`
abbrev pub from_utf8 : Decoded → Decoded
from_utf8 (decoded bs) = if is_utf8 bs then decoded bs else failed invalid_utf8
from_utf8 (failed e) = failed e

unfoldable pub decode_component : Bytes → Decoded
decode_component value =
    if contains percent value then from_utf8 (decode_from 0 value) else decoded value
