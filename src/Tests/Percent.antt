-- ===== src/Tests/Percent.antt =====
-- Runs of percent encoding, and its theorems at a text that has reserved and non-ASCII bytes.
use video_proxy_server.Prelude.{◌<◌, ◌≡◌, refl, true, [], ◌∷◌, All, arith, codes}
use video_proxy_server.Storage.Disk.File.{Bytes}
use video_proxy_server.Strings.{contains}
use video_proxy_server.Percent.Utf8.{is_utf8, is_utf8_from}
use video_proxy_server.Percent.{
  decoded, failed, invalid_escape, invalid_utf8, is_unreserved, hex_value, upper_hex,
  all_unreserved, encode_bytes, encode_component, decode_from, decode_component,
}
use video_proxy_server.Percent.RoundTrip.{decode_component-encode_component}
use video_proxy_server.Percent.Errors.{IsBadEscape, decode_component-invalid_escape}

-- "a/é"
abbrev some_text : Bytes
some_text = 97 ∷ 47 ∷ 0xc3 ∷ 0xa9 ∷ []

encoded_text : encode_component some_text ≡ codes "a%2F%C3%A9"
unfolding encode_component encode_bytes all_unreserved is_unreserved upper_hex
encoded_text = refl

refused_escape : decode_component (codes "ab%2") ≡ failed (invalid_escape 2)
unfolding decode_component decode_from contains hex_value
refused_escape = refl

refused_utf8 : decode_component (codes "%FF") ≡ failed invalid_utf8
unfolding decode_component decode_from contains hex_value is_utf8 is_utf8_from
refused_utf8 = refl

some_text-is_utf8 : is_utf8 some_text ≡ true
unfolding is_utf8 is_utf8_from
some_text-is_utf8 = refl

some_text-bytes : All (λ b. b < 256) some_text
some_text-bytes = (omega arith, (omega arith, (omega arith, (omega arith, tt))))

decode_component-encode_component_example :
    decode_component (encode_component some_text) ≡ decoded some_text
decode_component-encode_component_example =
    decode_component-encode_component some_text some_text-bytes some_text-is_utf8

decode_component-invalid_escape_example : IsBadEscape (codes "ab%2") 2
decode_component-invalid_escape_example =
    decode_component-invalid_escape (codes "ab%2") 2 refused_escape
