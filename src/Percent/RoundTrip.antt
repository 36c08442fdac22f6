-- ===== src/Percent/RoundTrip.antt =====
-- src/utils/percent_encoding.rs: decoding undoes encoding.
use video_proxy_server.Prelude.{
  ℕ, zero, suc, ◌+◌, ◌/◌, ◌%◌, ◌<◌, ◌≡◌, refl, ap, ◌∙◌, true, false, none, some, List, [], ◌∷◌, All,
  arith, ◌==◌, Bool-cases, inl, inr, codes, get_elem?, length,
}
use video_proxy_server.Storage.Disk.File.{Bytes}
use video_proxy_server.Strings.{contains}
use video_proxy_server.Percent.Utf8.{is_utf8}
use video_proxy_server.Percent.{
  decoded, percent, is_unreserved, hex_value, upper_hex, all_unreserved, encode_bytes,
  encode_component, push, decode_from, decode_component,
}

-- The digits from `k` on stand for their places.
IsDigitTable : ℕ → List ℕ → Type 0
IsDigitTable k [] = Unit
IsDigitTable k (c ∷ cs) = (hex_value c ≡ some k) × IsDigitTable (suc k) cs

table_digit :
    (k n : ℕ) (cs : List ℕ)
    → IsDigitTable k cs
    → n < length cs
    → hex_value (elim (get_elem? cs n) [ none ↦ 0 | some c ↦ c ]) ≡ some (k + n)
unfolding IsDigitTable
table_digit k n [] h p = absurd (omega arith)
table_digit k zero (c ∷ cs) (h, _) p = h ∙ ap (λ i. some i) (omega arith)
table_digit k (suc n) (c ∷ cs) (_, h) p =
    table_digit (suc k) n cs h (omega arith) ∙ ap (λ i. some i) (omega arith)

digits : IsDigitTable 0 (codes "0123456789ABCDEF")
unfolding IsDigitTable hex_value
digits = (
  refl,
  (
    refl,
    (
      refl,
      (
        refl,
        (
          refl,
          (
            refl,
            (refl, (refl, (refl, (refl, (refl, (refl, (refl, (refl, (refl, (refl, tt)))))))))),
          ),
        ),
      ),
    ),
  ),
)

digit_value : (n : ℕ) → n < 16 → hex_value (upper_hex n) ≡ some n
unfolding upper_hex
digit_value n h =
    table_digit 0 n (codes "0123456789ABCDEF") digits h ∙ ap (λ i. some i) (omega arith)

-- An unreserved byte is not `%`.
unreserved-plain : (b : ℕ) → is_unreserved b ≡ true → (b == percent) ≡ false
unfolding is_unreserved
unreserved-plain b h = ground arith

decode_from-plain :
    (index b : ℕ) (bs : Bytes)
    → (b == percent) ≡ false
    → decode_from index (b ∷ bs) ≡ push b (decode_from (suc index) bs)
unfolding decode_from
decode_from-plain index b [] h = rw h refl
decode_from-plain index b (i ∷ []) h = rw h refl
decode_from-plain index b (i ∷ j ∷ bs) h = rw (h, decode_from) refl

decode_from-escape :
    (index b : ℕ) (bs : Bytes)
    → b < 256
    → decode_from index (percent ∷ upper_hex (b / 16) ∷ upper_hex (b % 16) ∷ bs)
      ≡ push b (decode_from (index + 3) bs)
unfolding decode_from
decode_from-escape index b bs h =
    rw (digit_value (b / 16) (omega arith), digit_value (b % 16) (omega arith))
      (ap (λ n. push n (decode_from (index + 3) bs)) (omega arith))

decode_from-encode_bytes :
    (index : ℕ) (value : Bytes)
    → All (λ b. b < 256) value
    → decode_from index (encode_bytes value) ≡ decoded value
unfolding encode_bytes
decode_from-encode_bytes index [] h = unfold decode_from in refl
decode_from-encode_bytes index (b ∷ bs) (hb, h) = elim (Bool-cases (is_unreserved b)) [
  | inl u ↦ rw u (
      decode_from-plain index b (encode_bytes bs) (unreserved-plain b u)
      ∙ ap (push b) (decode_from-encode_bytes (suc index) bs h))
  | inr u ↦ rw u (
      decode_from-escape index b (encode_bytes bs) hb
      ∙ ap (push b) (decode_from-encode_bytes (index + 3) bs h))
]

-- Without an escape nothing was encoded.
encode_bytes-plain :
    (value : Bytes) → contains percent (encode_bytes value) ≡ false → encode_bytes value ≡ value
unfolding encode_bytes contains
encode_bytes-plain [] h = refl
encode_bytes-plain (b ∷ bs) h = ground (arith, encode_bytes-plain bs)

contains-unreserved : (value : Bytes) → all_unreserved value ≡ true → contains percent value ≡ false
unfolding all_unreserved contains
contains-unreserved [] h = refl
contains-unreserved (b ∷ bs) h = ground (arith, unreserved-plain b, contains-unreserved bs)

-- Decoding the encoding of a text, a list of bytes that is UTF-8, gives the text back.
pub decode_component-encode_component :
    (value : Bytes)
    → All (λ b. b < 256) value
    → is_utf8 value ≡ true
    → decode_component (encode_component value) ≡ decoded value
unfolding decode_component encode_component
decode_component-encode_component value h u = elim (Bool-cases (all_unreserved value)) [
  | inl a ↦ rw (a, contains-unreserved value a) refl
  | inr a ↦ elim (Bool-cases (contains percent (encode_bytes value))) [
    | inl c ↦ rw (a, c, decode_from-encode_bytes 0 value h, u) refl
    | inr c ↦ rw (a, c) (ap decoded (encode_bytes-plain value c))
  ]
]
