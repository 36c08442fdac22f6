-- ===== src/Percent/Errors.antt =====
-- src/utils/percent_encoding.rs: what an error of decoding says.
use video_proxy_server.Prelude.{
  ℕ, suc, ◌+◌, ◌≡◌, refl, ap, Bool, true, false, ◌&&◌, Option, none, some, [], ◌∷◌, arith, ◌==◌,
  ==_iff, Bool-cases, inl, inr, drop, get_elem?, if◌then◌else◌,
}
use video_proxy_server.Storage.Disk.File.{Bytes}
use video_proxy_server.Strings.{contains}
use video_proxy_server.Percent.{
  Decoded, decoded, failed, PercentDecodeError, invalid_escape, percent, hex_value, push,
  push_escape, decode_from, from_utf8, decode_component,
}

abbrev is_some : Option ℕ → Bool
is_some none = false
is_some (some n) = true

-- Two hexadecimal digits come first.
abbrev pub starts_with_digits : Bytes → Bool
starts_with_digits (h ∷ l ∷ bs) = is_some (hex_value h) && is_some (hex_value l)
starts_with_digits _ = false

-- A `%` at `index` without two digits behind it.
abbrev pub IsBadEscape : Bytes → ℕ → Type 0
IsBadEscape value index =
    (get_elem? value index ≡ some percent) × (starts_with_digits (drop (suc index) value) ≡ false)

-- The same in the rest of a text that begins at `index`.
IsBadFrom : ℕ → Bytes → ℕ → Type 0
IsBadFrom index value at = (j : ℕ) × (at ≡ index + j) × IsBadEscape value j

push-failed : (b : ℕ) (r : Decoded) (e : PercentDecodeError) → push b r ≡ failed e → r ≡ failed e
push-failed b (decoded bs) e h = cc
push-failed b (failed d) e h = h

from_utf8-failed :
    (r : Decoded) (i : ℕ) → from_utf8 r ≡ failed (invalid_escape i) → r ≡ failed (invalid_escape i)
from_utf8-failed (decoded bs) i h = ground arith
from_utf8-failed (failed d) i h = h

later :
    (index b at : ℕ) (value : Bytes)
    → IsBadFrom (suc index) value at
    → IsBadFrom index (b ∷ value) at
unfolding IsBadFrom
later index b at value (j, e, bad) = (suc j, omega arith, bad)

after_escape :
    (index h l at : ℕ) (bs : Bytes)
    → IsBadFrom (index + 3) bs at
    → IsBadFrom index (percent ∷ h ∷ l ∷ bs) at
unfolding IsBadFrom
after_escape index h l at bs (j, e, bad) = (suc (suc (suc j)), omega arith, bad)

same_index : (i j : ℕ) → failed (invalid_escape i) ≡ failed (invalid_escape j) → i ≡ j
same_index i j e = cc

escape_failed :
    (index at h l : ℕ) (x y : Option ℕ) (rest : Decoded) (bs : Bytes)
    → hex_value h ≡ x
    → hex_value l ≡ y
    → push_escape index x y rest ≡ failed (invalid_escape at)
    → (rest ≡ failed (invalid_escape at) → IsBadFrom (index + 3) bs at)
    → IsBadFrom index (percent ∷ h ∷ l ∷ bs) at
unfolding IsBadFrom
escape_failed index at h l none y rest bs hx hy e k =
    let same = same_index index at e in (0, omega (arith, same), (refl, rw hx refl))
escape_failed index at h l (some m) none rest bs hx hy e k =
    let same = same_index index at e in (0, omega (arith, same), (refl, rw (hx, hy) refl))
escape_failed index at h l (some m) (some n) rest bs hx hy e k =
    after_escape index h l at bs (k (push-failed _ rest (invalid_escape at) e))

-- Less than two bytes follow: no escape fits.
short_failed :
    (index at b : ℕ) (x : Bool) (r : Decoded) (value : Bytes)
    → (b == percent) ≡ x
    → starts_with_digits value ≡ false
    → (if x then failed (invalid_escape index) else push b r) ≡ failed (invalid_escape at)
    → (r ≡ failed (invalid_escape at) → IsBadFrom (suc index) value at)
    → IsBadFrom index (b ∷ value) at
unfolding IsBadFrom
short_failed index at b true r value p short e k =
    let same = same_index index at e in
    (0, omega (arith, same), (ap (λ i. some i) ((==_iff b percent).0 p), short))
short_failed index at b false r value p short e k =
    later index b at value (k (push-failed b r (invalid_escape at) e))

long_failed :
    (index at b h l : ℕ) (x : Bool) (bs : Bytes)
    → (b == percent) ≡ x
    → elim x [
      | true ↦ push_escape index (hex_value h) (hex_value l) (decode_from (index + 3) bs)
      | false ↦ push b (decode_from (suc index) (h ∷ l ∷ bs))
    ]
      ≡ failed (invalid_escape at)
    → (decode_from (index + 3) bs ≡ failed (invalid_escape at) → IsBadFrom (index + 3) bs at)
    → (decode_from (suc index) (h ∷ l ∷ bs) ≡ failed (invalid_escape at)
        → IsBadFrom (suc index) (h ∷ l ∷ bs) at)
    → IsBadFrom index (b ∷ h ∷ l ∷ bs) at
long_failed index at b h l true bs p e k₁ k₂ =
    rw ((==_iff b percent).0 p)
      (escape_failed index at h l (hex_value h) (hex_value l) _ bs refl refl e k₁)
long_failed index at b h l false bs p e k₁ k₂ =
    later index b at (h ∷ l ∷ bs) (k₂ (push-failed b _ (invalid_escape at) e))

decode_from-failed :
    (index : ℕ) (bs : Bytes) (at : ℕ)
    → decode_from index bs ≡ failed (invalid_escape at)
    → IsBadFrom index bs at
unfolding decode_from
decode_from-failed index [] at e = cc
decode_from-failed index (b ∷ []) at e =
    short_failed index at b (b == percent) (decoded []) [] refl refl e
      (decode_from-failed (suc index) [] at)
decode_from-failed index (b ∷ h ∷ []) at e =
    short_failed index at b (b == percent) (decode_from (suc index) (h ∷ [])) (h ∷ []) refl refl e
      (decode_from-failed (suc index) (h ∷ []) at)
decode_from-failed index (b ∷ h ∷ l ∷ bs) at e =
    long_failed index at b h l (b == percent) bs refl e (decode_from-failed (index + 3) bs at)
      (decode_from-failed (suc index) (h ∷ l ∷ bs) at)

at_start : (value : Bytes) (at : ℕ) → IsBadFrom 0 value at → IsBadEscape value at
unfolding IsBadFrom
at_start value at (j, e, bad) = let same : at ≡ j = omega arith in rw same bad

-- The index in an error of decoding is that of a `%` that two hexadecimal digits do not follow.
pub decode_component-invalid_escape :
    (value : Bytes) (at : ℕ)
    → decode_component value ≡ failed (invalid_escape at)
    → IsBadEscape value at
unfolding decode_component
decode_component-invalid_escape value at e = elim (Bool-cases (contains percent value)) [
  | inl c ↦
      at_start value at
        (decode_from-failed 0 value at (from_utf8-failed (decode_from 0 value) at (rw c at e)))
  | inr c ↦ cc
]
