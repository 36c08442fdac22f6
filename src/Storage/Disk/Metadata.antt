-- ===== src/Storage/Disk/Metadata.antt =====
-- src/storage/disk.rs: `RangeMetadata`, which is kept on disk beside each data file, and the check
-- that it passes before it is believed.
use video_proxy_server.Prelude.{
  ℕ, ◌+◌, ◌≤◌, ◌<◌, String, ◌≡◌, ◌↔◌, refl, Bool, true, false, ◌||◌, not, Option, none, some, [],
  ◌∷◌, arith, ltb, leb, if◌then◌else◌, saturating_add, u64_max, inl, inr, ap, Option-cases,
}
use video_proxy_server.Map.{◌=?◌, string_eq}
use text.Mathlib.TextEquality.{eq_iff}
use video_proxy_server.Storage.Ranges.{Ranges}
use video_proxy_server.Storage.Ranges.Table.{IsTableFrom, IsTable}

abbrev pub range_metadata_version : ℕ
range_metadata_version = 1

pub record RangeMetadata : Type 0 where
  pub version : ℕ
  pub completed : Ranges
  pub key : Option String
  pub total_size : Option ℕ
  pub content_type : Option String

-- `RangeMetadata::default`
abbrev pub default_metadata : RangeMetadata
default_metadata = record {
  version = 0;
  completed = [];
  key = none;
  total_size = none;
  content_type = none;
}

-- `metadata.key.as_deref() == Some(key)`
unfoldable pub is_key : Option String → String → Bool
is_key none key = false
is_key (some k) key = k =? key

abbrev exceeds : Option ℕ → Option ℕ → Bool
exceeds (some total) (some size) = ltb total size
exceeds _ _ = false

-- `start <= previous.saturating_add(1)`, where there is a previous range.
abbrev too_close : Option ℕ → ℕ → Bool
too_close none start = false
too_close (some previous) start = leb start (saturating_add previous 1)

-- The loop over `metadata.completed`.
unfoldable pub ranges_are_valid : Ranges → Option ℕ → ℕ → Bool
ranges_are_valid [] previous_end file_size = true
ranges_are_valid ((start, end) ∷ rs) previous_end file_size =
    let rest = ranges_are_valid rs (some end) file_size in
    if ltb end start || leb file_size end
    then false
    else if too_close previous_end start
    then false
    else rest

abbrev has_no_ranges : Ranges → Bool
has_no_ranges [] = true
has_no_ranges (r ∷ rs) = false

abbrev completed_is_valid : Ranges → Option ℕ → Bool
completed_is_valid completed none = has_no_ranges completed
completed_is_valid completed (some size) = ranges_are_valid completed none size

unfoldable pub metadata_is_valid : RangeMetadata → String → Option ℕ → Bool
unfolding is_key ranges_are_valid
metadata_is_valid metadata key file_size =
    if ltb range_metadata_version metadata.version || not (is_key metadata.key key)
    then false
    else if exceeds metadata.total_size file_size
    then false
    else completed_is_valid metadata.completed file_size

-- All ranges end inside a file of the given size.
abbrev pub FitsIn : ℕ → Ranges → Type 0
FitsIn size [] = Unit
FitsIn size ((s, e) ∷ rs) = (e < size) × FitsIn size rs

ranges_sound :
    (rs : Ranges) (previous : Option ℕ) (low size : ℕ)
    → (previous ≡ none → low ≡ 0)
    → ((p : ℕ) → previous ≡ some p → low ≡ p + 2)
    → size ≤ u64_max + 1
    → ranges_are_valid rs previous size ≡ true
    → IsTableFrom low rs × FitsIn size rs
unfolding ranges_are_valid
ranges_sound [] previous low size z g b h = (tt, tt)
ranges_sound ((s, e) ∷ rs) none low size z g b h =
    ground (arith, z refl, ranges_sound rs (some e) (e + 2) size (λ q. cc) (λ p q. ground arith) b)
ranges_sound ((s, e) ∷ rs) (some p) low size z g b h =
    ground
      (arith, g p refl, ranges_sound rs (some e) (e + 2) size (λ q. cc) (λ p q. ground arith) b)

ranges_complete :
    (rs : Ranges) (previous : Option ℕ) (low size : ℕ)
    → ((p : ℕ) → previous ≡ some p → low ≡ p + 2)
    → IsTableFrom low rs
    → FitsIn size rs
    → ranges_are_valid rs previous size ≡ true
unfolding ranges_are_valid
ranges_complete [] previous low size g t f = refl
ranges_complete ((s, e) ∷ rs) none low size g (a, b, c, t) (fits, f) =
    ground (arith, ranges_complete rs (some e) (e + 2) size (λ p q. ground arith) t f)
ranges_complete ((s, e) ∷ rs) (some p) low size g (a, b, c, t) (fits, f) =
    ground (arith, g p refl, ranges_complete rs (some e) (e + 2) size (λ p q. ground arith) t f)

-- What metadata says, once it has been checked against its key and the size of its data file.
pub record IsCredible (metadata : RangeMetadata) (key : String) (size : ℕ) : Type 0 where
  pub known_version : metadata.version ≤ 1
  pub own_key : metadata.key ≡ some key
  pub within_total : (total : ℕ) → metadata.total_size ≡ some total → size ≤ total
  pub table : IsTable metadata.completed
  pub fits : FitsIn size metadata.completed

is_key_iff : (o : Option String) (key : String) → (is_key o key ≡ true) ↔ (o ≡ some key)
unfolding is_key
is_key_iff none key = (λ h. cc, λ h. cc)
is_key_iff (some k) key = (λ h. ap some ((eq_iff k key).0 h), λ h. (eq_iff k key).1 (ground arith))

-- Metadata is accepted for a data file of at most 2^64 bytes exactly if its version is known, it
-- names its key, the file is not longer than the declared total, and its ranges are a well-formed
-- table inside the file.
pub metadata_is_valid_iff :
    (metadata : RangeMetadata) (key : String) (size : ℕ)
    → size ≤ u64_max + 1
    → (metadata_is_valid metadata key (some size) ≡ true) ↔ IsCredible metadata key size
unfolding metadata_is_valid
metadata_is_valid_iff metadata key size b = (
  λ h.
      let sound = ranges_sound metadata.completed none 0 size (λ q. refl) (λ p q. cc) b in
      record {
        known_version = ground arith;
        own_key = (is_key_iff metadata.key key).0 (ground arith);
        within_total = λ total e. ground (arith, e);
        table = (sound (ground arith)).0;
        fits = (sound (ground arith)).1;
      },
  λ c. elim (Option-cases metadata.total_size) [
    | inl e ↦ ground (
      arith,
      e,
      c.known_version,
      (is_key_iff metadata.key key).1 c.own_key,
      ranges_complete metadata.completed none 0 size (λ p q. cc) c.table c.fits,
    )
    | inr (total, e) ↦ ground (
      arith,
      e,
      c.known_version,
      c.within_total total e,
      (is_key_iff metadata.key key).1 c.own_key,
      ranges_complete metadata.completed none 0 size (λ p q. cc) c.table c.fits,
    )
  ],
)
