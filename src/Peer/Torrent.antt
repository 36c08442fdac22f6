-- ===== src/Peer/Torrent.antt =====
-- src/p2p_network.rs: the description of a torrent, and the lengths of its pieces.
use native.Mathlib.Nat.{mul-add, mul-le-mul_left}
use video_proxy_server.Prelude.{
  ℕ, ◌+◌, ◌-◌, ◌*◌, ◌≤◌, ◌<◌, ◌≡◌, List, leb, ltb, if◌then◌else◌, length, checked_sub, u64_max,
  Option, none, some, arith, ap, sym, ◌∙◌, refl, inl, inr, Bool-cases,
}
use video_proxy_server.Error.{Result, ok, err, ◌>>=◌, ok_or, refused}
use video_proxy_server.Strings.{Text}
use video_proxy_server.Storage.Disk.File.{Bytes}
use video_proxy_server.Peer.Word.{u32_max}

pub record TorrentFile : Type 0 where
  pub path : List Text
  pub size : ℕ

pub record TorrentMetadata : Type 0 where
  pub info_hash : Bytes
  pub name : Text
  pub total_length : ℕ
  pub piece_length : ℕ
  pub piece_sha1 : List Bytes
  pub files : List TorrentFile

-- `u64::checked_mul`
abbrev checked_mul : ℕ → ℕ → Option ℕ
checked_mul a b = if leb (a * b) u64_max then some (a * b) else none

-- `u32::try_from`
abbrev u32_try_from : ℕ → Option ℕ
u32_try_from n = if leb n u32_max then some n else none

-- The last piece has what the others leave.
last_piece_length : TorrentMetadata → ℕ → Result ℕ
last_piece_length metadata index = do
  consumed ← ok_or (checked_mul metadata.piece_length index) (refused "piece offset overflow")
  rest ← ok_or (checked_sub metadata.total_length consumed) (refused "piece length underflow")
  ok_or (u32_try_from rest) (refused "last piece length overflow")

unfoldable pub torrent_piece_length : TorrentMetadata → ℕ → Result ℕ
unfolding last_piece_length
torrent_piece_length metadata index =
    if leb (length metadata.piece_sha1) index
    then err (refused "piece index out of range")
    else if ltb (index + 1) (length metadata.piece_sha1)
    then ok metadata.piece_length
    else last_piece_length metadata index

-- What `parse_torrent_metadata` makes sure of: a piece length in range, and as many hashes as
-- pieces, `total_length.div_ceil(piece_length)`.
pub record IsTorrent (metadata : TorrentMetadata) : Type 0 where
  pub positive : 0 < metadata.piece_length
  pub bounded : metadata.piece_length ≤ 8388608
  pub fits : metadata.total_length ≤ u64_max
  pub few : length metadata.piece_sha1 ≤ 1000000
  pub enough : metadata.total_length ≤ metadata.piece_length * length metadata.piece_sha1
  pub needed :
      metadata.piece_length * length metadata.piece_sha1
      < metadata.total_length + metadata.piece_length

product_step : (p i : ℕ) → p * (i + 1) ≡ p * i + p
product_step p i = grind arith

inner_room : (p i n : ℕ) → i + 2 ≤ n → p * i + p + p ≤ p * n
inner_room p i n h = omega (arith, mul-le-mul_left p h, mul-add p i 2)

-- A piece of a torrent has a length, at least one byte and at most the piece length, and lies in
-- the torrent; a piece but the last has the whole piece length, and the last ends the torrent.
pub torrent_piece_length-bounds :
    (metadata : TorrentMetadata) (index : ℕ)
    → IsTorrent metadata
    → index < length metadata.piece_sha1
    → (size : ℕ) × (torrent_piece_length metadata index ≡ ok size)
      × (0 < size)
      × (size ≤ metadata.piece_length)
      × (metadata.piece_length * index + size ≤ metadata.total_length)
      × (index + 1 < length metadata.piece_sha1 → size ≡ metadata.piece_length)
      × (index + 1 ≡ length metadata.piece_sha1
          → metadata.piece_length * index + size ≡ metadata.total_length)
unfolding torrent_piece_length last_piece_length
torrent_piece_length-bounds metadata index t h =
    elim (Bool-cases (ltb (index + 1) (length metadata.piece_sha1))) [
      | inl inner ↦
          let room =
            inner_room metadata.piece_length index (length metadata.piece_sha1) (ground arith) in
          (
            metadata.piece_length,
            ground arith,
            t.positive,
            omega arith,
            ground arith,
            λ _. refl,
            ground arith,
          )
      | inr last ↦
          let e : index + 1 ≡ length metadata.piece_sha1 = ground arith in
          let q : metadata.piece_length * length metadata.piece_sha1
              ≡ metadata.piece_length * index + metadata.piece_length =
            ap (λ k. metadata.piece_length * k) (sym e)
            ∙ product_step metadata.piece_length index in
          let p : ℕ = metadata.piece_length * index in
          (
            metadata.total_length - p,
            ground arith,
            ground arith,
            ground arith,
            ground arith,
            λ inner. absurd (omega (arith, inner, e)),
            λ _. ground arith,
          )
    ]
