-- ===== src/Peer/Scheduler.antt =====
-- src/p2p_network.rs: `PieceScheduler`, which piece is fetched next from which peer. The vectors
-- have one entry for each piece; an index beyond their end, where the code would panic, is answered
-- by the test `false` and by no change.
pub mod Claiming
pub mod Choice
pub mod History
pub mod Termination
pub mod Agreement
pub mod Validity
use video_proxy_server.Prelude.{
  ℕ, zero, suc, ◌+◌, ◌-◌, ◌*◌, ◌/◌, ◌%◌, ◌^◌, min, max, Bool, true, false, ◌&&◌, ◌||◌, not, Option,
  none, some, List, [], ◌∷◌, leb, ltb, ◌==◌, if◌then◌else◌, length, get_elem?,
}
use video_proxy_server.Error.{Result, ok, err, malformed, refused}
use video_proxy_server.Storage.Disk.File.{Bytes}
use video_proxy_server.Peer.Word.{u32_max}
use video_proxy_server.Peer.Torrent.{TorrentMetadata}

pub data PieceState : Type 0 where
  missing : PieceState
  in_flight : PieceState
  complete : PieceState

pub record PieceScheduler : Type 0 where
  pub states : List PieceState
  pub availability : List ℕ
  pub failures : List ℕ
  pub max_failures : ℕ
  pub priorities : List ℕ

-- `vec![value; count]`
abbrev pub replicate {ℓ} : {A : Type ℓ} → ℕ → A → List A
replicate zero a = []
replicate (suc n) a = a ∷ replicate n a

abbrev pub fresh : ℕ → ℕ → PieceScheduler
fresh piece_count max_failures = record {
  states = replicate piece_count missing;
  availability = replicate piece_count 0;
  failures = replicate piece_count 0;
  max_failures = max_failures;
  priorities = replicate piece_count 0;
}

unfoldable pub new : ℕ → ℕ → Result PieceScheduler
new piece_count max_failures =
    if piece_count == 0 || (ltb 1000000 piece_count || max_failures == 0)
    then err (refused "invalid piece scheduler limits")
    else ok (fresh piece_count max_failures)

-- `div_ceil(8)`
abbrev pub bitfield_length : ℕ → ℕ
bitfield_length count = (count + 7) / 8

abbrev pub byte_bit : Option ℕ → ℕ → Bool
byte_bit none bit = false
byte_bit (some byte) bit = byte / 2 ^ (7 - bit) % 2 == 1

-- `bitfield[index / 8] & (0x80 >> (index % 8)) != 0`
unfoldable pub has_piece : Bytes → ℕ → Bool
has_piece bitfield index = byte_bit (get_elem? bitfield (index / 8)) (index % 8)

-- The loop of `observe_bitfield` from `index` on.
unfoldable pub count_peer : Bytes → ℕ → List ℕ → List ℕ
count_peer bitfield index [] = []
count_peer bitfield index (a ∷ availability) =
    (if has_piece bitfield index then min (a + 1) u32_max else a)
    ∷ count_peer bitfield (suc index) availability

abbrev pub last_byte : Bytes → ℕ
last_byte [] = 0
last_byte (b ∷ []) = b
last_byte (b ∷ c ∷ bytes) = last_byte (c ∷ bytes)

-- The bits past the last piece.
unfoldable pub sets_spare_bits : Bytes → ℕ → Bool
sets_spare_bits bitfield count =
    let spare_bits = length bitfield * 8 - count in
    ltb 0 spare_bits && not (last_byte bitfield % 2 ^ spare_bits == 0)

-- The counters are raised before the spare bits are looked at.
unfoldable pub observe_bitfield : Bytes → PieceScheduler → PieceScheduler × Result (Unit {0})
observe_bitfield bitfield s =
    if not (length bitfield == bitfield_length (length s.states))
    then (s, err (malformed "peer bitfield length mismatch"))
    else (
      record s { availability = count_peer bitfield 0 s.availability },
      if sets_spare_bits bitfield (length s.states)
          then err (malformed "peer bitfield sets spare bits")
          else ok tt,
    )

abbrev pub is_missing : Option PieceState → Bool
is_missing (some missing) = true
is_missing _ = false

abbrev pub below : Option ℕ → ℕ → Bool
below none bound = false
below (some n) bound = ltb n bound

unfoldable pub eligible : Bytes → PieceScheduler → ℕ → Bool
eligible bitfield s index =
    has_piece bitfield index
    && (is_missing (get_elem? s.states index) && below (get_elem? s.failures index) s.max_failures)

abbrev pub get_or : List ℕ → ℕ → ℕ → ℕ
get_or [] i d = d
get_or (x ∷ xs) zero d = x
get_or (x ∷ xs) (suc i) d = get_or xs i d

-- The key by which pieces are compared; the first part comes first.
pub record Key : Type 0 where
  pub urgency : ℕ
  pub peers : ℕ
  pub failed : ℕ
  pub position : ℕ

unfoldable pub key : PieceScheduler → ℕ → Key
key s index = record {
  urgency = 255 - get_or s.priorities index 0;
  peers = get_or s.availability index 0;
  failed = get_or s.failures index 0;
  position = index;
}

-- `<` on the tuples of four.
unfoldable pub key_lt : Key → Key → Bool
key_lt a b =
    ltb a.urgency b.urgency
    || (a.urgency == b.urgency
        && (ltb a.peers b.peers
            || (a.peers == b.peers
                && (ltb a.failed b.failed || (a.failed == b.failed && ltb a.position b.position)))))

-- `filter` and `min_by_key` over the indices `from`, `from + 1`, …: an earlier index stays unless a
-- later one has a smaller key.
abbrev pub better : PieceScheduler → ℕ → Option ℕ → ℕ
better s index none = index
better s index (some later) = if key_lt (key s later) (key s index) then later else index

unfoldable pub best : Bytes → PieceScheduler → ℕ → ℕ → Option ℕ
best bitfield s from zero = none
best bitfield s from (suc count) =
    let later = best bitfield s (suc from) count in
    if eligible bitfield s from then some (better s from later) else later

abbrev pub set {ℓ} : {A : Type ℓ} → List A → ℕ → A → List A
set [] i v = []
set (x ∷ xs) zero v = v ∷ xs
set (x ∷ xs) (suc i) v = x ∷ set xs i v

abbrev pub claim : PieceScheduler → Option ℕ → PieceScheduler
claim s none = s
claim s (some index) = record s { states = set s.states index in_flight }

unfoldable pub claim_next : Bytes → PieceScheduler → PieceScheduler × Result (Option ℕ)
claim_next bitfield s =
    let candidate = best bitfield s 0 (length s.states) in
    if not (length bitfield == bitfield_length (length s.states))
    then (s, err (malformed "peer bitfield length mismatch"))
    else (claim s candidate, ok candidate)

-- The two operations on a piece in flight, by the state found.
unfoldable pub complete_at :
    PieceScheduler → ℕ → Option PieceState → PieceScheduler × Result (Unit {0})
complete_at s index none = (s, err (refused "piece index out of range"))
complete_at s index (some in_flight) =
    (record s { states = set s.states index PieceState.complete }, ok tt)
complete_at s index (some _) = (s, err (refused "piece is not in flight"))

unfoldable pub complete_piece : ℕ → PieceScheduler → PieceScheduler × Result (Unit {0})
complete_piece index s = complete_at s index (get_elem? s.states index)

-- `u8::saturating_add` of one.
abbrev pub one_more : ℕ → ℕ
one_more n = min (n + 1) 255

unfoldable pub fail_at : PieceScheduler → ℕ → Option PieceState → PieceScheduler × Result (Unit {0})
fail_at s index none = (s, err (refused "piece index out of range"))
fail_at s index (some in_flight) = (
  record s {
    failures = set s.failures index (one_more (get_or s.failures index 0));
    states = set s.states index missing;
  },
  ok tt,
)
fail_at s index (some _) = (s, err (refused "piece is not in flight"))

unfoldable pub fail : ℕ → PieceScheduler → PieceScheduler × Result (Unit {0})
fail index s = fail_at s index (get_elem? s.states index)

abbrev pub is_complete_state : PieceState → Bool
is_complete_state complete = true
is_complete_state _ = false

unfoldable pub all_complete : List PieceState → Bool
all_complete [] = true
all_complete (state ∷ states) = is_complete_state state && all_complete states

unfoldable pub is_complete : PieceScheduler → Bool
is_complete s = all_complete s.states

-- The loop over `first..=last`, from `index` on.
unfoldable pub raise : ℕ → ℕ → ℕ → ℕ → List ℕ → List ℕ
raise first last priority index [] = []
raise first last priority index (p ∷ priorities) =
    (if leb first index && leb index last then max p priority else p)
    ∷ raise first last priority (suc index) priorities

unfoldable pub prioritize_byte_range :
    TorrentMetadata → ℕ → ℕ → ℕ → PieceScheduler → PieceScheduler × Result (Unit {0})
prioritize_byte_range metadata start end priority s =
    if ltb end start
      || (leb metadata.total_length end || not (length metadata.piece_sha1 == length s.states))
    then (s, err (refused "invalid playback priority range"))
    else (
      record s {
        priorities =
            raise (start / metadata.piece_length) (end / metadata.piece_length) priority 0
              s.priorities;
      },
      ok tt,
    )

unfoldable pub clear : List ℕ → List ℕ
clear [] = []
clear (p ∷ priorities) = 0 ∷ clear priorities

unfoldable pub clear_priorities : PieceScheduler → PieceScheduler
clear_priorities s = record s { priorities = clear s.priorities }
