-- ===== src/Tests/Peer.antt =====
-- Runs of the peer protocol and of the scheduler of pieces.
use video_proxy_server.Prelude.{
  ℕ, ◌+◌, ◌*◌, ◌≤◌, ◌<◌, ◌≡◌, ◌≢◌, refl, ◌⊎◌, true, false, none, some, List, [], ◌∷◌, length, arith,
}
use video_proxy_server.Map.{nat_eq, list_eq, lookup}
use video_proxy_server.Error.{ProxyError, ok, err, network, text, malformed}
use video_proxy_server.Storage.Disk.File.{Bytes}
use video_proxy_server.Peer.Word.{be32, from_be32}
use video_proxy_server.Peer.Message.{
  BitTorrentHandshake, encode_handshake, parse_handshake, PeerMessage, request, unchoke,
  encode_peer_message, frame, frame_within, parse_peer_message, parse_frame, parse_payload,
  parse_body,
}
use video_proxy_server.Peer.Message.RoundTrip.{parse_peer_message-encode_peer_message}
use video_proxy_server.Peer.Message.Canonical.{encode_peer_message-parse_peer_message}
use video_proxy_server.Peer.Message.Handshake.{parse_handshake-encode_handshake}
use video_proxy_server.Peer.Torrent.{
  TorrentMetadata, torrent_piece_length, torrent_piece_length-bounds,
}
use video_proxy_server.Peer.Scheduler.{fresh, new, claim_next, bitfield_length}
use video_proxy_server.Peer.Scheduler.Choice.{IsChoice, claim_next-IsChoice}
use video_proxy_server.Peer.Scheduler.History.{
  next, report_failed, report_complete, perform_all, claims, Call,
}
use video_proxy_server.Peer.Scheduler.Termination.{claims_bounded}
use video_proxy_server.Peer.Scheduler.Validity.{perform_all-IsValid}
use video_proxy_server.Peer.Scheduler.Agreement.{IsValid}
use video_proxy_server.Peer.Store.{
  PieceFiles, FileErrors, invalid_size, verify_piece_sha1, store, load, load_found, accept,
}
use video_proxy_server.Peer.Store.Verified.{load-store}
use video_proxy_server.Peer.Connection.{
  Connection, download_piece, block_count, send, write_all, validate_block_request,
}
use video_proxy_server.Peer.Connection.Download.{unchokes, download_piece-IsExact}
use video_proxy_server.Peer.Connection.Answers.{open_to, answers, download_piece-answers}
use video_proxy_server.Peer.Session.{Session, download_from_peer}
use video_proxy_server.Peer.Session.Settled.{Progress}
use video_proxy_server.Peer.Session.Safety.{download_from_peer-Progress}
use video_proxy_server.Peer.Upload.{
  Seeder, answer, read_block, serve_block, serve_requests, serve_upload_requests,
}
use video_proxy_server.Peer.Upload.Quota.{block_bytes, serve_upload_requests-quota}

abbrev first_request : PeerMessage
first_request = request 2 16384 512

parse_peer_message-encode_peer_message_example :
    (output : Bytes) × (encode_peer_message first_request ≡ ok output)
    × (parse_peer_message output ≡ ok first_request)
parse_peer_message-encode_peer_message_example =
    parse_peer_message-encode_peer_message first_request (omega arith, omega arith, omega arith)

abbrev unchoke_bytes : Bytes
unchoke_bytes = 0 ∷ 0 ∷ 0 ∷ 1 ∷ 1 ∷ []

unchoke_parsed : parse_peer_message unchoke_bytes ≡ ok unchoke
unfolding parse_peer_message parse_frame parse_payload parse_body from_be32
unchoke_parsed = refl

encode_peer_message-parse_peer_message_example : encode_peer_message unchoke ≡ ok unchoke_bytes
encode_peer_message-parse_peer_message_example =
    encode_peer_message-parse_peer_message unchoke_bytes unchoke (omega arith) unchoke_parsed

abbrev twenty : Bytes
twenty =
    1 ∷ 2 ∷ 3 ∷ 4 ∷ 5 ∷ 6 ∷ 7 ∷ 8 ∷ 9 ∷ 10 ∷ 11 ∷ 12 ∷ 13 ∷ 14 ∷ 15 ∷ 16 ∷ 17 ∷ 18 ∷ 19 ∷ 20 ∷ []

abbrev hello : BitTorrentHandshake
hello = record {
  reserved = 0 ∷ 0 ∷ 0 ∷ 0 ∷ 0 ∷ 16 ∷ 0 ∷ 0 ∷ [];
  info_hash = twenty;
  peer_id = twenty;
}

parse_handshake-encode_handshake_example :
    (length (encode_handshake hello) ≡ 68) × (parse_handshake (encode_handshake hello) ≡ ok hello)
parse_handshake-encode_handshake_example = parse_handshake-encode_handshake hello (refl, refl, refl)

-- Three pieces of 100 bytes but the last, which has 50.
abbrev torrent : TorrentMetadata
torrent = record {
  info_hash = twenty;
  name = [];
  total_length = 250;
  piece_length = 100;
  piece_sha1 = twenty ∷ twenty ∷ twenty ∷ [];
  files = [];
}

torrent_piece_length-bounds_example :
    (size : ℕ) × (torrent_piece_length torrent 1 ≡ ok size)
    × (0 < size)
    × (size ≤ 100)
    × (100 * 1 + size ≤ 250)
    × (1 + 1 < length torrent.piece_sha1 → size ≡ 100)
    × (1 + 1 ≡ length torrent.piece_sha1 → 100 * 1 + size ≡ 250)
torrent_piece_length-bounds_example =
    torrent_piece_length-bounds torrent 1
      (record {
        positive = omega arith;
        bounded = omega arith;
        fits = omega arith;
        few = omega arith;
        enough = omega arith;
        needed = omega arith;
      })
      (omega arith)

abbrev all_pieces : Bytes
all_pieces = 0xe0 ∷ []

claim_next-IsChoice_example :
    ((length all_pieces ≡ bitfield_length 3)
      × IsChoice all_pieces (fresh 3 2) (claim_next all_pieces (fresh 3 2)))
    ⊎ ((length all_pieces ≢ bitfield_length 3)
        × (claim_next all_pieces (fresh 3 2)
            ≡ (fresh 3 2, err (malformed "peer bitfield length mismatch"))))
claim_next-IsChoice_example =
    claim_next-IsChoice all_pieces (fresh 3 2) (omega arith, (omega arith, (omega arith, tt)))

-- A piece fails once and is completed.
abbrev calls : List Call
calls = next all_pieces ∷ report_failed 0 ∷ next (0x80 ∷ []) ∷ report_complete 0 ∷ []

abbrev accepted : new 3 2 ≡ ok (fresh 3 2)
unfolding new
accepted = refl

claims_bounded_example : claims calls (fresh 3 2) ≤ 3 * 2
claims_bounded_example = claims_bounded 3 2 (fresh 3 2) calls (omega arith) accepted

perform_all-IsValid_example : IsValid 3 (perform_all calls (fresh 3 2))
perform_all-IsValid_example = perform_all-IsValid 3 2 (fresh 3 2) calls (omega arith) accepted

-- The hash of a text is its length.
abbrev length_digest : Bytes → Bytes
length_digest bytes = length bytes ∷ []

abbrev no_errors : FileErrors
no_errors = record {
  write_error = none;
  rename_error = none;
  read_error = none;
  remove_error = none;
}

abbrev two_bytes : Bytes
two_bytes = 7 ∷ 8 ∷ []

abbrev stored_files : PieceFiles
stored_files = (4, two_bytes) ∷ []

stores : (store length_digest no_errors 4 two_bytes (2 ∷ []) []).0 ≡ ok tt
unfolding store verify_piece_sha1 invalid_size
stores = refl

load-store_example :
    let after = (store length_digest no_errors 4 two_bytes (2 ∷ []) []).1 in
    (load length_digest no_errors 4 (2 ∷ []) after ≡ (ok (some two_bytes), after))
    × ((j : ℕ) → j ≢ 4 → lookup j after ≡ lookup j [])
load-store_example =
    load-store length_digest no_errors no_errors 4 two_bytes (2 ∷ []) [] stores refl

abbrev quiet : ProxyError
quiet = network (text "peer message receive timed out")

-- A peer that unchokes and answers the one request for a piece of two bytes.
abbrev peer : Connection
peer = open_to (answers (block_count 2) 4 0 two_bytes) [] quiet

download_piece-answers_example : (download_piece length_digest 4 2 (2 ∷ []) peer).0 ≡ ok two_bytes
download_piece-answers_example =
    download_piece-answers length_digest 4 two_bytes [] quiet (omega arith) (omega arith)

download_piece-IsExact_example :
    (length two_bytes ≡ 2)
    × (length_digest two_bytes ≡ 2 ∷ [])
    × (0 < 2)
    × (2 ≤ 8388608)
    × (block_count 2 ≤ unchokes peer.inbox)
download_piece-IsExact_example =
    download_piece-IsExact length_digest 4 2 (2 ∷ []) peer two_bytes
      (download_piece-answers length_digest 4 two_bytes [] quiet (omega arith) (omega arith))

abbrev session : Session
session = record { connection = peer; scheduler = fresh 3 2; files = stored_files }

download_from_peer-Progress_example :
    Progress length_digest torrent session
      (download_from_peer length_digest (λ _. no_errors) torrent 5 session).1
download_from_peer-Progress_example =
    download_from_peer-Progress length_digest (λ _. no_errors) torrent 5 session

-- A torrent of one piece of two bytes, and a peer that asks for it twice; the quota is three bytes.
abbrev small : TorrentMetadata
small = record {
  info_hash = twenty;
  name = [];
  total_length = 2;
  piece_length = 2;
  piece_sha1 = (2 ∷ []) ∷ [];
  files = [];
}

abbrev seeder : Seeder
seeder = record {
  upload = record { authorized = true; max_bytes = 3; uploaded = 0 };
  files = (0, two_bytes) ∷ [];
  connection = open_to (ok (request 0 0 2) ∷ ok (request 0 0 2) ∷ []) [] quiet;
}

serves_once :
    (serve_upload_requests length_digest (λ _. no_errors) small 5 seeder).1.upload.uploaded ≡ 2
unfolding serve_upload_requests serve_requests answer serve_block read_block load load_found accept
    invalid_size lookup torrent_piece_length validate_block_request send write_all
    encode_peer_message frame frame_within be32
serves_once = refl

serve_upload_requests-quota_example :
    let t = (serve_upload_requests length_digest (λ _. no_errors) small 5 seeder).1 in
    (block_bytes t.connection.sent + 0 ≤ 0 + t.upload.uploaded)
    × (t.upload.uploaded ≤ 3)
    × (true ≡ false → block_bytes t.connection.sent ≤ 0)
serve_upload_requests-quota_example =
    serve_upload_requests-quota length_digest (λ _. no_errors) small 5 seeder (omega arith)
