-- ===== src/Peer/Scheduler/History.antt =====
-- src/p2p_network.rs: any sequence of calls of a `PieceScheduler`, and how many claims it grants.
use video_proxy_server.Prelude.{ℕ, ◌+◌, Option, some, List, [], ◌∷◌}
use video_proxy_server.Error.{Result, ok}
use video_proxy_server.Storage.Disk.File.{Bytes}
use video_proxy_server.Peer.Torrent.{TorrentMetadata}
use video_proxy_server.Peer.Scheduler.{
  PieceScheduler, claim_next, observe_bitfield, complete_piece, fail, prioritize_byte_range,
  clear_priorities,
}

pub data Call : Type 0 where
  observe : Bytes → Call
  next : Bytes → Call
  report_complete : ℕ → Call
  report_failed : ℕ → Call
  prioritize : TorrentMetadata → ℕ → ℕ → ℕ → Call
  clear : Call

unfoldable pub perform : Call → PieceScheduler → PieceScheduler
perform (observe bitfield) s = (observe_bitfield bitfield s).0
perform (next bitfield) s = (claim_next bitfield s).0
perform (report_complete index) s = (complete_piece index s).0
perform (report_failed index) s = (fail index s).0
perform (prioritize metadata start end priority) s =
    (prioritize_byte_range metadata start end priority s).0
perform clear s = clear_priorities s

abbrev pub granted : Result (Option ℕ) → ℕ
granted (ok (some index)) = 1
granted _ = 0

-- 1 for a claim that hands out a piece.
unfoldable pub grants : Call → PieceScheduler → ℕ
grants (next bitfield) s = granted (claim_next bitfield s).1
grants _ s = 0

unfoldable pub perform_all : List Call → PieceScheduler → PieceScheduler
perform_all [] s = s
perform_all (call ∷ calls) s = perform_all calls (perform call s)

unfoldable pub claims : List Call → PieceScheduler → ℕ
claims [] s = 0
claims (call ∷ calls) s = grants call s + claims calls (perform call s)
