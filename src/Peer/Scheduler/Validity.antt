-- ===== src/Peer/Scheduler/Validity.antt =====
-- src/p2p_network.rs: what holds of a `PieceScheduler` after any sequence of calls.
use video_proxy_server.Prelude.{
  ℕ, zero, suc, ◌≤◌, ◌≡◌, refl, subst, ◌∙◌, inl, inr, ◌||◌, not, Option, none, some, List, [], ◌∷◌,
  leb, ltb, ◌==◌, length, arith, Bool-cases, get_elem?,
}
use video_proxy_server.Error.{ok}
use video_proxy_server.Storage.Disk.File.{Bytes}
use video_proxy_server.Peer.Torrent.{TorrentMetadata}
use video_proxy_server.Peer.Scheduler.{
  PieceState, PieceScheduler, missing, in_flight, replicate, fresh, new, set, claim, claim_next,
  bitfield_length, observe_bitfield, complete_piece, complete_at, fail, fail_at, one_more, get_or,
  prioritize_byte_range, clear_priorities,
}
use video_proxy_server.Peer.Scheduler.Claiming.{Chosen, best-Chosen}
use video_proxy_server.Peer.Scheduler.Termination.{eligible_parts, new_ok}
use video_proxy_server.Peer.Scheduler.History.{
  Call, observe, next, report_complete, report_failed, prioritize, clear, perform, perform_all,
}
use video_proxy_server.Peer.Scheduler.Agreement.{
  Agree, IsValid, length-set, length-count_peer, length-clear, length-raise, Agree-claim,
  Agree-complete, Agree-fail, with_states,
}

module _ (count : ℕ) (s : PieceScheduler) (v : IsValid count s) where
  length-set_states : (i : ℕ) (state : PieceState) → length (set s.states i state) ≡ count
  length-set_states i state = length-set s.states i state ∙ v.pieces

  claim-IsValid :
      (bitfield : Bytes) (candidate : Option ℕ)
      → Chosen bitfield s 0 (length s.states) candidate
      → IsValid count (claim s candidate)
  claim-IsValid bitfield none c = v
  claim-IsValid bitfield (some index) (_, _, e, _) =
      let (_, b) = eligible_parts bitfield s index e in
      with_states count s (set s.states index in_flight) s.failures v
        (length-set_states index in_flight)
        (Agree-claim s.max_failures s.states s.failures index b v.agree)

  next-IsValid : (bitfield : Bytes) → IsValid count (claim_next bitfield s).0
  unfolding claim_next
  next-IsValid bitfield = elim (Bool-cases (length bitfield == bitfield_length (length s.states))) [
    | inl e ↦ rw e (claim-IsValid bitfield _ (best-Chosen bitfield s 0 (length s.states)))
    | inr e ↦ rw e v
  ]

  complete_at-IsValid :
      (index : ℕ) (found : Option PieceState)
      → get_elem? s.states index ≡ found
      → IsValid count (complete_at s index found).0
  unfolding complete_at
  complete_at-IsValid index none e = v
  complete_at-IsValid index (some missing) e = v
  complete_at-IsValid index (some in_flight) e =
      with_states count s (set s.states index PieceState.complete) s.failures v
        (length-set_states index PieceState.complete)
        (Agree-complete s.max_failures s.states s.failures index e v.agree)
  complete_at-IsValid index (some PieceState.complete) e = v

  fail_at-IsValid :
      (index : ℕ) (found : Option PieceState)
      → get_elem? s.states index ≡ found
      → IsValid count (fail_at s index found).0
  unfolding fail_at
  fail_at-IsValid index none e = v
  fail_at-IsValid index (some missing) e = v
  fail_at-IsValid index (some in_flight) e =
      with_states count s (set s.states index missing)
        (set s.failures index (one_more (get_or s.failures index 0))) v
        (length-set_states index missing)
        (Agree-fail s.max_failures s.states s.failures index e v.agree)
  fail_at-IsValid index (some PieceState.complete) e = v

  observe-IsValid : (bitfield : Bytes) → IsValid count (observe_bitfield bitfield s).0
  unfolding observe_bitfield
  observe-IsValid bitfield =
      elim (Bool-cases (length bitfield == bitfield_length (length s.states))) [
        | inl e ↦ rw e (record {
          pieces = v.pieces;
          counted = length-count_peer bitfield 0 s.availability ∙ v.counted;
          ranked = v.ranked;
          bounded = v.bounded;
          agree = v.agree;
        })
        | inr e ↦ rw e v
      ]

  ranked-IsValid :
      (priorities : List ℕ)
      → length priorities ≡ count
      → IsValid count (record s { priorities = priorities })
  ranked-IsValid priorities l = record {
    pieces = v.pieces;
    counted = v.counted;
    ranked = l;
    bounded = v.bounded;
    agree = v.agree;
  }

  prioritize-IsValid :
      (metadata : TorrentMetadata) (start end priority : ℕ)
      → IsValid count (prioritize_byte_range metadata start end priority s).0
  unfolding prioritize_byte_range
  prioritize-IsValid metadata start end priority =
      elim (Bool-cases (
        ltb end start
        || (leb metadata.total_length end
            || not (length metadata.piece_sha1 == length s.states)))) [
              | inl e ↦ rw e v
              | inr e ↦
                  rw e (ranked-IsValid _ (length-raise _ _ priority 0 s.priorities ∙ v.ranked))
            ]

  perform-IsValid : (call : Call) → IsValid count (perform call s)
  unfolding perform
  perform-IsValid (observe bitfield) = observe-IsValid bitfield
  perform-IsValid (next bitfield) = next-IsValid bitfield
  perform-IsValid (report_complete index) =
      unfold complete_piece in complete_at-IsValid index _ refl
  perform-IsValid (report_failed index) = unfold fail in fail_at-IsValid index _ refl
  perform-IsValid (prioritize metadata start end priority) =
      prioritize-IsValid metadata start end priority
  perform-IsValid clear =
      unfold clear_priorities in ranked-IsValid _ (length-clear s.priorities ∙ v.ranked)

length-replicate {ℓ} : {A : Type ℓ} (n : ℕ) (a : A) → length (replicate n a) ≡ n
length-replicate zero a = refl
length-replicate (suc n) a = omega (arith, length-replicate n a)

Agree-replicate : (bound count : ℕ) → Agree bound (replicate count missing) (replicate count 0)
Agree-replicate bound zero = tt
Agree-replicate bound (suc count) = (omega arith, Agree-replicate bound count)

fresh-IsValid : (count bound : ℕ) → bound ≤ 255 → IsValid count (fresh count bound)
fresh-IsValid count bound h = record {
  pieces = length-replicate count missing;
  counted = length-replicate count 0;
  ranked = length-replicate count 0;
  bounded = h;
  agree = Agree-replicate bound count;
}

perform_all-IsValid' :
    (count : ℕ) (calls : List Call) (s : PieceScheduler)
    → IsValid count s
    → IsValid count (perform_all calls s)
unfolding perform_all
perform_all-IsValid' count [] s v = v
perform_all-IsValid' count (call ∷ calls) s v =
    perform_all-IsValid' count calls (perform call s) (perform-IsValid count s v call)

-- A new scheduler, and what any sequence of calls makes of it, keeps one entry for each piece in
-- every vector; no piece fails more often than allowed, and one that is in flight or complete has
-- failed less often.
pub perform_all-IsValid :
    (piece_count max_failures : ℕ) (s : PieceScheduler) (calls : List Call)
    → max_failures ≤ 255
    → new piece_count max_failures ≡ ok s
    → IsValid piece_count (perform_all calls s)
perform_all-IsValid piece_count max_failures s calls b h =
    perform_all-IsValid' piece_count calls s (
      subst (IsValid piece_count) (new_ok piece_count max_failures s h)
        (fresh-IsValid piece_count max_failures b))
