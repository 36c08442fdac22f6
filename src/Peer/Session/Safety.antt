-- ===== src/Peer/Session/Safety.antt =====
-- src/p2p_network.rs: a download from a peer leaves no piece in flight, and what it completes is on
-- disk.
use video_proxy_server.Prelude.{
  ℕ, zero, suc, ◌≡◌, ◌≢◌, refl, ap, sym, ◌∙◌, inl, inr, true, ◌||◌, ltb, ◌==◌, if◌then◌else◌,
  Option, none, some, get_elem?, length, arith,
}
use video_proxy_server.Map.{nat_eq, list_eq, lookup}
use video_proxy_server.Error.{Result, ok, err, refused}
use video_proxy_server.Exec.{Exec, pure}
use video_proxy_server.Exec.Keeps.{Keeps-bind, Keeps-attempt}
use video_proxy_server.Storage.Disk.File.{Bytes}
use video_proxy_server.Peer.Torrent.{TorrentMetadata}
use video_proxy_server.Peer.Scheduler.{
  PieceState, PieceScheduler, missing, in_flight, set, claim, is_missing, observe_bitfield,
}
use video_proxy_server.Peer.Scheduler.Claiming.{Chosen, claim_next-Chosen}
use video_proxy_server.Peer.Scheduler.Termination.{eligible_parts}
use video_proxy_server.Peer.Store.{FileErrors}
use video_proxy_server.Peer.Connection.{listen}
use video_proxy_server.Peer.Session.{
  Session, on_connection, on_scheduler, fetch, settle, download_claimed, download_next_piece,
  download_pieces, await_bitfield, download_from_peer,
}
use video_proxy_server.Peer.Session.Fetching.{fetch-scheduler, fetch-other, Holds, fetch-Holds}
use video_proxy_server.Peer.Session.Settled.{
  Progress, Progress-refl, Progress-trans, settle_complete, settle_fail,
}

missing_lem : (found : Option PieceState) → is_missing found ≡ true → found ≡ some missing
missing_lem none h = cc
missing_lem (some missing) h = refl
missing_lem (some in_flight) h = cc
missing_lem (some PieceState.complete) h = cc

module _ (digest : Bytes → Bytes) (env : ℕ → FileErrors) (metadata : TorrentMetadata) where
  settle_by :
      (s t : Session) (index : ℕ) (r : Result (Unit {0}))
      → get_elem? s.scheduler.states index ≡ some missing
      → t.scheduler.states ≡ set s.scheduler.states index in_flight
      → ((j : ℕ) → j ≢ index → lookup j t.files ≡ lookup j s.files)
      → ((u : Unit {0}) → r ≡ ok u → Holds digest metadata index t.files)
      → Progress digest metadata s (settle index (r, t)).1
  settle_by s t index (ok u) free claimed others held =
      settle_complete digest metadata s t index free claimed others u (held u refl)
  settle_by s t index (err e) free claimed others held =
      settle_fail digest metadata s t index free claimed others e

  claimed-Progress :
      (peer_bitfield : Bytes) (s : Session) (candidate : Option ℕ)
      → Chosen peer_bitfield s.scheduler 0 (length s.scheduler.states) candidate
      → Progress digest metadata s
          (download_claimed digest env metadata candidate
            (record s { scheduler = claim s.scheduler candidate })).1
  unfolding download_claimed
  claimed-Progress peer_bitfield s none c = Progress-refl digest metadata s
  claimed-Progress peer_bitfield s (some index) (_, _, e, _) =
      let (m, _) = eligible_parts peer_bitfield s.scheduler index e in
      let s₁ : Session = record s { scheduler = claim s.scheduler (some index) } in
      let r = fetch digest env metadata index s₁ in
      settle_by s r.1 index r.0 (missing_lem _ m)
        (ap (λ (u : PieceScheduler). u.states) (fetch-scheduler digest env metadata index s₁))
        (λ j n. fetch-other digest env metadata index j n s₁)
        (λ u h. fetch-Holds digest env metadata index s₁ u h)

  next-Progress :
      (peer_bitfield : Bytes) (s : Session)
      → Progress digest metadata s (download_next_piece digest env metadata peer_bitfield s).1
  unfolding download_next_piece
  next-Progress peer_bitfield s = elim (claim_next-Chosen peer_bitfield s.scheduler) [
    | inl (_, (candidate, e, chosen)) ↦ rw e (claimed-Progress peer_bitfield s candidate chosen)
    | inr (_, e) ↦ rw e (Progress-refl digest metadata s)
  ]

  rest_by :
      (s s₁ : Session) (got : Option ℕ) (more : Exec Session ℕ)
      → Progress digest metadata s s₁
      → Progress digest metadata s (more s₁).1
      → Progress digest metadata s
          ((elim got as (λ _. Exec Session ℕ) [ none ↦ pure 0 | some index ↦ more ]) s₁).1
  rest_by s s₁ none more h k = h
  rest_by s s₁ (some index) more h k = k

  pieces-Progress :
      (left : ℕ) (peer_bitfield : Bytes) (s : Session)
      → Progress digest metadata s (download_pieces digest env metadata left peer_bitfield s).1
  unfolding download_pieces
  pieces-Progress zero peer_bitfield s = Progress-refl digest metadata s
  pieces-Progress (suc left) peer_bitfield s =
      let s₁ = (download_next_piece digest env metadata peer_bitfield s).1 in
      let P : Session → Type 0 = Progress digest metadata s in
      let first = next-Progress peer_bitfield s in
      Keeps-bind P (download_next_piece digest env metadata peer_bitfield) _ s first λ got _.
        rest_by s s₁ got _ first (
          Keeps-bind P (download_pieces digest env metadata left peer_bitfield) _ s₁
            (Progress-trans digest metadata s s₁ _ first (pieces-Progress left peer_bitfield s₁))
            λ _ _.
              Progress-trans digest metadata s s₁ _ first (pieces-Progress left peer_bitfield s₁))

  observe-states :
      (bits : Bytes) (u : PieceScheduler) → (observe_bitfield bits u).0.states ≡ u.states
  unfolding observe_bitfield
  observe-states bits u = ground arith

  observe-Progress :
      (bits : Bytes) (s : Session)
      → Progress digest metadata s (on_scheduler (observe_bitfield bits) s).1
  observe-Progress bits s =
      let e = observe-states bits s.scheduler in
      record {
        settled = λ j. inl (ap (λ xs. get_elem? xs j) e);
        stored = λ all j c. all j (sym (ap (λ xs. get_elem? xs j) e) ∙ c);
      }

  -- Whether it succeeds or fails, a download from a peer leaves every piece as it was, or complete
  -- where it was missing, so that no piece stays in flight; and if every complete piece was on disk
  -- with the hash that the torrent names, then every complete piece still is.
  pub download_from_peer-Progress :
      (max_pieces : ℕ) (s : Session)
      → Progress digest metadata s (download_from_peer digest env metadata max_pieces s).1
  unfolding download_from_peer
  download_from_peer-Progress max_pieces s =
      let P : Session → Type 0 = Progress digest metadata s in
      let s₁ = (on_connection (listen await_bitfield) s).1 in
      let start : P s = Progress-refl digest metadata s in
      let same : P s₁ = record { settled = start.settled; stored = start.stored } in
      Keeps-attempt P
        (if max_pieces == 0 || ltb 10000 max_pieces
          then some (refused "invalid peer download limit")
          else none)
        _ s start
        (Keeps-bind P (on_connection (listen await_bitfield)) _ s same λ bits _.
          let s₂ = (on_scheduler (observe_bitfield bits) s₁).1 in
          let seen : P s₂ =
            Progress-trans digest metadata s s₁ s₂ same (observe-Progress bits s₁) in
          Keeps-bind P (on_scheduler (observe_bitfield bits)) _ s₁ seen
            λ _ _. Progress-trans digest metadata s s₂ _ seen (pieces-Progress max_pieces bits s₂))
