-- ===== src/Peer/Scheduler/Termination.antt =====
-- src/p2p_network.rs: a `PieceScheduler` hands out pieces only so often.
use video_proxy_server.Prelude.{
  ℕ, zero, suc, ◌+◌, ◌-◌, ◌*◌, ◌≤◌, ◌≡◌, refl, subst, inl, inr, true, Option, none, some, List, [],
  ◌∷◌, ◌==◌, length, arith, Bool-cases, get_elem?,
}
use video_proxy_server.Error.{ok}
use video_proxy_server.Storage.Disk.File.{Bytes}
use video_proxy_server.Peer.Scheduler.{
  PieceState, PieceScheduler, missing, in_flight, replicate, fresh, new, eligible, best, set, claim,
  claim_next, bitfield_length, observe_bitfield, complete_piece, complete_at, fail, fail_at,
  one_more, get_or, prioritize_byte_range, clear_priorities, is_missing, below,
}
use video_proxy_server.Peer.Scheduler.Claiming.{Chosen, best-Chosen}
use video_proxy_server.Peer.Scheduler.History.{
  Call, observe, next, report_complete, report_failed, prioritize, clear, perform, granted, grants,
  claims,
}

-- How often a piece may still be claimed.
abbrev attempts_left : ℕ → PieceState → ℕ → ℕ
attempts_left bound missing failed = bound - failed
attempts_left bound in_flight failed = bound - failed - 1
attempts_left bound PieceState.complete failed = 0

total_left : ℕ → List PieceState → List ℕ → ℕ
total_left bound [] failures = 0
total_left bound (state ∷ states) [] = 0
total_left bound (state ∷ states) (failed ∷ failures) =
    attempts_left bound state failed + total_left bound states failures

remaining : PieceScheduler → ℕ
unfolding total_left
remaining s = total_left s.max_failures s.states s.failures

total_left-claim :
    (bound : ℕ) (states : List PieceState) (failures : List ℕ) (i : ℕ)
    → is_missing (get_elem? states i) ≡ true
    → below (get_elem? failures i) bound ≡ true
    → total_left bound (set states i in_flight) failures + 1 ≤ total_left bound states failures
unfolding total_left
total_left-claim bound [] failures i h k = cc
total_left-claim bound (state ∷ states) [] i h k = cc
total_left-claim bound (missing ∷ states) (f ∷ failures) zero h k = ground arith
total_left-claim bound (in_flight ∷ states) (f ∷ failures) zero h k = cc
total_left-claim bound (PieceState.complete ∷ states) (f ∷ failures) zero h k = cc
total_left-claim bound (state ∷ states) (f ∷ failures) (suc i) h k =
    omega (arith, total_left-claim bound states failures i h k)

total_left-complete :
    (bound : ℕ) (states : List PieceState) (failures : List ℕ) (i : ℕ)
    → total_left bound (set states i PieceState.complete) failures
      ≤ total_left bound states failures
unfolding total_left
total_left-complete bound [] failures i = omega arith
total_left-complete bound (state ∷ states) [] zero = omega arith
total_left-complete bound (state ∷ states) [] (suc i) = omega arith
total_left-complete bound (state ∷ states) (f ∷ failures) zero = omega arith
total_left-complete bound (state ∷ states) (f ∷ failures) (suc i) =
    omega (arith, total_left-complete bound states failures i)

total_left-fail :
    (bound : ℕ) (states : List PieceState) (failures : List ℕ) (i : ℕ)
    → bound ≤ 255
    → get_elem? states i ≡ some in_flight
    → total_left bound (set states i missing) (set failures i (one_more (get_or failures i 0)))
      ≤ total_left bound states failures
unfolding total_left
total_left-fail bound [] failures i b h = cc
total_left-fail bound (state ∷ states) [] zero b h = omega arith
total_left-fail bound (state ∷ states) [] (suc i) b h = omega arith
total_left-fail bound (missing ∷ states) (f ∷ failures) zero b h = cc
total_left-fail bound (in_flight ∷ states) (f ∷ failures) zero b h = ground arith
total_left-fail bound (PieceState.complete ∷ states) (f ∷ failures) zero b h = cc
total_left-fail bound (state ∷ states) (f ∷ failures) (suc i) b h =
    omega (arith, total_left-fail bound states failures i b h)

pub eligible_parts :
    (bitfield : Bytes) (s : PieceScheduler) (index : ℕ)
    → eligible bitfield s index ≡ true
    → (is_missing (get_elem? s.states index) ≡ true)
      × (below (get_elem? s.failures index) s.max_failures ≡ true)
unfolding eligible
eligible_parts bitfield s index h = ground arith

claim-remaining :
    (bitfield : Bytes) (s : PieceScheduler) (candidate : Option ℕ)
    → Chosen bitfield s 0 (length s.states) candidate
    → granted (ok candidate) + remaining (claim s candidate) ≤ remaining s
unfolding remaining
claim-remaining bitfield s none c = omega arith
claim-remaining bitfield s (some index) (_, _, e, _) =
    let (m, b) = eligible_parts bitfield s index e in
    omega (arith, total_left-claim s.max_failures s.states s.failures index m b)

next-remaining :
    (bitfield : Bytes) (s : PieceScheduler)
    → granted (claim_next bitfield s).1 + remaining (claim_next bitfield s).0 ≤ remaining s
unfolding claim_next
next-remaining bitfield s =
    elim (Bool-cases (length bitfield == bitfield_length (length s.states))) [
      | inl e ↦ rw e (claim-remaining bitfield s _ (best-Chosen bitfield s 0 (length s.states)))
      | inr e ↦ rw e (omega arith)
    ]

complete_at-remaining :
    (s : PieceScheduler) (index : ℕ) (found : Option PieceState)
    → remaining (complete_at s index found).0 ≤ remaining s
unfolding complete_at remaining
complete_at-remaining s index none = omega arith
complete_at-remaining s index (some missing) = omega arith
complete_at-remaining s index (some in_flight) =
    total_left-complete s.max_failures s.states s.failures index
complete_at-remaining s index (some PieceState.complete) = omega arith

fail_at-remaining :
    (s : PieceScheduler) (index : ℕ) (found : Option PieceState)
    → s.max_failures ≤ 255
    → get_elem? s.states index ≡ found
    → remaining (fail_at s index found).0 ≤ remaining s
unfolding fail_at remaining
fail_at-remaining s index none b h = omega arith
fail_at-remaining s index (some missing) b h = omega arith
fail_at-remaining s index (some in_flight) b h =
    total_left-fail s.max_failures s.states s.failures index b h
fail_at-remaining s index (some PieceState.complete) b h = omega arith

-- A call uses up the attempts that it grants.
perform-remaining :
    (call : Call) (s : PieceScheduler)
    → s.max_failures ≤ 255
    → grants call s + remaining (perform call s) ≤ remaining s
unfolding perform grants
perform-remaining (observe bitfield) s b = unfold observe_bitfield remaining in ground arith
perform-remaining (next bitfield) s b = next-remaining bitfield s
perform-remaining (report_complete index) s b =
    unfold complete_piece in omega (arith, complete_at-remaining s index (get_elem? s.states index))
perform-remaining (report_failed index) s b =
    unfold fail in omega (arith, fail_at-remaining s index (get_elem? s.states index) b refl)
perform-remaining (prioritize metadata start end priority) s b =
    unfold prioritize_byte_range remaining in ground arith
perform-remaining clear s b = unfold clear_priorities remaining in omega arith

fail_at-max_failures :
    (s : PieceScheduler) (index : ℕ) (found : Option PieceState)
    → ((fail_at s index found).0.max_failures ≡ s.max_failures)
      × ((complete_at s index found).0.max_failures ≡ s.max_failures)
unfolding fail_at complete_at
fail_at-max_failures s index none = (refl, refl)
fail_at-max_failures s index (some missing) = (refl, refl)
fail_at-max_failures s index (some in_flight) = (refl, refl)
fail_at-max_failures s index (some PieceState.complete) = (refl, refl)

claim-max_failures :
    (s : PieceScheduler) (candidate : Option ℕ) → (claim s candidate).max_failures ≡ s.max_failures
claim-max_failures s none = refl
claim-max_failures s (some index) = refl

next-max_failures :
    (bitfield : Bytes) (s : PieceScheduler)
    → (claim_next bitfield s).0.max_failures ≡ s.max_failures
unfolding claim_next
next-max_failures bitfield s =
    elim (Bool-cases (length bitfield == bitfield_length (length s.states))) [
      | inl e ↦ rw e (claim-max_failures s (best bitfield s 0 (length s.states)))
      | inr e ↦ rw e refl
    ]

perform-max_failures :
    (call : Call) (s : PieceScheduler) → (perform call s).max_failures ≡ s.max_failures
unfolding perform
perform-max_failures (observe bitfield) s = unfold observe_bitfield in ground arith
perform-max_failures (next bitfield) s = next-max_failures bitfield s
perform-max_failures (report_complete index) s =
    unfold complete_piece in (fail_at-max_failures s index (get_elem? s.states index)).1
perform-max_failures (report_failed index) s =
    unfold fail in (fail_at-max_failures s index (get_elem? s.states index)).0
perform-max_failures (prioritize metadata start end priority) s =
    unfold prioritize_byte_range in ground arith
perform-max_failures clear s = unfold clear_priorities in refl

claims-le :
    (calls : List Call) (s : PieceScheduler) → s.max_failures ≤ 255 → claims calls s ≤ remaining s
unfolding claims
claims-le [] s b = omega arith
claims-le (call ∷ calls) s b =
    let b' : (perform call s).max_failures ≤ 255 = rw (perform-max_failures call s) b in
    omega (arith, perform-remaining call s b, claims-le calls (perform call s) b')

total_left-replicate :
    (bound count : ℕ)
    → total_left bound (replicate count missing) (replicate count 0) ≡ count * bound
unfolding total_left
total_left-replicate bound zero = omega arith
total_left-replicate bound (suc count) = grind (arith, total_left-replicate bound count)

pub new_ok :
    (piece_count max_failures : ℕ) (s : PieceScheduler)
    → new piece_count max_failures ≡ ok s
    → fresh piece_count max_failures ≡ s
unfolding new
new_ok piece_count max_failures s h = ground arith

claims-fresh :
    (piece_count max_failures : ℕ) (calls : List Call)
    → max_failures ≤ 255
    → claims calls (fresh piece_count max_failures) ≤ piece_count * max_failures
unfolding remaining
claims-fresh piece_count max_failures calls b = omega (
  arith,
  claims-le calls (fresh piece_count max_failures) b,
  total_left-replicate max_failures piece_count,
)

-- From a new scheduler, no sequence of calls hands out pieces more often than the number of pieces
-- times the number of failures allowed for one.
pub claims_bounded :
    (piece_count max_failures : ℕ) (s : PieceScheduler) (calls : List Call)
    → max_failures ≤ 255
    → new piece_count max_failures ≡ ok s
    → claims calls s ≤ piece_count * max_failures
claims_bounded piece_count max_failures s calls b h =
    subst (λ t. claims calls t ≤ piece_count * max_failures) (new_ok piece_count max_failures s h)
      (claims-fresh piece_count max_failures calls b)
