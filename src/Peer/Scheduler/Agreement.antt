-- ===== src/Peer/Scheduler/Agreement.antt =====
-- src/p2p_network.rs: the states of the pieces agree with the counts of their failures.
use video_proxy_server.Prelude.{
  ℕ, zero, suc, ◌≤◌, ◌<◌, ◌≡◌, refl, true, some, List, [], ◌∷◌, length, arith, get_elem?,
}
use video_proxy_server.Storage.Disk.File.{Bytes}
use video_proxy_server.Peer.Scheduler.{
  PieceState, PieceScheduler, missing, in_flight, set, count_peer, raise, clear as wipe, one_more,
  get_or, below,
}

-- The failures of a piece by its state.
abbrev pub InState : ℕ → PieceState → ℕ → Type 0
InState bound missing failed = failed ≤ bound
InState bound in_flight failed = failed < bound
InState bound PieceState.complete failed = failed < bound

abbrev pub Agree : ℕ → List PieceState → List ℕ → Type 0
Agree bound [] [] = Unit
Agree bound (state ∷ states) (f ∷ failures) = InState bound state f × Agree bound states failures
Agree bound _ _ = ⊥

-- The vectors have one length, no piece has failed more often than allowed, and one that is in
-- flight or complete has failed less often.
pub record IsValid (count : ℕ) (s : PieceScheduler) : Type 0 where
  pub pieces : length s.states ≡ count
  pub counted : length s.availability ≡ count
  pub ranked : length s.priorities ≡ count
  pub bounded : s.max_failures ≤ 255
  pub agree : Agree s.max_failures s.states s.failures

pub length-set {ℓ} : {A : Type ℓ} (xs : List A) (i : ℕ) (v : A) → length (set xs i v) ≡ length xs
length-set [] i v = refl
length-set (x ∷ xs) zero v = refl
length-set (x ∷ xs) (suc i) v = omega (arith, length-set xs i v)

pub length-count_peer :
    (bits : Bytes) (i : ℕ) (xs : List ℕ) → length (count_peer bits i xs) ≡ length xs
unfolding count_peer
length-count_peer bits i [] = refl
length-count_peer bits i (x ∷ xs) = omega (arith, length-count_peer bits (suc i) xs)

pub length-clear : (xs : List ℕ) → length (wipe xs) ≡ length xs
unfolding wipe
length-clear [] = refl
length-clear (x ∷ xs) = omega (arith, length-clear xs)

pub length-raise :
    (first last priority i : ℕ) (xs : List ℕ) → length (raise first last priority i xs) ≡ length xs
unfolding raise
length-raise first last priority i [] = refl
length-raise first last priority i (x ∷ xs) =
    omega (arith, length-raise first last priority (suc i) xs)

pub Agree-claim :
    (bound : ℕ) (states : List PieceState) (failures : List ℕ) (i : ℕ)
    → below (get_elem? failures i) bound ≡ true
    → Agree bound states failures
    → Agree bound (set states i in_flight) failures
Agree-claim bound [] failures i h a = a
Agree-claim bound (state ∷ states) [] i h a = cc
Agree-claim bound (state ∷ states) (f ∷ failures) zero h (_, a) = (ground arith, a)
Agree-claim bound (state ∷ states) (f ∷ failures) (suc i) h (p, a) =
    (p, Agree-claim bound states failures i h a)

pub Agree-complete :
    (bound : ℕ) (states : List PieceState) (failures : List ℕ) (i : ℕ)
    → get_elem? states i ≡ some in_flight
    → Agree bound states failures
    → Agree bound (set states i PieceState.complete) failures
Agree-complete bound [] failures i h a = a
Agree-complete bound (state ∷ states) [] i h a = absurd a
Agree-complete bound (missing ∷ states) (f ∷ failures) zero h (p, a) = cc
Agree-complete bound (in_flight ∷ states) (f ∷ failures) zero h (p, a) = (p, a)
Agree-complete bound (PieceState.complete ∷ states) (f ∷ failures) zero h (p, a) = (p, a)
Agree-complete bound (state ∷ states) (f ∷ failures) (suc i) h (p, a) =
    (p, Agree-complete bound states failures i h a)

pub Agree-fail :
    (bound : ℕ) (states : List PieceState) (failures : List ℕ) (i : ℕ)
    → get_elem? states i ≡ some in_flight
    → Agree bound states failures
    → Agree bound (set states i missing) (set failures i (one_more (get_or failures i 0)))
Agree-fail bound [] failures i h a = cc
Agree-fail bound (state ∷ states) [] i h a = absurd a
Agree-fail bound (missing ∷ states) (f ∷ failures) zero h (p, a) = cc
Agree-fail bound (in_flight ∷ states) (f ∷ failures) zero h (p, a) = (omega arith, a)
Agree-fail bound (PieceState.complete ∷ states) (f ∷ failures) zero h (p, a) = cc
Agree-fail bound (state ∷ states) (f ∷ failures) (suc i) h (p, a) =
    (p, Agree-fail bound states failures i h a)

-- New states and failures for a valid scheduler.
pub with_states :
    (count : ℕ) (s : PieceScheduler) (states : List PieceState) (failures : List ℕ)
    → IsValid count s
    → length states ≡ count
    → Agree s.max_failures states failures
    → IsValid count (record s { failures = failures; states = states })
with_states count s states failures v l a = record {
  pieces = l;
  counted = v.counted;
  ranked = v.ranked;
  bounded = v.bounded;
  agree = a;
}
