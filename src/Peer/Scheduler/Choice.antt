-- ===== src/Peer/Scheduler/Choice.antt =====
-- src/p2p_network.rs: which piece `claim_next` takes, in terms of the vectors of the scheduler.
use video_proxy_server.Prelude.{
  both_true, ℕ, zero, suc, ◌-◌, ◌/◌, ◌%◌, ◌^◌, ◌≤◌, ◌<◌, ◌≡◌, ◌≢◌, ◌⊎◌, refl, sym, ap, ◌∙◌, subst,
  inl, inr, true, false, Option, none, some, List, [], ◌∷◌, All, ==_iff, length, get_elem?,
  get_elem?-lt, arith,
}
use video_proxy_server.Error.{Result, ok, err, malformed}
use video_proxy_server.Storage.Disk.File.{Bytes}
use video_proxy_server.Peer.Scheduler.{
  PieceState, missing, in_flight, PieceScheduler, byte_bit, has_piece, is_missing, below, eligible,
  get_or, key, key_lt, set, claim, claim_next, bitfield_length,
}
use video_proxy_server.Peer.Scheduler.Claiming.{Chosen, claim_next-Chosen}

-- The peer has the piece, nobody fetches it or has it, and it may fail once more.
pub record IsOpen (bitfield : Bytes) (s : PieceScheduler) (index : ℕ) : Type 0 where
  pub byte : ℕ
  pub failed : ℕ
  pub found : get_elem? bitfield (index / 8) ≡ some byte
  pub offered : byte / 2 ^ (7 - index % 8) % 2 ≡ 1
  pub wanted : get_elem? s.states index ≡ some missing
  pub counted : get_elem? s.failures index ≡ some failed
  pub allowed : failed < s.max_failures

-- The order in which pieces are taken: higher priorities first, then rarer pieces, then those that
-- failed less often, then those further in front.
abbrev pub Before : PieceScheduler → ℕ → ℕ → Type 0
Before s i j =
    (get_or s.priorities j 0 < get_or s.priorities i 0)
    ⊎ (get_or s.priorities i 0 ≡ get_or s.priorities j 0)
      × ((get_or s.availability i 0 < get_or s.availability j 0)
          ⊎ (get_or s.availability i 0 ≡ get_or s.availability j 0)
            × ((get_or s.failures i 0 < get_or s.failures j 0)
                ⊎ (get_or s.failures i 0 ≡ get_or s.failures j 0) × (i < j)))

-- One piece is in flight, and nothing else differs.
pub record TakenBy (index : ℕ) (s t : PieceScheduler) : Type 0 where
  pub taken : get_elem? t.states index ≡ some in_flight
  pub others : (j : ℕ) → j ≢ index → get_elem? t.states j ≡ get_elem? s.states j
  pub availability : t.availability ≡ s.availability
  pub failures : t.failures ≡ s.failures
  pub max_failures : t.max_failures ≡ s.max_failures
  pub priorities : t.priorities ≡ s.priorities

abbrev pub IsChoice : Bytes → PieceScheduler → PieceScheduler × Result (Option ℕ) → Type 0
IsChoice bitfield s (t, outcome) =
    ((index : ℕ) × (outcome ≡ ok (some index))
      × IsOpen bitfield s index
      × ((j : ℕ) → IsOpen bitfield s j → j ≢ index → Before s index j)
      × TakenBy index s t)
    ⊎ (outcome ≡ ok none) × (t ≡ s) × ((j : ℕ) → IsOpen bitfield s j → ⊥)

get_elem?-set {ℓ} :
    {A : Type ℓ} (xs : List A) (i : ℕ) (v : A) → i < length xs → get_elem? (set xs i v) i ≡ some v
get_elem?-set [] i v h = absurd (omega arith)
get_elem?-set (x ∷ xs) zero v h = refl
get_elem?-set (x ∷ xs) (suc i) v h = get_elem?-set xs i v (omega arith)

get_elem?-set_other {ℓ} :
    {A : Type ℓ} (xs : List A) (i j : ℕ) (v : A) → j ≢ i → get_elem? (set xs i v) j ≡ get_elem? xs j
get_elem?-set_other [] i j v h = refl
get_elem?-set_other (x ∷ xs) zero zero v h = absurd (h refl)
get_elem?-set_other (x ∷ xs) zero (suc j) v h = refl
get_elem?-set_other (x ∷ xs) (suc i) zero v h = refl
get_elem?-set_other (x ∷ xs) (suc i) (suc j) v h = get_elem?-set_other xs i j v (λ e. h (ap suc e))

get_or-bounded : (xs : List ℕ) (i n : ℕ) → All (λ x. x ≤ n) xs → get_or xs i 0 ≤ n
get_or-bounded [] i n h = omega arith
get_or-bounded (x ∷ xs) zero n (h, _) = h
get_or-bounded (x ∷ xs) (suc i) n (_, h) = get_or-bounded xs i n h

true_ne_false : true ≡ false → ⊥
true_ne_false h = cc

byte_of :
    (found : Option ℕ) (bit : ℕ)
    → byte_bit found bit ≡ true
    → (byte : ℕ) × (found ≡ some byte) × (byte / 2 ^ (7 - bit) % 2 ≡ 1)
byte_of none bit h = cc
byte_of (some byte) bit h = (byte, refl, (==_iff _ _).0 h)

missing_of : (state : Option PieceState) → is_missing state ≡ true → state ≡ some missing
missing_of (some missing) h = refl
missing_of (some in_flight) h = cc
missing_of (some PieceState.complete) h = cc
missing_of none h = cc

failed_of :
    (found : Option ℕ) (bound : ℕ)
    → below found bound ≡ true
    → (failed : ℕ) × (found ≡ some failed) × (failed < bound)
failed_of none bound h = cc
failed_of (some failed) bound h = (failed, refl, ground arith)

lexicographic :
    (p q a b f g i j : ℕ)
    → p ≤ 255
    → q ≤ 255
    → key_lt
        (record { urgency = 255 - q; peers = b; failed = g; position = j })
        (record { urgency = 255 - p; peers = a; failed = f; position = i })
      ≡ false
    → j ≢ i
    → (q < p) ⊎ (p ≡ q) × ((a < b) ⊎ (a ≡ b) × ((f < g) ⊎ (f ≡ g) × (i < j)))
unfolding key_lt
lexicographic p q a b f g i j hp hq e ne = ground arith

module _ (bitfield : Bytes) (s : PieceScheduler) where
  eligible-IsOpen : (index : ℕ) → eligible bitfield s index ≡ true → IsOpen bitfield s index
  unfolding eligible has_piece
  eligible-IsOpen index h =
      let (has, rest) = both_true _ _ h in
      let (is_there, less) = both_true _ _ rest in
      let (byte, found, bit) = byte_of (get_elem? bitfield (index / 8)) (index % 8) has in
      let (failed, counted, allowed) = failed_of (get_elem? s.failures index) s.max_failures less in
      record {
        byte = byte;
        failed = failed;
        found = found;
        offered = bit;
        wanted = missing_of (get_elem? s.states index) is_there;
        counted = counted;
        allowed = allowed;
      }

  open-eligible : (index : ℕ) → IsOpen bitfield s index → eligible bitfield s index ≡ true
  unfolding eligible has_piece
  open-eligible index o = rw (o.found, o.wanted, o.counted) (ground (arith, o.offered, o.allowed))

  key_order :
      (i j : ℕ)
      → All (λ p. p ≤ 255) s.priorities
      → key_lt (key s j) (key s i) ≡ false
      → j ≢ i
      → Before s i j
  unfolding key_lt key
  key_order i j h e ne =
      let hi = get_or-bounded s.priorities i 255 h in
      let hj = get_or-bounded s.priorities j 255 h in
      lexicographic (get_or s.priorities i 0) (get_or s.priorities j 0) (get_or s.availability i 0)
        (get_or s.availability j 0) (get_or s.failures i 0) (get_or s.failures j 0) i j hi hj e ne

  open_lt : (j : ℕ) → IsOpen bitfield s j → j < length s.states
  open_lt j o = get_elem?-lt j s.states missing o.wanted

  chosen-IsChoice :
      (candidate : Option ℕ)
      → All (λ p. p ≤ 255) s.priorities
      → Chosen bitfield s 0 (length s.states) candidate
      → IsChoice bitfield s (claim s candidate, ok candidate)
  chosen-IsChoice none h c = inr (
    refl,
    refl,
    λ j o.
        let shut = c j (omega arith) (omega (arith, open_lt j o)) in
        true_ne_false (sym (open-eligible j o) ∙ shut),
  )
  chosen-IsChoice (some index) h (lo, hi, e, least) = inl (
    index,
    refl,
    eligible-IsOpen index e,
    λ j o ne.
        key_order index j h (least j (omega arith) (omega (arith, open_lt j o)) (open-eligible j o))
          ne,
    record {
      taken = get_elem?-set s.states index in_flight (omega (arith, hi));
      others = λ j ne. get_elem?-set_other s.states index j in_flight ne;
      availability = refl;
      failures = refl;
      max_failures = refl;
      priorities = refl;
    },
  )

-- When the priorities are bytes, a claim with a bitfield of the right length takes the open piece
-- (the peer has it, it is missing and has failed less often than allowed) that comes before every
-- other open one, and puts it in flight, which is all that changes; or no piece is open, and nothing
-- changes. A bitfield of another length is an error that changes nothing.
pub claim_next-IsChoice :
    (bitfield : Bytes) (s : PieceScheduler)
    → All (λ p. p ≤ 255) s.priorities
    → ((length bitfield ≡ bitfield_length (length s.states))
        × IsChoice bitfield s (claim_next bitfield s))
      ⊎ ((length bitfield ≢ bitfield_length (length s.states))
          × (claim_next bitfield s ≡ (s, err (malformed "peer bitfield length mismatch"))))
claim_next-IsChoice bitfield s h = elim (claim_next-Chosen bitfield s) [
  | inl (size, (candidate, e, c)) ↦
      inl (size, subst (IsChoice bitfield s) (sym e) (chosen-IsChoice bitfield s candidate h c))
  | inr wrong ↦ inr wrong
]
