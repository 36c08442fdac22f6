-- ===== src/Peer/Scheduler/Claiming.antt =====
-- src/p2p_network.rs: which piece `claim_next` takes.
use video_proxy_server.Prelude.{
  ℕ, zero, suc, ◌+◌, ◌≤◌, ◌<◌, ◌≡◌, ◌≢◌, ==_iff, refl, sym, ◌∙◌, ◌⊎◌, inl, inr, true, false, Option,
  none, some, ◌==◌, length, arith, Bool-cases,
}
use video_proxy_server.Error.{ok, err, malformed}
use video_proxy_server.Storage.Disk.File.{Bytes}
use video_proxy_server.Peer.Scheduler.{
  PieceScheduler, Key, key, key_lt, eligible, better, best, claim, claim_next, bitfield_length,
}

true_ne_false : true ≡ false → ⊥
true_ne_false h = cc

key_lt_asym : (a b : Key) → key_lt a b ≡ true → key_lt b a ≡ false
unfolding key_lt
key_lt_asym a b h = ground arith

key_lt_trans : (a b c : Key) → key_lt a b ≡ false → key_lt b c ≡ false → key_lt a c ≡ false
unfolding key_lt
key_lt_trans a b c h k = ground arith

-- No eligible piece of a span has a smaller key.
abbrev pub IsLeast : Bytes → PieceScheduler → ℕ → ℕ → ℕ → Type 0
IsLeast bitfield s from count index =
    (j : ℕ)
    → from ≤ j
    → j < from + count
    → eligible bitfield s j ≡ true
    → key_lt (key s j) (key s index) ≡ false

-- What the choice from a span is.
abbrev pub Chosen : Bytes → PieceScheduler → ℕ → ℕ → Option ℕ → Type 0
Chosen bitfield s from count none =
    (j : ℕ) → from ≤ j → j < from + count → eligible bitfield s j ≡ false
Chosen bitfield s from count (some index) =
    (from ≤ index)
    × (index < from + count)
    × (eligible bitfield s index ≡ true)
    × IsLeast bitfield s from count index

key_lt_irrefl : (a : Key) → key_lt a a ≡ false
unfolding key_lt
key_lt_irrefl a = ground arith

at_or_after : (from j : ℕ) → from ≤ j → (from ≡ j) ⊎ (suc from ≤ j)
at_or_after from j h = ground arith

module _ (bitfield : Bytes) (s : PieceScheduler) where
  not_eligible {ℓ} :
      {P : Type ℓ} (j : ℕ) → eligible bitfield s j ≡ false → eligible bitfield s j ≡ true → P
  not_eligible j h k = absurd (true_ne_false (sym k ∙ h))

  skip :
      (from count : ℕ) (later : Option ℕ)
      → eligible bitfield s from ≡ false
      → Chosen bitfield s (suc from) count later
      → Chosen bitfield s from (suc count) later
  skip from count none out c =
      λ j hj hk. elim (at_or_after from j hj) [ inl e ↦ rw (← e) out | inr h ↦ c j h (omega arith) ]
  skip from count (some index) out (lo, hi, e, least) = (
    omega arith,
    omega arith,
    e,
    λ j hj hk he. elim (at_or_after from j hj) [
      | inl e' ↦ not_eligible j (rw (← e') out) he
      | inr h ↦ least j h (omega arith) he
    ],
  )

  -- The first index stays, or a later one is smaller.
  keep_first :
      (from count : ℕ) (index : ℕ)
      → eligible bitfield s from ≡ true
      → key_lt (key s index) (key s from) ≡ false
      → IsLeast bitfield s (suc from) count index
      → IsLeast bitfield s from (suc count) from
  keep_first from count index e h least j hj hk he = elim (at_or_after from j hj) [
    | inl e' ↦ rw (← e') (key_lt_irrefl (key s from))
    | inr k ↦ key_lt_trans (key s j) (key s index) (key s from) (least j k (omega arith) he) h
  ]

  take_later :
      (from count : ℕ) (index : ℕ)
      → key_lt (key s index) (key s from) ≡ true
      → IsLeast bitfield s (suc from) count index
      → IsLeast bitfield s from (suc count) index
  take_later from count index h least j hj hk he = elim (at_or_after from j hj) [
    | inl e' ↦ rw (← e') (key_lt_asym (key s index) (key s from) h)
    | inr k ↦ least j k (omega arith) he
  ]

  take_first :
      (from count : ℕ) (later : Option ℕ)
      → eligible bitfield s from ≡ true
      → Chosen bitfield s (suc from) count later
      → Chosen bitfield s from (suc count) (some (better s from later))
  take_first from count none e c = (
    omega arith,
    omega arith,
    e,
    λ j hj hk he. elim (at_or_after from j hj) [
      | inl e' ↦ rw (← e') (key_lt_irrefl (key s from))
      | inr k ↦ not_eligible j (c j k (omega arith)) he
    ],
  )
  take_first from count (some index) e (lo, hi, e', least) =
      elim (Bool-cases (key_lt (key s index) (key s from))) [
        | inl h ↦ rw h (omega arith, omega arith, e', take_later from count index h least)
        | inr h ↦ rw h (omega arith, omega arith, e, keep_first from count index e h least)
      ]

  pub best-Chosen : (from count : ℕ) → Chosen bitfield s from count (best bitfield s from count)
  unfolding best
  best-Chosen from zero = λ j h k. absurd (omega arith)
  best-Chosen from (suc count) = elim (Bool-cases (eligible bitfield s from)) [
    | inl e ↦ rw e (take_first from count _ e (best-Chosen (suc from) count))
    | inr e ↦ rw e (skip from count _ e (best-Chosen (suc from) count))
  ]

-- What a claim does, in terms of the test and the key of `claim_next`.
pub claim_next-Chosen :
    (bitfield : Bytes) (s : PieceScheduler)
    → ((length bitfield ≡ bitfield_length (length s.states))
        × ((candidate : Option ℕ) × (claim_next bitfield s ≡ (claim s candidate, ok candidate))
            × Chosen bitfield s 0 (length s.states) candidate))
      ⊎ ((length bitfield ≢ bitfield_length (length s.states))
          × (claim_next bitfield s ≡ (s, err (malformed "peer bitfield length mismatch"))))
unfolding claim_next
claim_next-Chosen bitfield s =
    elim (Bool-cases (length bitfield == bitfield_length (length s.states))) [
      | inl e ↦ inl (
        (==_iff _ _).0 e,
        (
          best bitfield s 0 (length s.states),
          rw e refl,
          best-Chosen bitfield s 0 (length s.states),
        ),
      )
      | inr e ↦ inr (ground arith, rw e refl)
    ]
