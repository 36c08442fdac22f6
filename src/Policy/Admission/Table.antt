-- ===== src/Policy/Admission/Table.antt =====
-- src/utils/network_policy.rs: what holds of every entry of the admission table goes on holding.
use video_proxy_server.Prelude.{
  ℕ, ◌≡◌, subst, inl, inr, ◌&&◌, not, some, [], ◌∷◌, All, leb, length, Bool-cases,
}
use video_proxy_server.Map.{
  nat_eq, list_eq, list_beq_iff, ◌=?◌, lookup, insert, remove, contains_key,
}
use video_proxy_server.Strings.{Text}
use video_proxy_server.Policy.Admission.{
  Admitted, NetworkPolicy, Moment, max_admission_entries, is_recent, retain_recent, drop_any,
  make_room, remember_admission,
}

some_eq : {x y : ℕ} → some x ≡ some y → x ≡ y
some_eq h = cc

module _ {ℓ} (P : Text × ℕ → Type ℓ) where
  All-retain : (now : ℕ) (admitted : Admitted) → All P admitted → All P (retain_recent now admitted)
  unfolding retain_recent
  All-retain now [] h = tt
  All-retain now ((target, at) ∷ admitted) (p, h) = elim (Bool-cases (is_recent now at)) [
    | inl e ↦ rw e (p, All-retain now admitted h)
    | inr e ↦ rw e (All-retain now admitted h)
  ]

  All-remove : (k : Text) (admitted : Admitted) → All P admitted → All P (remove k admitted)
  unfolding remove
  All-remove k [] h = tt
  All-remove k ((target, at) ∷ admitted) (p, h) = elim (Bool-cases (target =? k)) [
    | inl e ↦ rw e (All-remove k admitted h)
    | inr e ↦ rw e (p, All-remove k admitted h)
  ]

  All-insert :
      (k : Text) (v : ℕ) (admitted : Admitted)
      → P (k, v)
      → All P admitted
      → All P (insert k v admitted)
  unfolding insert
  All-insert k v [] p h = (p, tt)
  All-insert k v ((target, at) ∷ admitted) p (q, h) = elim (Bool-cases (target =? k)) [
    | inl e ↦ rw e (p, h)
    | inr e ↦ rw e (q, All-insert k v admitted p h)
  ]

  pub All-lookup :
      (k : Text) (v : ℕ) (admitted : Admitted)
      → All P admitted
      → lookup k admitted ≡ some v
      → P (k, v)
  unfolding lookup
  All-lookup k v [] h e = cc
  All-lookup k v ((target, at) ∷ admitted) (p, h) e = elim (Bool-cases (target =? k)) [
    | inl same ↦
        let e₁ : target ≡ k = (list_beq_iff target k).0 same in
        let e₂ : at ≡ v = some_eq (rw same at e) in subst P (λ i. (e₁ i, e₂ i)) p
    | inr other ↦ All-lookup k v admitted h (rw other at e)
  ]

  All-drop_any :
      (victim : ℕ) (admitted : Admitted) → All P admitted → All P (drop_any victim admitted)
  unfolding drop_any
  All-drop_any victim [] h = tt
  All-drop_any victim (entry ∷ admitted) h = All-remove _ (entry ∷ admitted) h

  All-make_room :
      (m : Moment) (target : Text) (admitted : Admitted)
      → All P admitted
      → All P (make_room m target admitted)
  unfolding make_room
  All-make_room m target admitted h =
      let kept = retain_recent m.later admitted in
      let hk = All-retain m.later admitted h in
      elim (Bool-cases
        (leb max_admission_entries (length admitted) && not (contains_key target admitted))) [
          | inr few ↦ rw few h
          | inl full ↦ rw full (elim (Bool-cases (leb max_admission_entries (length kept))) [
            | inl still ↦ rw still (All-drop_any m.victim kept hk)
            | inr room ↦ rw room hk
          ])
        ]

  pub All-remember :
      (m : Moment) (target : Text) (policy : NetworkPolicy)
      → P (target, m.later)
      → All P policy.admitted
      → All P (remember_admission m target policy).admitted
  unfolding remember_admission make_room
  All-remember m target policy p h = elim (Bool-cases m.poisoned) [
    | inl e ↦ rw e h
    | inr e ↦ rw e (All-insert target m.later _ p (All-make_room m target policy.admitted h))
  ]
