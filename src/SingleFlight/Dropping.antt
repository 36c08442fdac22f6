-- ===== src/SingleFlight/Dropping.antt =====
-- src/handlers/single_flight.rs: the two halves of `drop` keep the table consistent.
use video_proxy_server.Prelude.{
  ℕ, ◌<◌, ◌≡◌, refl, sym, ap, subst, ◌∙◌, ◌⊎◌, inl, inr, Bool, true, false, ◌&&◌, not, some, List,
  arith, ◌==◌, ==_iff, if◌then◌else◌, Bool-cases,
}
use video_proxy_server.Map.{◌=?◌, lookup, remove, lookup-remove}
use video_proxy_server.SingleFlight.{
  Key, held, unregistered, finished, LeaderGuard, SingleFlight, key_eq, put, unregister, broadcast,
}
use video_proxy_server.SingleFlight.Joining.{
  IsConsistent, Leads, none_ne, put-cases, some_eq, true_ne,
}

-- A guard that changes its phase.
changed-fresh :
    (s : SingleFlight) (id : ℕ) (guard fresh_guard : LeaderGuard)
    → IsConsistent s
    → s.guards id ≡ some guard
    → (i : ℕ) (g : LeaderGuard) → put id (some fresh_guard) s.guards i ≡ some g
    → i < s.next
changed-fresh s id guard fresh_guard c e i g h = elim (put-cases id (some fresh_guard) s.guards i) [
  | inl (same, _) ↦ let lt = c.fresh id guard e in omega (arith, lt, same)
  | inr (_, old) ↦ c.fresh i g (sym old ∙ h)
]

-- A guard of another number still leads.
Leads-other :
    (s t : SingleFlight) (id : ℕ) (fresh_guard : LeaderGuard) (i : ℕ) (key : Key)
    → ((j : ℕ) → t.guards j ≡ put id (some fresh_guard) s.guards j)
    → (i == id) ≡ false
    → Leads s i key
    → Leads t i key
Leads-other s t id fresh_guard i key same other (g, e, k, h, r) = (g, same i ∙ rw other e, k, h, r)

held-unregistered : held ≡ unregistered → ⊥
held-unregistered h = cc

unregistered-held : unregistered ≡ held → ⊥
unregistered-held h = cc

finished-held : finished ≡ held → ⊥
finished-held h = cc

-- The guard of a leader.
the_leader :
    (s : SingleFlight) (i id : ℕ) (key : Key) (guard : LeaderGuard)
    → s.guards id ≡ some guard
    → i ≡ id
    → Leads s i key
    → (guard.key ≡ key) × (guard.phase ≡ held) × (guard.registered ≡ true)
the_leader s i id key guard e same (g, e', k, h, r) =
    let g_is : g ≡ guard = some_eq (sym e' ∙ ap s.guards same ∙ e) in
    subst (λ g. (g.key ≡ key) × (g.phase ≡ held) × (g.registered ≡ true)) g_is (k, h, r)

pub broadcast-IsConsistent :
    (id : ℕ) (guard : LeaderGuard) (s : SingleFlight)
    → s.guards id ≡ some guard
    → guard.phase ≡ unregistered
    → IsConsistent s
    → IsConsistent (broadcast id guard s)
unfolding broadcast
broadcast-IsConsistent id guard s e ph c = record {
  listed = λ p key i h. elim (Bool-cases (i == id)) [
    | inl same ↦
        let leads = the_leader s i id key guard e ((==_iff i id).0 same) (c.listed p key i h) in
        absurd (held-unregistered (sym leads.1 ∙ ph))
    | inr other ↦
        Leads-other s (broadcast id guard s) id (record guard { phase = finished }) i key
          (λ j. refl) other (c.listed p key i h)
  ];
  leads = λ p i g h r hd.
      elim (put-cases id (some (record guard { phase = finished })) s.guards i) [
        | inl (same, new_one) ↦
            absurd (finished-held (ap (λ g. g.phase) (some_eq (sym new_one ∙ h)) ∙ hd))
        | inr (_, old) ↦ c.leads p i g (sym old ∙ h) r hd
      ];
  fresh = changed-fresh s id guard (record guard { phase = finished }) c e;
}

-- What `drop` does to the table while the lock is sound.
unregistered_lookup :
    (registered poisoned : Bool) (k key : Key) (m : List (Key × ℕ)) (i : ℕ)
    → poisoned ≡ false
    → lookup key (if registered && not poisoned then remove k m else m) ≡ some i
    → (lookup key m ≡ some i) × ((registered ≡ false) ⊎ ((k =? key) ≡ false))
unregistered_lookup true true k key m i p h = absurd (true_ne p)
unregistered_lookup false poisoned k key m i p h = (h, inl refl)
unregistered_lookup true false k key m i p h =
    let removed = sym (lookup-remove k key m) ∙ h in
    elim (Bool-cases (k =? key)) [
      | inl same ↦ absurd (none_ne (rw same at removed))
      | inr other ↦ (rw other at removed, inr other)
    ]

kept_lookup :
    (registered poisoned : Bool) (k key : Key) (m : List (Key × ℕ)) (i : ℕ)
    → (registered ≡ false) ⊎ ((k =? key) ≡ false)
    → lookup key m ≡ some i
    → lookup key (if registered && not poisoned then remove k m else m) ≡ some i
kept_lookup true true k key m i o h = h
kept_lookup false poisoned k key m i o h = h
kept_lookup true false k key m i (inl no') h = absurd (true_ne no')
kept_lookup true false k key m i (inr other) h = lookup-remove k key m ∙ rw other h

-- Two registered leaders of one key are the same guard.
apart_from :
    (s : SingleFlight) (id i : ℕ) (guard g : LeaderGuard)
    → IsConsistent s
    → s.poisoned ≡ false
    → s.guards id ≡ some guard
    → guard.phase ≡ held
    → (i == id) ≡ false
    → lookup g.key s.in_flight ≡ some i
    → (guard.registered ≡ false) ⊎ ((guard.key =? g.key) ≡ false)
apart_from s id i guard g c p e ph other known = elim (Bool-cases guard.registered) [
  | inr no' ↦ inl no'
  | inl yes' ↦ elim (Bool-cases (guard.key =? g.key)) [
    | inr apart ↦ inr apart
    | inl same ↦
        let here = c.leads p id guard e yes' ph in
        let keys = (key_eq.beq_iff guard.key g.key).0 same in
        let one : i ≡ id = some_eq (sym known ∙ ap (λ k. lookup k s.in_flight) (sym keys) ∙ here) in
        absurd (true_ne (sym ((==_iff i id).1 one) ∙ other))
  ]
]

pub unregister-IsConsistent :
    (id : ℕ) (guard : LeaderGuard) (s : SingleFlight)
    → s.guards id ≡ some guard
    → guard.phase ≡ held
    → IsConsistent s
    → IsConsistent (unregister id guard s)
unfolding unregister
unregister-IsConsistent id guard s e ph c = record {
  listed = λ p key i h.
      let (before, apart) =
        unregistered_lookup guard.registered s.poisoned guard.key key s.in_flight i p h in
      elim (Bool-cases (i == id)) [
        | inl same ↦
            let leads =
              the_leader s i id key guard e ((==_iff i id).0 same) (c.listed p key i before) in
            elim apart [
              | inl no' ↦ absurd (true_ne (sym leads.2 ∙ no'))
              | inr other ↦
                  absurd (true_ne (sym ((key_eq.beq_iff guard.key key).1 leads.0) ∙ other))
            ]
        | inr other ↦
            Leads-other s (unregister id guard s) id (record guard { phase = unregistered }) i key
              (λ j. refl) other (c.listed p key i before)
      ];
  leads = λ p i g h r hd.
      elim (put-cases id (some (record guard { phase = unregistered })) s.guards i) [
        | inl (same, new_one) ↦
            absurd (unregistered-held (ap (λ g. g.phase) (some_eq (sym new_one ∙ h)) ∙ hd))
        | inr (other, old) ↦
            let known = c.leads p i g (sym old ∙ h) r hd in
            kept_lookup guard.registered s.poisoned guard.key g.key s.in_flight i
              (apart_from s id i guard g c p e ph other known) known
      ];
  fresh = changed-fresh s id guard (record guard { phase = unregistered }) c e;
}
