-- ===== src/SingleFlight/Joining.antt =====
-- src/handlers/single_flight.rs: what the table of the registered guards says, and `join`.
use video_proxy_server.Prelude.{
  ℕ, suc, ◌<◌, ◌≡◌, refl, sym, subst, ◌∙◌, ◌⊎◌, inl, inr, Bool, true, false, Option, none, some,
  List, [], arith, ◌==◌, ==_iff, if◌then◌else◌, Bool-cases,
}
use video_proxy_server.Map.{◌=?◌, =?-refl, lookup, insert, lookup-insert}
use video_proxy_server.SingleFlight.{
  Key, held, LeaderGuard, SingleFlight, leader, key_eq, new, put, make_guard, join_open, join,
}

-- A guard that leads the range of a key.
abbrev pub Leads : SingleFlight → ℕ → Key → Type 0
Leads s id key =
    (guard : LeaderGuard) × (s.guards id ≡ some guard)
    × (guard.key ≡ key)
    × (guard.phase ≡ held)
    × (guard.registered ≡ true)

-- While the lock is sound, the table lists the registered guards that are held, and only those.
pub record IsConsistent (s : SingleFlight) : Type 0 where
  pub listed :
      s.poisoned ≡ false → (key : Key) (id : ℕ) → lookup key s.in_flight ≡ some id → Leads s id key
  pub leads :
      s.poisoned ≡ false
      → (id : ℕ) (guard : LeaderGuard) → s.guards id ≡ some guard
      → guard.registered ≡ true
      → guard.phase ≡ held
      → lookup guard.key s.in_flight ≡ some id
  pub fresh : (id : ℕ) (guard : LeaderGuard) → s.guards id ≡ some guard → id < s.next

pub put-cases {ℓ} :
    {A : Type ℓ} (id : ℕ) (a : A) (f : ℕ → A) (i : ℕ)
    → ((i ≡ id) × (put id a f i ≡ a)) ⊎ ((i == id) ≡ false) × (put id a f i ≡ f i)
put-cases id a f i = elim (Bool-cases (i == id)) [
  | inl same ↦ inl ((==_iff i id).0 same, rw same refl)
  | inr other ↦ inr (other, rw other refl)
]

nothing : (key : Key) (id : ℕ) → lookup key [] ≡ some id → ⊥
unfolding lookup
nothing key id h = cc

no_guard : (guard : LeaderGuard) → none ≡ some guard → ⊥
no_guard guard h = cc

pub new-IsConsistent : IsConsistent new
new-IsConsistent = record {
  listed = λ p key id h. absurd (nothing key id h);
  leads = λ p id guard h. absurd (no_guard guard h);
  fresh = λ id guard h. absurd (no_guard guard h);
}

-- A new guard leaves the others alone.
older :
    (s : SingleFlight) (g : Option LeaderGuard) (id : ℕ)
    → id < s.next
    → put s.next g s.guards id ≡ s.guards id
older s g id p = let other : (id == s.next) ≡ false = ground arith in rw other refl

newest : (s : SingleFlight) (g : Option LeaderGuard) → put s.next g s.guards s.next ≡ g
newest s g = rw ((==_iff s.next s.next).1 refl) refl

abbrev new_guard : Bool → Key → LeaderGuard
new_guard registered key = record { registered = registered; key = key; phase = held }

made-fresh :
    (s : SingleFlight) (g : LeaderGuard)
    → IsConsistent s
    → (id : ℕ) (guard : LeaderGuard) → put s.next (some g) s.guards id ≡ some guard
    → id < suc s.next
made-fresh s g c id guard e = elim (put-cases s.next (some g) s.guards id) [
  | inl (same, _) ↦ omega (arith, same)
  | inr (_, old) ↦ let lt = c.fresh id guard (sym old ∙ e) in omega (arith, lt)
]

Leads-older :
    (s : SingleFlight) (g : LeaderGuard) (table : List (Key × ℕ)) (id : ℕ) (key : Key)
    → IsConsistent s
    → Leads s id key
    → Leads
        (record s { in_flight = table; guards = put s.next (some g) s.guards; next = suc s.next })
        id
        key
Leads-older s g table id key c (guard, e, k, h, r) =
    (guard, older s (some g) id (c.fresh id guard e) ∙ e, k, h, r)

pub some_eq {ℓ} : {A : Type ℓ} {x y : A} → some x ≡ some y → x ≡ y
some_eq h = cc

pub none_ne {ℓ} : {A : Type ℓ} {x : A} → none ≡ some x → ⊥
none_ne h = cc

none_some {ℓ κ} : {A : Type ℓ} {B : Type κ} {o : Option A} {x : A} → o ≡ none → o ≡ some x → B
none_some h k = absurd (none_ne (sym h ∙ k))

pub true_ne : true ≡ false → ⊥
true_ne h = cc

inserted : (key : Key) (id : ℕ) (m : List (Key × ℕ)) → lookup key (insert key id m) ≡ some id
inserted key id m = lookup-insert key key id m ∙ rw (=?-refl key) refl

not_displaced :
    (key key' : Key) (next id : ℕ) (m : List (Key × ℕ))
    → lookup key m ≡ none
    → lookup key' m ≡ some id
    → (if key =? key' then some next else lookup key' m) ≡ some id
not_displaced key key' next id m h k = elim (Bool-cases (key =? key')) [
  | inl same ↦
      none_some h (subst (λ j. lookup j m ≡ some id) (sym ((key_eq.beq_iff key key').0 same)) k)
  | inr other ↦ rw other k
]

join_leads :
    (key : Key) (s : SingleFlight)
    → lookup key s.in_flight ≡ none
    → IsConsistent s
    → IsConsistent (make_guard true key (record s { in_flight = insert key s.next s.in_flight }))
join_leads key s none_yet c = record {
  listed = λ p key' id h. elim (Bool-cases (key =? key')) [
    | inl same ↦
        let found : some s.next ≡ some id =
          rw same at (sym (lookup-insert key key' s.next s.in_flight) ∙ h) in
        let id_is : s.next ≡ id = cc in
        (
          new_guard true key,
          rw (← id_is) (newest s (some (new_guard true key))),
          (key_eq.beq_iff key key').0 same,
          refl,
          refl,
        )
    | inr other ↦
        Leads-older s (new_guard true key) (insert key s.next s.in_flight) id key' c
          (c.listed p key' id (rw other at (sym (lookup-insert key key' s.next s.in_flight) ∙ h)))
  ];
  leads = λ p id guard h r hd. elim (put-cases s.next (some (new_guard true key)) s.guards id) [
    | inl (same, new_one) ↦
        let guard_is : new_guard true key ≡ guard = some_eq (sym new_one ∙ h) in
        subst (λ g. lookup g.key (insert key s.next s.in_flight) ≡ some id) guard_is
          (rw same (inserted key s.next s.in_flight))
    | inr (other, old) ↦
        let known = c.leads p id guard (sym old ∙ h) r hd in
        lookup-insert key guard.key s.next s.in_flight
        ∙ not_displaced key guard.key s.next id s.in_flight none_yet known
  ];
  fresh = made-fresh s (new_guard true key) c;
}

-- While the lock is poisoned nothing is promised but that numbers are not used twice.
pub poisoned-IsConsistent :
    (s : SingleFlight)
    → s.poisoned ≡ true
    → ((id : ℕ) (guard : LeaderGuard) → s.guards id ≡ some guard → id < s.next)
    → IsConsistent s
poisoned-IsConsistent s q f = record {
  listed = λ p. absurd (true_ne (sym q ∙ p));
  leads = λ p. absurd (true_ne (sym q ∙ p));
  fresh = f;
}

join_open-IsConsistent :
    (key : Key) (o : Option ℕ) (s : SingleFlight)
    → lookup key s.in_flight ≡ o
    → IsConsistent s
    → IsConsistent (join_open key o s).1
join_open-IsConsistent key none s h c = join_leads key s h c
join_open-IsConsistent key (some id) s h c = c

join_either :
    (key : Key) (s : SingleFlight) (b : Bool)
    → s.poisoned ≡ b
    → IsConsistent s
    → IsConsistent
        (if b
          then (leader s.next, make_guard false key s)
          else join_open key (lookup key s.in_flight) s).1
join_either key s true bad c =
    poisoned-IsConsistent (make_guard false key s) bad (made-fresh s (new_guard false key) c)
join_either key s false good c = join_open-IsConsistent key (lookup key s.in_flight) s refl c

pub join-IsConsistent :
    (key : Key) (s : SingleFlight) → IsConsistent s → IsConsistent (join key s).1
unfolding join
join-IsConsistent key s c = join_either key s s.poisoned refl c
