-- ===== src/SingleFlight/Announcing.antt =====
-- src/handlers/single_flight.rs: the channel of a guard says whether the guard has left.
use video_proxy_server.Prelude.{
  ℕ, ◌≤◌, ◌<◌, ◌≡◌, ◌↔◌, refl, sym, ap, ◌∙◌, inl, inr, Bool, true, false, Option, none, some, arith,
  ◌==◌, ==_iff, if◌then◌else◌,
}
use video_proxy_server.Map.{lookup, insert}
use video_proxy_server.SingleFlight.{
  Key, held, unregistered, finished, Phase, LeaderGuard, SingleFlight, leader, key_eq, new, put,
  make_guard, join_open, join, unregister, broadcast, poison, Step, joins, unregisters, broadcasts,
  poisons,
}
use video_proxy_server.SingleFlight.Joining.{IsConsistent, put-cases, some_eq, none_ne, true_ne}

-- The channel of a registered guard holds `true` exactly if the guard has left, and a channel that
-- is not made yet does not.
pub record IsAnnounced (s : SingleFlight) : Type 0 where
  pub told :
      (id : ℕ) (guard : LeaderGuard)
      → s.guards id ≡ some guard
      → guard.registered ≡ true
      → (guard.phase ≡ finished) ↔ (s.done id ≡ true)
  pub untold : (id : ℕ) → s.next ≤ id → s.done id ≡ false

held-finished : held ≡ finished → ⊥
held-finished h = cc

unregistered-finished : unregistered ≡ finished → ⊥
unregistered-finished h = cc

pub new-IsAnnounced : IsAnnounced new
new-IsAnnounced = record { told = λ id guard h. absurd (none_ne h); untold = λ id h. refl }

make_guard-IsAnnounced :
    (registered : Bool) (key : Key) (s : SingleFlight)
    → IsAnnounced s
    → IsAnnounced (make_guard registered key s)
make_guard-IsAnnounced registered key s a = record {
  told = λ id guard e r.
      elim (put-cases s.next (some (record { registered = registered; key = key; phase = held }))
        s.guards id) [
          | inl (same, new_one) ↦
              let is_held : held ≡ guard.phase = ap (λ g. g.phase) (some_eq (sym new_one ∙ e)) in
              (
                λ gone. absurd (held-finished (is_held ∙ gone)),
                λ told. absurd (true_ne (sym told ∙ a.untold id (omega (arith, same)))),
              )
          | inr (_, old) ↦ a.told id guard (sym old ∙ e) r
        ];
  untold = λ id h. a.untold id (omega arith);
}

listed-IsAnnounced :
    (key : Key) (s : SingleFlight)
    → IsAnnounced s
    → IsAnnounced (record s { in_flight = insert key s.next s.in_flight })
listed-IsAnnounced key s a = record { told = a.told; untold = a.untold }

join_open-IsAnnounced :
    (key : Key) (o : Option ℕ) (s : SingleFlight)
    → IsAnnounced s
    → IsAnnounced (join_open key o s).1
join_open-IsAnnounced key none s a = make_guard-IsAnnounced true key _ (listed-IsAnnounced key s a)
join_open-IsAnnounced key (some id) s a = a

join_either :
    (key : Key) (s : SingleFlight) (b : Bool)
    → IsAnnounced s
    → IsAnnounced
        (if b
          then (leader s.next, make_guard false key s)
          else join_open key (lookup key s.in_flight) s).1
join_either key s true a = make_guard-IsAnnounced false key s a
join_either key s false a = join_open-IsAnnounced key (lookup key s.in_flight) s a

join-IsAnnounced : (key : Key) (s : SingleFlight) → IsAnnounced s → IsAnnounced (join key s).1
unfolding join
join-IsAnnounced key s a = join_either key s s.poisoned a

unregister-IsAnnounced :
    (id : ℕ) (guard : LeaderGuard) (s : SingleFlight)
    → s.guards id ≡ some guard
    → guard.phase ≡ held
    → IsAnnounced s
    → IsAnnounced (unregister id guard s)
unfolding unregister
unregister-IsAnnounced id guard s e ph a = record {
  told = λ i g h r. elim (put-cases id (some (record guard { phase = unregistered })) s.guards i) [
    | inl (same, new_one) ↦
        let g_is : record guard { phase = unregistered } ≡ g = some_eq (sym new_one ∙ h) in
        let known = ap s.guards same ∙ e in
        let registered : guard.registered ≡ true = ap (λ g. g.registered) g_is ∙ r in
        (
          λ gone. absurd (unregistered-finished (ap (λ g. g.phase) g_is ∙ gone)),
          λ told. absurd (held-finished (sym ph ∙ (a.told i guard known registered).1 told)),
        )
    | inr (_, old) ↦ a.told i g (sym old ∙ h) r
  ];
  untold = a.untold;
}

-- What a broadcast does to the channels.
done_self :
    (registered : Bool) (id i : ℕ) (done : ℕ → Bool)
    → registered ≡ true
    → i ≡ id
    → (if registered then put id true done else done) i ≡ true
done_self false id i done r same = absurd (true_ne (sym r))
done_self true id i done r same = let e = (==_iff i id).1 same in rw e refl

done_other :
    (registered : Bool) (id i : ℕ) (done : ℕ → Bool)
    → (i == id) ≡ false
    → (if registered then put id true done else done) i ≡ done i
done_other false id i done other = refl
done_other true id i done other = rw other refl

broadcast-IsAnnounced :
    (id : ℕ) (guard : LeaderGuard) (s : SingleFlight)
    → id < s.next
    → IsAnnounced s
    → IsAnnounced (broadcast id guard s)
unfolding broadcast
broadcast-IsAnnounced id guard s lt a = record {
  told = λ i g h r. elim (put-cases id (some (record guard { phase = finished })) s.guards i) [
    | inl (same, new_one) ↦
        let g_is : record guard { phase = finished } ≡ g = some_eq (sym new_one ∙ h) in
        let registered : guard.registered ≡ true = ap (λ g. g.registered) g_is ∙ r in
        (
          λ _. done_self guard.registered id i s.done registered same,
          λ _. sym (ap (λ g. g.phase) g_is),
        )
    | inr (other, old) ↦
        let (to, from) = a.told i g (sym old ∙ h) r in
        let kept = done_other guard.registered id i s.done other in
        (λ gone. kept ∙ to gone, λ told. from (sym kept ∙ told))
  ];
  untold = λ i h. done_other guard.registered id i s.done (ground (arith, lt, h)) ∙ a.untold i h;
}

pub step-IsAnnounced :
    {s t : SingleFlight} → Step s t → IsConsistent s → IsAnnounced s → IsAnnounced t
step-IsAnnounced (joins key s) c a = join-IsAnnounced key s a
step-IsAnnounced (unregisters id guard s e h) c a = unregister-IsAnnounced id guard s e h a
step-IsAnnounced (broadcasts id guard s e h) c a =
    broadcast-IsAnnounced id guard s (c.fresh id guard e) a
step-IsAnnounced (poisons s) c a = unfold poison in record { told = a.told; untold = a.untold }

-- A guard of the same range under the same number, in whatever phase.
abbrev pub Remains : LeaderGuard → ℕ → SingleFlight → Type 0
Remains guard id t =
    (later : LeaderGuard) × (t.guards id ≡ some later)
    × (later.key ≡ guard.key)
    × (later.registered ≡ guard.registered)

changed-Remains :
    (guard : LeaderGuard) (id i : ℕ) (old : LeaderGuard) (phase : Phase) (s t : SingleFlight)
    → ((j : ℕ) → t.guards j ≡ put i (some (record old { phase = phase })) s.guards j)
    → s.guards i ≡ some old
    → s.guards id ≡ some guard
    → Remains guard id t
changed-Remains guard id i old phase s t same known e =
    elim (put-cases i (some (record old { phase = phase })) s.guards id) [
      | inl (here, new_one) ↦
          let old_is : old ≡ guard = some_eq (sym known ∙ ap s.guards (sym here) ∙ e) in
          (
            record old { phase = phase },
            same id ∙ new_one,
            ap (λ g. g.key) old_is,
            ap (λ g. g.registered) old_is,
          )
      | inr (_, kept) ↦ (guard, same id ∙ kept ∙ e, refl, refl)
    ]

made-Remains :
    (registered : Bool) (key : Key) (guard : LeaderGuard) (id : ℕ) (s : SingleFlight)
    → id < s.next
    → s.guards id ≡ some guard
    → Remains guard id (make_guard registered key s)
made-Remains registered key guard id s lt e =
    let other : (id == s.next) ≡ false = ground arith in (guard, rw other e, refl, refl)

join_open-Remains :
    (key : Key) (o : Option ℕ) (guard : LeaderGuard) (id : ℕ) (s : SingleFlight)
    → id < s.next
    → s.guards id ≡ some guard
    → Remains guard id (join_open key o s).1
join_open-Remains key none guard id s lt e =
    made-Remains true key guard id (record s { in_flight = insert key s.next s.in_flight }) lt e
join_open-Remains key (some i) guard id s lt e = (guard, e, refl, refl)

either-Remains :
    (key : Key) (guard : LeaderGuard) (id : ℕ) (s : SingleFlight) (b : Bool)
    → id < s.next
    → s.guards id ≡ some guard
    → Remains guard id
        (if b
          then (leader s.next, make_guard false key s)
          else join_open key (lookup key s.in_flight) s).1
either-Remains key guard id s true lt e = made-Remains false key guard id s lt e
either-Remains key guard id s false lt e =
    join_open-Remains key (lookup key s.in_flight) guard id s lt e

pub step-Remains :
    {s t : SingleFlight} (guard : LeaderGuard) (id : ℕ)
    → Step s t
    → IsConsistent s
    → s.guards id ≡ some guard
    → Remains guard id t
unfolding join unregister broadcast poison
step-Remains guard id (joins key s) c e =
    either-Remains key guard id s s.poisoned (c.fresh id guard e) e
step-Remains guard id (unregisters i old s h p) c e =
    changed-Remains guard id i old unregistered s (unregister i old s) (λ j. refl) h e
step-Remains guard id (broadcasts i old s h p) c e =
    changed-Remains guard id i old finished s (broadcast i old s) (λ j. refl) h e
step-Remains guard id (poisons s) c e = (guard, e, refl, refl)
