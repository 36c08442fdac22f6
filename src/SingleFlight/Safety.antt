-- ===== src/SingleFlight/Safety.antt =====
-- src/handlers/single_flight.rs: there is one leader for a range, and its followers are told when it
-- has gone.
use video_proxy_server.Prelude.{
  ℕ, ◌≡◌, ◌↔◌, refl, sym, ap, ◌∙◌, Bool, true, false, Option, none, some, if◌then◌else◌,
}
use video_proxy_server.Map.{lookup}
use video_proxy_server.SingleFlight.{
  Key, held, finished, LeaderGuard, SingleFlight, leader, follower, key_eq, make_guard, join_open,
  join, poison, Step, joins, unregisters, broadcasts, poisons, Reachable, initially, after,
}
use video_proxy_server.SingleFlight.Joining.{
  IsConsistent, Leads, join-IsConsistent, new-IsConsistent, poisoned-IsConsistent, some_eq,
}
use video_proxy_server.SingleFlight.Announcing.{
  IsAnnounced, Remains, new-IsAnnounced, step-IsAnnounced, step-Remains,
}
use video_proxy_server.SingleFlight.Dropping.{broadcast-IsConsistent, unregister-IsConsistent}

step-IsConsistent : {s t : SingleFlight} → Step s t → IsConsistent s → IsConsistent t
step-IsConsistent (joins key s) c = join-IsConsistent key s c
step-IsConsistent (unregisters id guard s e h) c = unregister-IsConsistent id guard s e h c
step-IsConsistent (broadcasts id guard s e h) c = broadcast-IsConsistent id guard s e h c
step-IsConsistent (poisons s) c = unfold poison in poisoned-IsConsistent (poison s) refl c.fresh

reachable-IsConsistent : {s : SingleFlight} → Reachable s → IsConsistent s
reachable-IsConsistent initially = new-IsConsistent
reachable-IsConsistent (after r step) = step-IsConsistent step (reachable-IsConsistent r)

follows_open :
    (key : Key) (s : SingleFlight) (id : ℕ) (o : Option ℕ)
    → lookup key s.in_flight ≡ o
    → s.poisoned ≡ false
    → IsConsistent s
    → (join_open key o s).0 ≡ follower id
    → Leads s id key
follows_open key s id none found p c h = cc
follows_open key s id (some i) found p c h =
    let same : i ≡ id = cc in c.listed p key id (found ∙ ap (λ j. some j) same)

follows :
    (key : Key) (s : SingleFlight) (id : ℕ) (b : Bool)
    → s.poisoned ≡ b
    → IsConsistent s
    → (if b
        then (leader s.next, make_guard false key s)
        else join_open key (lookup key s.in_flight) s).0
      ≡ follower id
    → Leads s id key
follows key s id true bad c h = cc
follows key s id false good c h = follows_open key s id (lookup key s.in_flight) refl good c h

-- The states that further steps lead to.
pub data Later (s : SingleFlight) : SingleFlight → Type 0 where
  now : Later s s
  further : {t u : SingleFlight} → Later s t → Step t u → Later s u

Later-Reachable : {s t : SingleFlight} → Reachable s → Later s t → Reachable t
Later-Reachable r now = r
Later-Reachable r (further l step) = after (Later-Reachable r l) step

reachable-IsAnnounced : {s : SingleFlight} → Reachable s → IsAnnounced s
reachable-IsAnnounced initially = new-IsAnnounced
reachable-IsAnnounced (after r step) =
    step-IsAnnounced step (reachable-IsConsistent r) (reachable-IsAnnounced r)

Later-Remains :
    {s t : SingleFlight} (guard : LeaderGuard) (id : ℕ)
    → Reachable s
    → Later s t
    → s.guards id ≡ some guard
    → Remains guard id t
Later-Remains guard id r now e = (guard, e, refl, refl)
Later-Remains guard id r (further l step) e =
    let (g, known, k, q) = Later-Remains guard id r l e in
    let (g', known', k', q') =
      step-Remains g id step (reachable-IsConsistent (Later-Reachable r l)) known in
    (g', known', k' ∙ k, q' ∙ q)

-- A request that follows in any reachable state follows a guard of the same range that leads at that
-- moment; in every later state, whatever happens in between, its channel says that the leader has
-- left exactly if it has.
pub follower-Leads :
    (s t : SingleFlight) (key : Key) (id : ℕ)
    → Reachable s
    → (join key s).0 ≡ follower id
    → Later s t
    → Leads s id key
      × ((guard : LeaderGuard) × (t.guards id ≡ some guard)
          × (guard.key ≡ key)
          × ((guard.phase ≡ finished) ↔ (t.done id ≡ true)))
unfolding join
follower-Leads s t key id r h l =
    let leads = follows key s id s.poisoned refl (reachable-IsConsistent r) h in
    let (guard, e, k, _, registered) = leads in
    let (g, known, k', q) = Later-Remains guard id r l e in
    let told = (reachable-IsAnnounced (Later-Reachable r l)).told id g known (q ∙ registered) in
    (leads, (g, known, k' ∙ k, told))

-- In any reachable state in which no thread panicked with the lock, two registered guards that lead
-- the same range are one.
pub one_leader :
    (s : SingleFlight) (i j : ℕ) (g h : LeaderGuard)
    → Reachable s
    → s.poisoned ≡ false
    → s.guards i ≡ some g
    → s.guards j ≡ some h
    → (g.registered ≡ true) × (g.phase ≡ held)
    → (h.registered ≡ true) × (h.phase ≡ held)
    → g.key ≡ h.key
    → i ≡ j
one_leader s i j g h r p eg eh (rg, hg) (rh, hh) same =
    let c = reachable-IsConsistent r in
    some_eq
      (sym (c.leads p i g eg rg hg) ∙ ap (λ k. lookup k s.in_flight) same ∙ c.leads p j h eh rh hh)
