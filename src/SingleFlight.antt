-- ===== src/SingleFlight.antt =====
-- src/handlers/single_flight.rs: requests for the same range of the same key wait for the first.
--
-- Guards and followers are numbered by the order in which they come to be, and a channel has the
-- number of its guard. The steps of the program interleave in any order: a request joins, a guard
-- is taken from the table and then announces its end, a follower looks at its channel or gives up.
pub mod Joining
pub mod Dropping
pub mod Announcing
pub mod Safety
use video_proxy_server.Prelude.{
  ℕ, suc, ◌+◌, String, ◌≡◌, ◌↔◌, subst, arith, Bool, true, false, ◌&&◌, ◌||◌, not, Option, none,
  some, List, [], ◌∷◌, ◌==◌, if◌then◌else◌,
}
use video_proxy_server.Map.{Eq, string_eq, nat_eq, ◌=?◌, lookup, insert, remove}

-- `(key, start, requested_end)`
abbrev pub Key : Type 0
Key = String × ℕ × ℕ

-- Where a guard is in its life: held, taken from the table by `drop`, or gone after the broadcast.
pub data Phase : Type 0 where
  held : Phase
  unregistered : Phase
  finished : Phase

-- A guard has a registry unless the lock was poisoned when it was made.
pub record LeaderGuard : Type 0 where
  pub registered : Bool
  pub key : Key
  pub phase : Phase

pub record SingleFlight : Type 0 where
  pub in_flight : List (Key × ℕ)
  pub poisoned : Bool
  pub guards : ℕ → Option LeaderGuard
  pub next : ℕ
  pub done : ℕ → Bool

-- The number is that of the guard, or of the guard whose channel is followed.
pub data Join : Type 0 where
  leader : ℕ → Join
  follower : ℕ → Join

abbrev pub key_beq : Key → Key → Bool
key_beq (k, start, end) (k', start', end') = (k =? k') && (start == start' && end == end')

key_beq_sound : (a b : Key) → key_beq a b ≡ true → a ≡ b
key_beq_sound (k, start, end) (k', start', end') h =
    grind (arith, string_eq.beq_iff k k', nat_eq.beq_iff start start', nat_eq.beq_iff end end')

key_beq_refl : (a : Key) → key_beq a a ≡ true
key_beq_refl (k, start, end) =
    grind (arith, string_eq.beq_iff k k, nat_eq.beq_iff start start, nat_eq.beq_iff end end)

pub key_beq_iff : (a b : Key) → (key_beq a b ≡ true) ↔ (a ≡ b)
key_beq_iff a b = (key_beq_sound a b, λ p. subst (λ c. key_beq a c ≡ true) p (key_beq_refl a))

instance abbrev pub key_eq : Eq Key
key_eq = record { beq = key_beq; beq_iff = key_beq_iff }

-- `SingleFlight::new`
abbrev pub new : SingleFlight
new = record { in_flight = []; poisoned = false; guards = λ id. none; next = 0; done = λ id. false }

abbrev pub put {ℓ} : {A : Type ℓ} → ℕ → A → (ℕ → A) → ℕ → A
put id a f i = if i == id then a else f i

abbrev pub make_guard : Bool → Key → SingleFlight → SingleFlight
make_guard registered key s = record s {
  guards = put s.next (some (record { registered = registered; key = key; phase = held })) s.guards;
  next = suc s.next;
}

abbrev pub join_open : Key → Option ℕ → SingleFlight → Join × SingleFlight
join_open key (some id) s = (follower id, s)
join_open key none s =
    (leader s.next, make_guard true key (record s { in_flight = insert key s.next s.in_flight }))

-- With a poisoned lock everyone leads, unregistered.
unfoldable pub join : Key → SingleFlight → Join × SingleFlight
join key s =
    if s.poisoned
    then (leader s.next, make_guard false key s)
    else join_open key (lookup key s.in_flight) s

-- The two halves of `drop`.
unfoldable pub unregister : ℕ → LeaderGuard → SingleFlight → SingleFlight
unregister id guard s = record s {
  in_flight =
      if guard.registered && not s.poisoned then remove guard.key s.in_flight else s.in_flight;
  guards = put id (some (record guard { phase = unregistered })) s.guards;
}

unfoldable pub broadcast : ℕ → LeaderGuard → SingleFlight → SingleFlight
broadcast id guard s = record s {
  guards = put id (some (record guard { phase = finished })) s.guards;
  done = if guard.registered then put id true s.done else s.done;
}

-- A thread panics while it holds the lock.
unfoldable pub poison : SingleFlight → SingleFlight
poison s = record s { poisoned = true }

pub data Step : SingleFlight → SingleFlight → Type 0 where
  joins : (key : Key) (s : SingleFlight) → Step s (join key s).1
  unregisters :
      (id : ℕ) (guard : LeaderGuard) (s : SingleFlight)
      → s.guards id ≡ some guard
      → guard.phase ≡ held
      → Step s (unregister id guard s)
  broadcasts :
      (id : ℕ) (guard : LeaderGuard) (s : SingleFlight)
      → s.guards id ≡ some guard
      → guard.phase ≡ unregistered
      → Step s (broadcast id guard s)
  poisons : (s : SingleFlight) → Step s (poison s)

pub data Reachable : SingleFlight → Type 0 where
  initially : Reachable new
  after : {s t : SingleFlight} → Reachable s → Step s t → Reachable t
