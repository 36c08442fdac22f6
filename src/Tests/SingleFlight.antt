-- ===== src/Tests/SingleFlight.antt =====
-- Runs of the table of requests in flight.
use video_proxy_server.Prelude.{ℕ, ◌≡◌, ◌↔◌, refl, true, false, some}
use video_proxy_server.Map.{lookup, insert, remove}
use video_proxy_server.SingleFlight.{
  Key, held, unregistered, finished, LeaderGuard, SingleFlight, leader, follower, key_eq, new, join,
  unregister, broadcast, joins, unregisters, broadcasts, Reachable, initially, after,
}
use video_proxy_server.SingleFlight.Joining.{Leads}
use video_proxy_server.SingleFlight.Safety.{Later, now, further, follower-Leads, one_leader}

abbrev range : Key
range = ("asset", 0, 99)

abbrev guard : LeaderGuard
guard = record { registered = true; key = range; phase = held }

-- One request has come, and its guard is number 0.
abbrev one_request : SingleFlight
one_request = (join range new).1

reached : Reachable one_request
reached = after initially (joins range new)

second_follows : (join range one_request).0 ≡ follower 0
unfolding join lookup insert
second_follows = refl

other_range_leads : (join ("asset", 0, 98) one_request).0 ≡ leader 1
unfolding join lookup insert
other_range_leads = refl

-- Between the two halves of `drop` the next request leads already.
next_leads : (join range (unregister 0 guard one_request)).0 ≡ leader 1
unfolding join unregister lookup insert remove
next_leads = refl

-- The second request joins, and the first one leaves.
abbrev two_requests : SingleFlight
two_requests = (join range one_request).1

abbrev leaving : LeaderGuard
leaving = record guard { phase = unregistered }

abbrev left_alone : SingleFlight
left_alone = broadcast 0 leaving (unregister 0 guard two_requests)

is_guarded : two_requests.guards 0 ≡ some guard
unfolding join lookup insert
is_guarded = refl

is_leaving : (unregister 0 guard two_requests).guards 0 ≡ some leaving
unfolding unregister
is_leaving = refl

leaves : Later one_request left_alone
leaves =
    further
      (further (further now (joins range one_request))
        (unregisters 0 guard two_requests is_guarded refl))
      (broadcasts 0 leaving (unregister 0 guard two_requests) is_leaving refl)

is_told : left_alone.done 0 ≡ true
unfolding broadcast unregister
is_told = refl

follower-Leads_example :
    Leads one_request 0 range
    × ((g : LeaderGuard) × (left_alone.guards 0 ≡ some g)
        × (g.key ≡ range)
        × ((g.phase ≡ finished) ↔ (left_alone.done 0 ≡ true)))
follower-Leads_example = follower-Leads one_request left_alone range 0 reached second_follows leaves

is_held : one_request.guards 0 ≡ some guard
unfolding join lookup
is_held = refl

is_sound : one_request.poisoned ≡ false
unfolding join lookup
is_sound = refl

one_leader_example : ◌≡◌ {A = ℕ} 0 0
one_leader_example =
    one_leader one_request 0 0 guard guard reached is_sound is_held is_held (refl, refl)
      (refl, refl) refl
