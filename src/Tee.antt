-- ===== src/Tee.antt =====
-- src/handlers/tee.rs: one response body for the client and for the cache.
--
-- The two channels are the environment: what becomes of each send to the client, and of each send to
-- the cache. A send to the client has no time limit: while the client does not read, the loop stands
-- still, and the rest of the response reaches neither side.
pub mod Isolation
pub mod Caching
use video_proxy_server.Prelude.{ℕ, suc, Bool, true, false, ◌&&◌, ◌||◌, List, [], ◌∷◌, if◌then◌else◌}
use video_proxy_server.Error.{Result, ok, err}
use video_proxy_server.Storage.Disk.File.{Bytes}

-- What `try_send` says, and then `send` within the grace period.
pub data TrySend : Type 0 where
  sent : TrySend
  full : TrySend
  closed : TrySend

pub data Waited : Type 0 where
  accepted : Waited
  gone : Waited
  timed_out : Waited

unfoldable pub send_to_cache : TrySend → Waited → Bool
send_to_cache sent waited = true
send_to_cache closed waited = false
send_to_cache full accepted = true
send_to_cache full gone = false
send_to_cache full timed_out = false

-- What becomes of `client_tx.send`: the client takes the item, has gone, or never makes room for it.
pub data ClientSend : Type 0 where
  took : ClientSend
  left : ClientSend
  stalled : ClientSend

pub record Channels : Type 0 where
  pub client : ℕ → ClientSend
  pub try_cache : ℕ → TrySend
  pub wait_cache : ℕ → Waited

-- What the two receivers get.
pub record Forwarded : Type 0 where
  pub to_client : List (Result Bytes)
  pub to_cache : List (Result Bytes)

-- An item in front of the rest, for a side that took it.
abbrev pub deliver : Bool → Result Bytes → List (Result Bytes) → List (Result Bytes)
deliver true item rest = item ∷ rest
deliver false item rest = rest

abbrev pub cache_takes : Channels → ℕ → Bool
cache_takes channels index = send_to_cache (channels.try_cache index) (channels.wait_cache index)

abbrev pub nothing : Forwarded
nothing = record { to_client = []; to_cache = [] }

abbrev pub is_taken : ClientSend → Bool
is_taken took = true
is_taken left = false
is_taken stalled = false

abbrev pub is_stalled : ClientSend → Bool
is_stalled stalled = true
is_stalled took = false
is_stalled left = false

abbrev pub client_takes : Channels → ℕ → Bool
client_takes channels index = is_taken (channels.client index)

-- The send to an open client does not return.
abbrev pub stands_still : Channels → ℕ → Bool → Bool
stands_still channels index client_open = client_open && is_stalled (channels.client index)

-- The loop from the `index`-th item on. A side that is closed is not sent to again.
unfoldable pub forward : Channels → ℕ → Bool → Bool → List (Result Bytes) → Forwarded
forward channels index client_open cache_open [] = nothing
forward channels index client_open cache_open (ok chunk ∷ upstream) =
    let client' = client_open && client_takes channels index in
    let cache' = cache_open && cache_takes channels index in
    let rest = forward channels (suc index) client' cache' upstream in
    let after = if client' || cache' then rest else nothing in
    if stands_still channels index client_open then nothing else record {
      to_client = deliver client' (ok chunk) after.to_client;
      to_cache = deliver cache' (ok chunk) after.to_cache;
    }
forward channels index client_open cache_open (err error ∷ upstream) =
    if stands_still channels index client_open then nothing else record {
      to_client = deliver (client_open && client_takes channels index) (err error) [];
      to_cache = deliver (cache_open && cache_takes channels index) (err error) [];
    }

unfoldable pub forward_upstream : Channels → List (Result Bytes) → Forwarded
forward_upstream channels upstream = forward channels 0 true true upstream
