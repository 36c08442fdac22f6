-- ===== src/Tee/Isolation.antt =====
-- src/handlers/tee.rs: what the sides of the fork get, and how far one depends on the other.
use video_proxy_server.Prelude.{
  ℕ, suc, ◌≡◌, refl, ap, ◌∙◌, Bool, true, false, ◌&&◌, ◌||◌, List, [], ◌∷◌, if◌then◌else◌,
  Bool-cases, inl, inr,
}
use video_proxy_server.Error.{Result, ok, err}
use video_proxy_server.Storage.Disk.File.{Bytes}
use video_proxy_server.Tee.{
  ClientSend, took, left, stalled, is_taken, is_stalled, client_takes, stands_still, Channels,
  Forwarded, cache_takes, deliver, nothing, forward, forward_upstream,
}

-- One side alone: it gets every item up to the first error, or to the first item it does not take.
unfoldable pub one_side : (ℕ → Bool) → ℕ → Bool → List (Result Bytes) → List (Result Bytes)
one_side takes index is_open [] = []
one_side takes index is_open (ok chunk ∷ upstream) =
    let rest = one_side takes (suc index) true upstream in
    if is_open && takes index then ok chunk ∷ rest else []
one_side takes index is_open (err error ∷ upstream) =
    if is_open && takes index then err error ∷ [] else []

-- What the loop reads before it stands still for a client that is there and does not read.
unfoldable pub before_stall :
    (ℕ → ClientSend) → ℕ → Bool → List (Result Bytes) → List (Result Bytes)
before_stall client index is_open [] = []
before_stall client index is_open (item ∷ upstream) =
    let rest = before_stall client (suc index) (is_open && is_taken (client index)) upstream in
    if is_open && is_stalled (client index) then [] else item ∷ rest

closed_side :
    (takes : ℕ → Bool) (index : ℕ) (upstream : List (Result Bytes))
    → one_side takes index false upstream ≡ []
unfolding one_side
closed_side takes index [] = refl
closed_side takes index (ok chunk ∷ upstream) = refl
closed_side takes index (err error ∷ upstream) = refl

-- Both sides of a pass, given those of the rest.
both :
    (c s : Bool) (chunk : Bytes) (rest : Forwarded) (client cache : List (Result Bytes))
    → rest.to_client ≡ (if c then client else [])
    → rest.to_cache ≡ (if s then cache else [])
    → (deliver c (ok chunk) (if c || s then rest else nothing).to_client
        ≡ (if c then ok chunk ∷ client else []))
      × (deliver s (ok chunk) (if c || s then rest else nothing).to_cache
          ≡ (if s then ok chunk ∷ cache else []))
both true true chunk rest client cache p q = (ap (λ l. ok chunk ∷ l) p, ap (λ l. ok chunk ∷ l) q)
both true false chunk rest client cache p q = (ap (λ l. ok chunk ∷ l) p, q)
both false true chunk rest client cache p q = (p, ap (λ l. ok chunk ∷ l) q)
both false false chunk rest client cache p q = (refl, refl)

open_or_closed :
    (takes : ℕ → Bool) (index : ℕ) (b : Bool) (upstream : List (Result Bytes))
    → one_side takes index b upstream ≡ (if b then one_side takes index true upstream else [])
open_or_closed takes index true upstream = refl
open_or_closed takes index false upstream = closed_side takes index upstream

at_error : (b : Bool) (item : Result Bytes) → deliver b item [] ≡ (if b then item ∷ [] else [])
at_error true item = refl
at_error false item = refl

-- A client that is waited for takes nothing.
not_taken :
    (client_open : Bool) (send : ClientSend)
    → (client_open && is_stalled send) ≡ true
    → (client_open && is_taken send) ≡ false
not_taken false send h = refl
not_taken true took h = cc
not_taken true left h = refl
not_taken true stalled h = refl

forward-sides :
    (channels : Channels) (index : ℕ) (client cache : Bool) (upstream : List (Result Bytes))
    → ((forward channels index client cache upstream).to_client
        ≡ one_side (client_takes channels) index client upstream)
      × ((forward channels index client cache upstream).to_cache
          ≡ one_side
              (cache_takes channels)
              index
              cache
              (before_stall channels.client index client upstream))
unfolding forward one_side before_stall
forward-sides channels index client cache [] = (refl, refl)
forward-sides channels index client cache (ok chunk ∷ upstream) =
    elim (Bool-cases (stands_still channels index client)) [
      | inl still ↦ rw (still, not_taken client (channels.client index) still) (refl, refl)
      | inr goes ↦
          let c = client && client_takes channels index in
          let s = cache && cache_takes channels index in
          let rest = forward-sides channels (suc index) c s upstream in
          rw goes (
            both c s chunk (forward channels (suc index) c s upstream) _ _
              (rest.0 ∙ open_or_closed (client_takes channels) (suc index) c upstream)
              (rest.1 ∙ open_or_closed (cache_takes channels) (suc index) s _))
    ]
forward-sides channels index client cache (err error ∷ upstream) =
    elim (Bool-cases (stands_still channels index client)) [
      | inl still ↦ rw (still, not_taken client (channels.client index) still) (refl, refl)
      | inr goes ↦ rw goes (
        at_error (client && client_takes channels index) (err error),
        at_error (cache && cache_takes channels index) (err error),
      )
    ]

-- What the client gets does not depend on the cache: every item up to the first error, or up to the
-- first that it does not take. The cache gets every item up to the first error, or up to the first
-- that it does not take itself, of those that come before the loop stands still for a client that is
-- there and does not read; a client that has left holds nothing back.
pub forward_upstream-sides :
    (channels : Channels) (upstream : List (Result Bytes))
    → ((forward_upstream channels upstream).to_client
        ≡ one_side (client_takes channels) 0 true upstream)
      × ((forward_upstream channels upstream).to_cache
          ≡ one_side (cache_takes channels) 0 true (before_stall channels.client 0 true upstream))
unfolding forward_upstream
forward_upstream-sides channels upstream = forward-sides channels 0 true true upstream
