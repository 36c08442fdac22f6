-- ===== src/Tee/Caching.antt =====
-- src/handlers/tee.rs with src/storage/disk.rs: what the fork writes to the cache.
use video_proxy_server.Prelude.{
  ℕ, suc, ◌+◌, String, sym, subst, Bool, true, ◌&&◌, List, [], ◌∷◌, Bool-cases, inl, inr, refl,
  length,
}
use video_proxy_server.Error.{Result, ok, err}
use video_proxy_server.Storage.Disk.File.{Bytes}
use video_proxy_server.Storage.Disk.Store.{System, Env, Disk}
use video_proxy_server.Storage.Disk.Write.{write}
use video_proxy_server.Storage.Disk.Soundness.{IsSound, Delivers}
use video_proxy_server.Storage.Disk.Soundness.Write.{write-IsSound}
use video_proxy_server.Tee.{ClientSend, is_stalled, Channels, cache_takes, forward_upstream}
use video_proxy_server.Tee.Isolation.{one_side, before_stall, forward_upstream-sides}

pub one_side-Delivers :
    (origin : ℕ → ℕ) (takes : ℕ → Bool) (index pos : ℕ) (is_open : Bool)
    (upstream : List (Result Bytes))
    → Delivers origin pos upstream
    → Delivers origin pos (one_side takes index is_open upstream)
unfolding one_side
one_side-Delivers origin takes index pos is_open [] h = tt
one_side-Delivers origin takes index pos is_open (ok chunk ∷ upstream) (m, h) =
    elim (Bool-cases (is_open && takes index)) [
      | inl yes' ↦
          rw yes'
            (m, one_side-Delivers origin takes (suc index) (pos + length chunk) true upstream h)
      | inr no' ↦ rw no' tt
    ]
one_side-Delivers origin takes index pos is_open (err e ∷ upstream) h =
    elim (Bool-cases (is_open && takes index)) [ inl yes' ↦ rw yes' tt | inr no' ↦ rw no' tt ]

pub before_stall-Delivers :
    (origin : ℕ → ℕ) (client : ℕ → ClientSend) (index pos : ℕ) (is_open : Bool)
    (upstream : List (Result Bytes))
    → Delivers origin pos upstream
    → Delivers origin pos (before_stall client index is_open upstream)
unfolding before_stall
before_stall-Delivers origin client index pos is_open [] h = tt
before_stall-Delivers origin client index pos is_open (ok chunk ∷ upstream) (m, h) =
    elim (Bool-cases (is_open && is_stalled (client index))) [
      | inl still ↦ rw still tt
      | inr goes ↦
          rw goes
            (m, before_stall-Delivers origin client (suc index) (pos + length chunk) _ upstream h)
    ]
before_stall-Delivers origin client index pos is_open (err e ∷ upstream) h =
    elim (Bool-cases (is_open && is_stalled (client index))) [
      | inl still ↦ rw still tt
      | inr goes ↦ rw goes tt
    ]

-- Writing the cache's side of a response keeps the cache truthful, whatever the client and the
-- channels do and whatever fails on the disk, when the response delivers the bytes of the resource
-- from the start of the range.
pub forward_upstream-IsSound :
    (sys : System) (key : String) (origin : ℕ → ℕ) (env : Env) (channels : Channels)
    (upstream : List (Result Bytes)) (range : ℕ × ℕ) (d : Disk sys)
    → IsSound sys key origin d
    → Delivers origin range.0 upstream
    → IsSound sys key origin
        (write sys env key (forward_upstream channels upstream).to_cache range d).1
forward_upstream-IsSound sys key origin env channels upstream range d s h =
    let side = (forward_upstream-sides channels upstream).1 in
    let delivers = subst (Delivers origin range.0) (sym side) (
      one_side-Delivers origin (cache_takes channels) 0 range.0 true _
        (before_stall-Delivers origin channels.client 0 range.0 true upstream h)) in
    write-IsSound sys key origin env key _ range d s (inl (refl, delivers))
