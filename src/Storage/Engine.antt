-- ===== src/Storage/Engine.antt =====
-- `StorageEngine` of src/storage/mod.rs: what the manager of the cache uses of a storage.
use video_proxy_server.Prelude.{ℕ, String, Option, List}
use video_proxy_server.Error.{Result}
use video_proxy_server.Exec.{Exec}
use video_proxy_server.Storage.Disk.File.{Bytes}

pub record StorageEngine (E : Type 0) : Type 0 where
  pub write : String → List (Result Bytes) → ℕ × ℕ → Exec E ℕ
  pub read : String → ℕ × ℕ → Exec E (List (Result Bytes))
  pub get_size : String → Exec E (Option ℕ)
  pub delete : String → Exec E (Unit {0})
  pub enumerate : Exec E (List (String × ℕ))
