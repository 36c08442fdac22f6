-- ===== src/Storage/Disk/Soundness.antt =====
-- The invariant of the disk cache: a byte that the metadata marks as cached is in the data file, and
-- is the byte of the resource. The operations that keep it are in the modules below.
pub mod Files
pub mod Metadata
pub mod Write
pub mod Read
pub mod Growth
pub mod Operations
pub mod Steps
pub mod History
pub mod Progress
use video_proxy_server.Prelude.{
  ℕ, ◌+◌, ◌≤◌, String, ◌≡◌, ◌≢◌, ◌⊎◌, true, Option, none, some, List, [], ◌∷◌, get_elem?, length,
  u64_max,
}
use video_proxy_server.Map.{string_eq, lookup}
use video_proxy_server.Error.{Result, ok, err}
use video_proxy_server.Storage.Ranges.{Ranges}
use video_proxy_server.Storage.Ranges.Table.{IsTable, has_byte}
use video_proxy_server.Storage.Disk.File.{Bytes, content}
use video_proxy_server.Storage.Disk.File.Origin.{Matches}
use video_proxy_server.Storage.Disk.Metadata.{RangeMetadata}
use video_proxy_server.Storage.Disk.Store.{System, Disk, get_file_path}

-- Each byte of a table is in the file, and is that of the resource.
pub record Holds (origin : ℕ → ℕ) (completed : Ranges) (file : Option Bytes) : Type 0 where
  pub table : IsTable completed
  pub bytes : (b : ℕ) → has_byte completed b ≡ true → get_elem? (content file) b ≡ some (origin b)

-- The stored and the indexed metadata of a key tell the truth.
pub record IsSound (sys : System) (key : String) (origin : ℕ → ℕ) (d : Disk sys) : Type 0 where
  pub stored :
      (blob : sys.Blob) (m : RangeMetadata)
      → d.metadata_files (get_file_path sys key) ≡ some blob
      → sys.from_slice blob ≡ some m
      → Holds origin m.completed (d.data_files (get_file_path sys key))
  pub indexed :
      (m : RangeMetadata)
      → lookup key d.metadata_index ≡ some m
      → Holds origin m.completed (d.data_files (get_file_path sys key))

-- The stream delivers bytes of the resource from a position on, and may break off with an error.
abbrev pub Delivers : (ℕ → ℕ) → ℕ → List (Result Bytes) → Type 0
Delivers origin pos [] = Unit
Delivers origin pos (ok chunk ∷ stream) =
    Matches origin pos chunk × Delivers origin (pos + length chunk) stream
Delivers origin pos (err e ∷ stream) = Unit

-- An operation on key `j`, as key `key` sees it: it is the same key, or it has other files.
abbrev pub Apart : System → String → String → Type 0
Apart sys key j = (j ≡ key) ⊎ (get_file_path sys j ≢ get_file_path sys key)
