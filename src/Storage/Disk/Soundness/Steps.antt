-- ===== src/Storage/Disk/Soundness/Steps.antt =====
-- src/storage/disk.rs, histories of the disk cache: operations in any order, with any failures, from
-- an empty cache directory.
--
-- A look-up of metadata takes no lock: between its loading a metadata file and its putting it into
-- the index other operations may run, so these halves are operations of their own. The others are
-- single operations. A write, an update of the metadata and a deletion hold the locks of the key; what
-- a read changes is what its look-ups change. The scan at start, which may delete files, is not one of
-- them.
use video_proxy_server.Prelude.{
  zero, suc, Option, some, get_elem?, ℕ, String, ◌≡◌, ◌≢◌, ◌⊎◌, none, List, [], ◌∷◌, All,
}
use video_proxy_server.Map.{lookup, string_eq, list_eq, nat_eq}
use video_proxy_server.Error.{Result}
use video_proxy_server.Storage.Disk.File.{Bytes}
use video_proxy_server.Storage.Disk.Metadata.{RangeMetadata}
use video_proxy_server.Storage.Disk.Store.{
  System, Env, Disk, get_file_path, empty_disk, load_metadata, index_insert,
}
use video_proxy_server.Storage.Disk.Write.{write}
use video_proxy_server.Storage.Disk.Read.{
  UpstreamMeta, read, delete, record_upstream_meta, upstream_meta,
}
use video_proxy_server.Storage.Disk.Soundness.{Delivers, Apart}

pub data Operation : Type 0 where
  writing : Env → String → List (Result Bytes) → ℕ × ℕ → Operation
  reading : Env → (ℕ → Result ℕ) → ℕ → String → ℕ × ℕ → Operation
  recording_meta : Env → String → UpstreamMeta → Operation
  showing_meta : Env → String → Operation
  deleting : Env → String → Operation
  loading : Env → String → Operation
  inserting : Env → ℕ → Operation

-- The cache, and what look-ups have loaded and not put into the index yet.
pub record Cache (sys : System) : Type 0 where
  pub disk : Disk sys
  pub loaded : List (String × RangeMetadata)

abbrev pub remove_at {ℓ} : {A : Type ℓ} → ℕ → List A → List A
remove_at n [] = []
remove_at zero (x ∷ xs) = xs
remove_at (suc n) (x ∷ xs) = x ∷ remove_at n xs

module _ (sys : System) where
  abbrev pub start_cache : Cache sys
  start_cache = record { disk = empty_disk sys; loaded = [] }

  abbrev pub on_disk : Disk sys → Cache sys → Cache sys
  on_disk d c = record c { disk = d }

  -- The first half of `with_metadata`, for a key that is found in the index or not.
  abbrev pub remember :
      Option RangeMetadata
      → String
      → Option RangeMetadata
      → List (String × RangeMetadata)
      → List (String × RangeMetadata)
  remember (some indexed) j found loaded = loaded
  remember none j none loaded = loaded
  remember none j (some m) loaded = (j, m) ∷ loaded

  -- The second half, for one of the look-ups under way.
  abbrev pub insert_loaded : Env → ℕ → Option (String × RangeMetadata) → Cache sys → Cache sys
  insert_loaded env n none c = c
  insert_loaded env n (some (j, m)) c = record {
    disk = index_insert sys env j m c.disk;
    loaded = remove_at n c.loaded;
  }

  unfoldable pub step : Operation → Cache sys → Cache sys
  step (writing env key stream range) c = on_disk (write sys env key stream range c.disk).1 c
  step (reading env grants chunk_size key range) c =
      on_disk (read sys env grants chunk_size key range c.disk).1 c
  step (recording_meta env key meta) c = on_disk (record_upstream_meta sys env key meta c.disk).1 c
  step (showing_meta env key) c = on_disk (upstream_meta sys env key c.disk).1 c
  step (deleting env key) c = on_disk (delete sys env key c.disk).1 c
  step (loading env key) c = record c {
    loaded =
        remember (lookup key c.disk.metadata_index) key (load_metadata sys env key c.disk) c.loaded;
  }
  step (inserting env n) c = insert_loaded env n (get_elem? c.loaded n) c

  unfoldable pub run : List Operation → Cache sys → Cache sys
  run [] c = c
  run (o ∷ os) c = run os (step o c)

  -- No look-up of the key is under way.
  abbrev pub IsIdle : String → Cache sys → Type 0
  IsIdle key c = All (λ entry. entry.0 ≢ key) c.loaded

  -- Operations are on the key itself or on keys with other files, and a stream that is written to
  -- the key delivers the bytes of its resource. A deletion of the key may fail on the data file, but
  -- not between the data file and the metadata file, and does not run while a look-up of the key is
  -- under way.
  abbrev pub Allowed : String → (ℕ → ℕ) → Cache sys → Operation → Type 0
  Allowed key origin c (writing env j stream range) =
      (j ≡ key) × Delivers origin range.0 stream ⊎ (get_file_path sys j ≢ get_file_path sys key)
  Allowed key origin c (reading env grants chunk_size j range) = Apart sys key j
  Allowed key origin c (recording_meta env j meta) = Apart sys key j
  Allowed key origin c (showing_meta env j) = Apart sys key j
  Allowed key origin c (deleting env j) =
      (j ≡ key) × (env.remove_metadata ≡ none) × IsIdle key c
      ⊎ (get_file_path sys j ≢ get_file_path sys key)
  Allowed key origin c (loading env j) = Apart sys key j
  Allowed key origin c (inserting env n) = Unit

  -- Each operation is allowed when it comes.
  abbrev pub AllAllowed : String → (ℕ → ℕ) → List Operation → Cache sys → Type 0
  AllAllowed key origin [] c = Unit
  AllAllowed key origin (o ∷ os) c = Allowed key origin c o × AllAllowed key origin os (step o c)
