-- ===== src/Storage/Disk/Store.antt =====
-- src/storage/disk.rs: the state of `DiskStorage`, its paths, and the only way in which metadata is
-- read and written. `sha256_hex` is that of src/utils/digest.rs.
--
-- The file system and the in-memory index are one state. A call of the system may fail: an `Env`
-- says which calls of an operation do.
use video_proxy_server.Prelude.{
  ℕ, ◌/◌, ◌%◌, String, Bool, true, false, not, ◌&&◌, ◌≡◌, Option, none, some, List, [], ◌∷◌, leb,
  if◌then◌else◌, length, take, drop, get_elem?, codes, arith, Bool-cases, inl, inr,
}
use video_proxy_server.Map.{
  string_eq, nat_eq, list_eq, ◌=?◌, lookup, insert, remove, contains_key, lookup-remove,
}
use video_proxy_server.Error.{ProxyError}
use video_proxy_server.Exec.{Exec, ◌>>◌, attempt, modify, pure}
use video_proxy_server.Strings.{Text}
use video_proxy_server.Storage.Ranges.{merge_range}
use video_proxy_server.Storage.Disk.File.{Bytes}
use video_proxy_server.Storage.Disk.Metadata.{
  RangeMetadata, default_metadata, range_metadata_version, metadata_is_valid,
}

-- What the storage takes from other packages: `serde_json` for the metadata, of which it relies on
-- reading back what it wrote, and `Sha256::digest`.
pub record System : Type 1 where
  pub Blob : Type 0
  pub to_vec : RangeMetadata → Blob
  pub from_slice : Blob → Option RangeMetadata
  pub from_slice-to_vec : (m : RangeMetadata) → from_slice (to_vec m) ≡ some m
  pub digest : String → List ℕ

abbrev pub write_lock_shards : ℕ
write_lock_shards = 64

abbrev pub max_indexed_keys : ℕ
max_indexed_keys = 4096

hex_digit : ℕ → ℕ
hex_digit n = elim (get_elem? (codes "0123456789abcdef") n) [ none ↦ 0 | some c ↦ c ]

hex : List ℕ → Text
unfolding hex_digit
hex [] = []
hex (byte ∷ bytes) = hex_digit (byte / 16) ∷ hex_digit (byte % 16) ∷ hex bytes

-- A path below the root directory of the cache, by its components.
abbrev pub FilePath : Type 0
FilePath = List Text

abbrev pub update {ℓ} : {V : Type ℓ} → FilePath → V → (FilePath → V) → FilePath → V
update p v f q = if p =? q then v else f q

-- What the environment decides during an operation: the calls that fail, how many bytes a writer
-- had passed on when it was dropped, whether the metadata file can be read and
-- the size of the data file be found out, and which entry a full
-- index gives up.
pub record Env : Type 0 where
  pub create_dir : Option ProxyError
  pub open_file : Option ProxyError
  pub seek : Option ProxyError
  pub write_all : ℕ → Option ProxyError
  pub drained : ℕ
  pub flush : Option ProxyError
  pub sync_data : Option ProxyError
  pub unreadable : Bool
  pub no_size : Bool
  pub metadata_dir : Option ProxyError
  pub metadata_write : Option ProxyError
  pub metadata_rename : Option ProxyError
  pub victim : ℕ
  pub remove_data : Option ProxyError
  pub remove_metadata : Option ProxyError

-- No call fails.
abbrev pub calm : Env
calm = record {
  create_dir = none;
  open_file = none;
  seek = none;
  write_all = λ _. none;
  drained = 0;
  flush = none;
  sync_data = none;
  unreadable = false;
  no_size = false;
  metadata_dir = none;
  metadata_write = none;
  metadata_rename = none;
  victim = 0;
  remove_data = none;
  remove_metadata = none;
}

-- The key of the `n`-th entry of a map.
abbrev key_at {ℓ} : {V : Type ℓ} → List (String × V) → ℕ → Option String
key_at m n = elim (get_elem? m n) [ none ↦ none | some e ↦ some e.0 ]

module _ (sys : System) where
  pub record Disk : Type 0 where
    pub data_files : FilePath → Option Bytes
    pub metadata_files : FilePath → Option sys.Blob
    pub metadata_index : List (String × RangeMetadata)

  -- An empty cache directory.
  abbrev pub empty_disk : Disk
  empty_disk = record { data_files = λ _. none; metadata_files = λ _. none; metadata_index = [] }

  unfoldable pub sha256_hex : String → Text
  unfolding hex
  sha256_hex input = hex (sys.digest input)

  abbrev first_byte : List ℕ → ℕ
  first_byte [] = 0
  first_byte (b ∷ bytes) = b

  unfoldable pub shard_of : String → ℕ
  shard_of key = first_byte (sys.digest key) % write_lock_shards

  -- The metadata file has the same path with another extension.
  unfoldable pub get_file_path : String → FilePath
  unfolding sha256_hex
  get_file_path key = let hash = sha256_hex key in take 2 hash ∷ take 2 (drop 2 hash) ∷ hash ∷ []

  -- A data file takes a new content, or goes.
  unfoldable pub set_data_file : String → Option Bytes → Disk → Disk
  set_data_file key file d = record d { data_files = update (get_file_path key) file d.data_files }

  unfoldable pub data_file_size : Env → String → Disk → Option ℕ
  data_file_size env key d = if env.no_size then none else elim (d.data_files (get_file_path key)) [
    | none ↦ none
    | some bytes ↦ some (length bytes)
  ]

  -- A file that is missing, unreadable, corrupt or not to be believed gives `none`.
  unfoldable pub load_metadata : Env → String → Disk → Option RangeMetadata
  load_metadata env key d =
      if env.unreadable then none else elim (d.metadata_files (get_file_path key)) [
        | none ↦ none
        | some blob ↦ elim (sys.from_slice blob) [
          | none ↦ none
          | some m ↦ if metadata_is_valid m key (data_file_size env key d) then some m else none
        ]
      ]

  abbrev drop_entry : Option String → List (String × RangeMetadata) → List (String × RangeMetadata)
  drop_entry none index = index
  drop_entry (some key) index = remove key index

  lookup-drop_entry :
      (o : Option String) (j : String) (index : List (String × RangeMetadata)) (m : RangeMetadata)
      → lookup j (drop_entry o index) ≡ some m
      → lookup j index ≡ some m
  lookup-drop_entry none j index m h = h
  lookup-drop_entry (some k) j index m h = ground (arith, lookup-remove k j index)

  -- A full index gives up any one entry before it takes a new key.
  unfoldable pub make_room :
      Env → String → List (String × RangeMetadata) → List (String × RangeMetadata)
  make_room env key index =
      if leb max_indexed_keys (length index) && not (contains_key key index)
      then drop_entry (key_at index (env.victim % length index)) index
      else index

  unfoldable pub index_insert : Env → String → RangeMetadata → Disk → Disk
  index_insert env key m d = record d {
    metadata_index = insert key m (make_room env key d.metadata_index);
  }

  pub lookup-make_room :
      (env : Env) (key j : String) (index : List (String × RangeMetadata)) (m : RangeMetadata)
      → lookup j (make_room env key index) ≡ some m
      → lookup j index ≡ some m
  unfolding make_room
  lookup-make_room env key j index m h =
      elim (Bool-cases (leb max_indexed_keys (length index) && not (contains_key key index))) [
        | inr few ↦ rw few at h
        | inl full ↦
            lookup-drop_entry (key_at index (env.victim % length index)) j index m (rw full at h)
      ]

  abbrev view_loaded {ℓ} :
      {A : Type ℓ} → Env → String → (RangeMetadata → A) → Disk → Option RangeMetadata → A × Disk
  view_loaded env key view d none = (view default_metadata, d)
  view_loaded env key view d (some m) = (view m, index_insert env key m d)

  abbrev view_indexed {ℓ} :
      {A : Type ℓ} → Env → String → (RangeMetadata → A) → Disk → Option RangeMetadata → A × Disk
  view_indexed env key view d (some m) = (view m, d)
  view_indexed env key view d none = view_loaded env key view d (load_metadata env key d)

  -- Without another operation between its loading and its inserting, for which no lock is taken: the
  -- two are apart in Storage/Disk/Soundness/Steps.
  unfoldable pub with_metadata {ℓ} :
      {A : Type ℓ} → Env → String → (RangeMetadata → A) → Disk → A × Disk
  with_metadata env key view d = view_indexed env key view d (lookup key d.metadata_index)

  -- The renamed file takes the place of the metadata file.
  unfoldable pub put_metadata : String → RangeMetadata → Disk → Disk
  put_metadata key m d = record d {
    metadata_files = update (get_file_path key) (some (sys.to_vec m)) d.metadata_files;
  }

  -- The file is written under a temporary name and renamed.
  unfoldable pub write_metadata : Env → String → RangeMetadata → Exec Disk (Unit {0})
  write_metadata env key m = do
    attempt env.metadata_dir
    attempt env.metadata_write
    attempt env.metadata_rename
    modify (put_metadata key m)

  abbrev or_default : Option RangeMetadata → RangeMetadata
  or_default none = default_metadata
  or_default (some m) = m

  abbrev or_load : Env → String → Disk → Option RangeMetadata → RangeMetadata
  or_load env key d none = or_default (load_metadata env key d)
  or_load env key d (some m) = m

  -- The metadata that an update starts from: the index, the disk, or the default.
  unfoldable pub current_metadata : Env → String → Disk → RangeMetadata
  current_metadata env key d = or_load env key d (lookup key d.metadata_index)

  abbrev pub stamp : String → RangeMetadata → RangeMetadata
  stamp key m = record m { key = some key; version = range_metadata_version }

  -- The file first, then the index, which is never ahead of the disk.
  unfoldable pub save_metadata : Env → String → RangeMetadata → Exec Disk (Unit {0})
  save_metadata env key m = do write_metadata env key m; modify (index_insert env key m)

  abbrev pub save_if : Env → String → RangeMetadata × Bool → Exec Disk (Unit {0})
  save_if env key (m, true) = save_metadata env key (stamp key m)
  save_if env key (m, false) = pure tt

  -- `edit` returns the new metadata, and whether it changed anything.
  unfoldable pub update_metadata :
      Env → String → (RangeMetadata → RangeMetadata × Bool) → Exec Disk (Unit {0})
  update_metadata env key edit d = save_if env key (edit (current_metadata env key d)) d

  unfoldable pub record_completed_range : Env → String → ℕ → ℕ → Exec Disk (Unit {0})
  record_completed_range env key start end =
      update_metadata env key
        (λ m. (record m { completed = merge_range m.completed start end }, true))
