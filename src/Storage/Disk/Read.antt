-- ===== src/Storage/Disk/Read.antt =====
-- The reading half of `DiskStorage` in src/storage/disk.rs, and `record_upstream_meta`.
use video_proxy_server.Prelude.{
  ℕ, zero, suc, ◌+◌, ◌-◌, min, String, Bool, true, false, ◌&&◌, ◌||◌, not, Option, none, some, List,
  [], ◌∷◌, leb, ltb, ◌==◌, if◌then◌else◌, length, take, drop, checked_sub,
}
use video_proxy_server.Map.{string_eq, nat_eq, list_eq, ◌=?◌, remove}
use video_proxy_server.Error.{Result, ok, err, storage, io, text, format}
use video_proxy_server.Exec.{Exec, ◌>>=◌, ◌>>◌, attempt, modify, lift, pure, raise}
use video_proxy_server.Range.{open_ended, range_length}
use video_proxy_server.Storage.Ranges.{is_covered}
use video_proxy_server.Storage.Disk.File.{Bytes}
use video_proxy_server.Storage.Disk.Metadata.{RangeMetadata}
use video_proxy_server.Storage.Disk.Store.{
  System, Env, Disk, update, set_data_file, get_file_path, data_file_size, with_metadata,
  update_metadata,
}

-- src/storage/mod.rs
pub record UpstreamMeta : Type 0 where
  pub total_size : Option ℕ
  pub content_type : Option String

abbrev pub is_none {ℓ} : {A : Type ℓ} → Option A → Bool
is_none none = true
is_none (some a) = false

-- `checked_sub(1)` under `Option`
abbrev last_byte : Option ℕ → Option ℕ
last_byte none = none
last_byte (some size) = checked_sub size 1

-- `known_end` of an open range: the declared total wins over the length of the file.
abbrev known_end : Option ℕ → Option ℕ → Option ℕ
known_end none file_size = last_byte file_size
known_end (some total) file_size = checked_sub total 1

-- The two fields that `record_upstream_meta` may change.
abbrev is_new_total : Option ℕ → Option ℕ → Bool
is_new_total none old = false
is_new_total (some total) none = ltb 0 total
is_new_total (some total) (some old) = ltb 0 total && not (old == total)

abbrev is_new_type : Option String → Option String → Bool
is_new_type none old = false
is_new_type (some content_type) none = true
is_new_type (some content_type) (some old) = not (old =? content_type)

unfoldable pub merge_upstream_meta : UpstreamMeta → RangeMetadata → RangeMetadata × Bool
merge_upstream_meta meta m =
    let new_total = is_new_total meta.total_size m.total_size in
    let new_type = is_new_type meta.content_type m.content_type in
    (
      record m {
        total_size = if new_total then meta.total_size else m.total_size;
        content_type = if new_type then meta.content_type else m.content_type;
      },
      new_total || new_type,
    )

-- The stream of a read. A round asks for a chunk, or for what is left of the range. The system may
-- fail or give less: `grants` says so for each round, but at least one byte comes while the file has
-- more. At the end of the file nothing comes, and the stream ends with an error.
unfoldable pub read_stream : ℕ → (ℕ → Result ℕ) → Bytes → ℕ → ℕ → ℕ → List (Result Bytes)
read_stream zero grants rest chunk_size bytes_read total_bytes = []
read_stream (suc fuel) grants rest chunk_size bytes_read total_bytes =
    if leb total_bytes bytes_read then [] else elim (grants fuel) [
      | err e ↦ err e ∷ []
      | ok grant ↦
          let to_read = min chunk_size (total_bytes - bytes_read) in
          let n = min to_read (min (length rest) (suc grant)) in
          let more =
            read_stream fuel grants (drop n rest) chunk_size (bytes_read + n) total_bytes in
          if n == 0
          then err (storage (format "缓存文件意外截断: 已读 {}/{} 字节" (bytes_read ∷ total_bytes ∷ []))) ∷ []
          else ok (take n rest) ∷ more
    ]

module _ (sys : System) where
  unfoldable pub get_size : Env → String → Disk sys → Option ℕ
  get_size env key d = data_file_size sys env key d

  abbrev pub requested_end : Env → String → ℕ → Disk sys → Option ℕ × Disk sys
  requested_end env key end d =
      if end == open_ended
      then (let (total, d') = with_metadata sys env key (λ m. m.total_size) d in
          (known_end total (data_file_size sys env key d'), d'))
      else (some end, d)

  abbrev pub covers_to : Env → String → ℕ → Option ℕ × Disk sys → Bool × Disk sys
  covers_to env key start (none, d) = (false, d)
  covers_to env key start (some end, d) =
      let (covered, d') = with_metadata sys env key (λ m. is_covered m.completed start end) d in
      (covered && not (is_none (data_file_size sys env key d')), d')

  unfoldable pub check_range : Env → String → ℕ × ℕ → Disk sys → Bool × Disk sys
  check_range env key (start, end) d = covers_to env key start (requested_end env key end d)

  -- The range inside the file that a read streams, and the bytes of the file from its start on.
  unfoldable pub locate : ℕ × ℕ → Option Bytes → Result (ℕ × Bytes)
  locate range none = err (io (text "No such file or directory"))
  locate (start, end) (some bytes) =
      if leb (length bytes) start
      then err (storage (text "请求范围超出文件大小"))
      else (let last = length bytes - 1 in
          let stop = if end == open_ended then last else min end last in
          elim (range_length start stop) [ ok n ↦ ok (n, drop start bytes) | err e ↦ err e ])

  -- The file is opened, the range located in it, and the stream made.
  unfoldable pub stream_file :
      Env → (ℕ → Result ℕ) → ℕ → ℕ × ℕ → Option Bytes → Exec (Disk sys) (List (Result Bytes))
  stream_file env grants chunk_size range file = do
    attempt env.open_file
    located ← lift (locate range file)
    attempt env.seek
    pure (read_stream (suc located.0) grants located.1 chunk_size 0 located.0)

  -- Without another operation between the test, the opening of the file and the end of the stream.
  unfoldable pub read :
      Env → (ℕ → Result ℕ) → ℕ → String → ℕ × ℕ → Exec (Disk sys) (List (Result Bytes))
  read env grants chunk_size key range d =
      let (cached, d') = check_range env key range d in
      if cached
      then stream_file env grants chunk_size range (d'.data_files (get_file_path sys key)) d'
      else raise (storage (text "请求范围尚未完整缓存")) d'

  unfoldable pub record_upstream_meta : Env → String → UpstreamMeta → Exec (Disk sys) (Unit {0})
  unfolding merge_upstream_meta
  record_upstream_meta env key meta =
      if is_none meta.total_size && is_none meta.content_type
      then pure tt
      else update_metadata sys env key (merge_upstream_meta meta)

  unfoldable pub upstream_meta : Env → String → Disk sys → UpstreamMeta × Disk sys
  upstream_meta env key =
      with_metadata sys env key
        (λ m. record { total_size = m.total_size; content_type = m.content_type })

  unfoldable pub drop_indexed : String → Disk sys → Disk sys
  drop_indexed key d = record d { metadata_index = remove key d.metadata_index }

  unfoldable pub drop_metadata_file : String → Disk sys → Disk sys
  drop_metadata_file key d = record d {
    metadata_files = update (get_file_path sys key) none d.metadata_files;
  }

  -- The index first, then the data file, then the metadata file; a missing file is no error.
  unfoldable pub delete : Env → String → Exec (Disk sys) (Unit {0})
  delete env key = do
    modify (drop_indexed key)
    attempt env.remove_data
    modify (set_data_file sys key none)
    attempt env.remove_metadata
    modify (drop_metadata_file key)
