-- ===== src/Storage/Disk/Write.antt =====
-- `DiskStorage::write` of src/storage/disk.rs: a stream of chunks is written into the data file at
-- the start of the range, and what arrived is recorded as completed.
use video_proxy_server.Prelude.{
  ℕ, suc, ◌+◌, ◌-◌, String, Bool, true, false, ◌&&◌, Option, none, some, List, [], ◌∷◌, ◌++◌, ltb,
  ◌==◌, if◌then◌else◌, length, take, u64_max, checked_add,
}
use video_proxy_server.Map.{nat_eq, list_eq}
use video_proxy_server.Error.{ProxyError, Result, ok, err, storage, text, ok_or}
use video_proxy_server.Exec.{Exec, ◌>>=◌, ◌>>◌, attempt, modify, lift}
use video_proxy_server.Range.{open_ended, range_length}
use video_proxy_server.Storage.Disk.File.{Bytes, content, write_at}
use video_proxy_server.Storage.Disk.Store.{
  System, Env, Disk, set_data_file, get_file_path, record_completed_range,
}

-- Where the loop over the stream stops: the bytes that were counted as written, all that were
-- handed to the buffered writer, the reason for stopping early, and whether the count is exact.
pub record Received : Type 0 where
  pub counted : Bytes
  pub attempted : Bytes
  pub failure : Option ProxyError
  pub prefix_is_recordable : Bool

abbrev stop : Bytes → Bytes → ProxyError → Bool → Received
stop counted attempted e recordable = record {
  counted = counted;
  attempted = attempted;
  failure = some e;
  prefix_is_recordable = recordable;
}

-- `max_length.is_some_and(|maximum| next_written > maximum)`
abbrev pub is_too_long : Option ℕ → ℕ → Bool
is_too_long none next_written = false
is_too_long (some maximum) next_written = ltb maximum next_written

-- The loop: `index` counts the chunks, `written` is the number of bytes in `received`.
unfoldable pub receive : Env → Option ℕ → ℕ → Bytes → List (Result Bytes) → Received
receive env max_length index received [] = record {
  counted = received;
  attempted = received;
  failure = none;
  prefix_is_recordable = true;
}
receive env max_length index received (err e ∷ stream) = stop received received e true
receive env max_length index received (ok chunk ∷ stream) =
    let rest = receive env max_length (suc index) (received ++ chunk) stream in
    if ltb u64_max (length received + length chunk)
    then stop received received (storage (text "写入字节数溢出")) false
    else if is_too_long max_length (length received + length chunk)
    then stop received received (storage (text "上游响应体超过请求的缓存范围")) true
    else elim (env.write_all index) [
      | some e ↦ stop received (received ++ chunk) e false
      | none ↦ rest
    ]

-- `if range.1 == OPEN_ENDED { None } else { Some(range_length(range.0, range.1)?) }`
unfoldable pub max_length_of : ℕ × ℕ → Result (Option ℕ)
max_length_of (start, end) =
    if end == open_ended
    then ok none
    else elim (range_length start end) [ ok n ↦ ok (some n) | err e ↦ err e ]

-- `failure.or(sync_failure)`
abbrev pub or_failure : Option ProxyError → Option ProxyError → Option ProxyError
or_failure none f = f
or_failure (some e) f = some e

-- `Ok(written)`, unless the write was broken off.
abbrev pub finish : Option ProxyError → ℕ → Result ℕ
finish none written = ok written
finish (some e) written = err e

-- `writer.flush()`, and `sync_data()` if that succeeds.
abbrev pub sync_result : Option ProxyError → Option ProxyError → Option ProxyError
sync_result none sync_data = sync_data
sync_result (some e) sync_data = some e

module _ (sys : System) where
  -- Opening creates the file, and keeps what is in it.
  unfoldable pub open_file : String → Disk sys → Disk sys
  open_file key d = set_data_file sys key (some (content (d.data_files (get_file_path sys key)))) d

  unfoldable pub put_bytes : String → ℕ → Bytes → Disk sys → Disk sys
  put_bytes key offset bytes d =
      set_data_file sys key
        (some (write_at (content (d.data_files (get_file_path sys key))) offset bytes)) d

  -- Whether what was received is to be recorded.
  abbrev pub is_recordable : Received → Bool
  is_recordable r = ltb 0 (length r.counted) && r.prefix_is_recordable

  -- The bytes that reach the file: all of them after a flush, else what the buffer had passed on.
  abbrev pub flushed : Env → Option ProxyError → Received → Bytes
  flushed env none r = r.attempted
  flushed env (some e) r = take env.drained r.attempted

  abbrev pub delivered : Env → Received → Bytes
  delivered env r =
      if is_recordable r then flushed env env.flush r else take env.drained r.attempted

  -- The range is recorded once its bytes are on disk; `sync_failure` says that they are not.
  abbrev pub record_synced : Env → String → ℕ → Received → Option ProxyError → Exec (Disk sys) ℕ
  record_synced env key start r (some e) =
      lift (finish (or_failure r.failure (some e)) (length r.counted))
  record_synced env key start r none = do
    end ← lift (ok_or (checked_add start (length r.counted - 1)) (storage (text "写入范围溢出")))
    record_completed_range sys env key start end
    lift (finish r.failure (length r.counted))

  unfoldable pub record_received : Env → String → ℕ → Received → Exec (Disk sys) ℕ
  record_received env key start r =
      if is_recordable r
      then record_synced env key start r (sync_result env.flush env.sync_data)
      else lift (finish r.failure (length r.counted))

  unfoldable pub write : Env → String → List (Result Bytes) → ℕ × ℕ → Exec (Disk sys) ℕ
  write env key stream range = do
    max_length ← lift (max_length_of range)
    attempt env.create_dir
    attempt env.open_file
    modify (open_file key)
    attempt env.seek
    let r = receive env max_length 0 [] stream
    modify (put_bytes key range.0 (delivered env r))
    record_received env key range.0 r
