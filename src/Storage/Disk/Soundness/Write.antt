-- ===== src/Storage/Disk/Soundness/Write.antt =====
-- `write` keeps the cache truthful, on every path through it.
use video_proxy_server.Prelude.{
  ℕ, suc, ◌+◌, ◌-◌, ◌≤◌, ◌<◌, String, ◌≡◌, ◌≢◌, ◌⊎◌, refl, ap, inl, inr, true, Option, none, some,
  List, [], ◌∷◌, ◌++◌, arith, get_elem?, length, u64_max, ltb, Bool-cases, Option-cases,
  length-append, take, checked_add,
}
use video_proxy_server.Map.{nat_eq, list_eq}
use video_proxy_server.Error.{Result, ok, err, ProxyError, ok_or, storage, text}
use video_proxy_server.Exec.{lift}
use video_proxy_server.Exec.Keeps.{Keeps-bind, Keeps-attempt}
use video_proxy_server.Storage.Ranges.{Ranges}
use video_proxy_server.Storage.Disk.File.{Bytes, content, write_at}
use video_proxy_server.Storage.Disk.File.Origin.{
  Matches, Matches-append, Matches-take, write_at-keeps, write_at-new,
}
use video_proxy_server.Storage.Disk.Store.{System, Env, Disk, get_file_path, record_completed_range}
use video_proxy_server.Storage.Disk.Write.{
  Received, receive, is_too_long, max_length_of, open_file, put_bytes, is_recordable, flushed,
  delivered, sync_result, record_synced, record_received, write,
}
use video_proxy_server.Storage.Disk.Soundness.{IsSound, Holds, Delivers}
use video_proxy_server.Storage.Disk.Soundness.Files.{
  set_data_file_self, set_data_file_ne, set_data_file-data_files,
}
use video_proxy_server.Storage.Disk.Soundness.Metadata.{
  record_completed_range_self, update_metadata_ne,
}

-- What the loop promises of a stream that delivers the resource.
pub record IsReceived (origin : ℕ → ℕ) (start : ℕ) (r : Received) : Type 0 where
  pub matches : Matches origin start r.attempted
  pub exact : r.prefix_is_recordable ≡ true → r.attempted ≡ r.counted

pub receive-IsReceived :
    (origin : ℕ → ℕ) (env : Env) (max_length : Option ℕ) (index start next : ℕ) (received : Bytes)
    (stream : List (Result Bytes))
    → start + length received ≡ next
    → Matches origin start received
    → Delivers origin next stream
    → IsReceived origin start (receive env max_length index received stream)
unfolding receive
receive-IsReceived origin env max_length index start next received [] e m h = record {
  matches = m;
  exact = λ _. refl;
}
receive-IsReceived origin env max_length index start next received (err f ∷ stream) e m h = record {
  matches = m;
  exact = λ _. refl;
}
receive-IsReceived origin env max_length index start next received (ok chunk ∷ stream) e m h =
    elim (Bool-cases (ltb u64_max (length received + length chunk))) [
      | inl p ↦ rw p (record { matches = m; exact = λ _. refl })
      | inr p ↦ elim (Bool-cases (is_too_long max_length (length received + length chunk))) [
        | inl q ↦ rw (p, q) (record { matches = m; exact = λ _. refl })
        | inr q ↦
            let longer = Matches-append origin received chunk start next e m h.0 in
            elim (Option-cases (env.write_all index)) [
              | inr (f, w) ↦ rw (p, q, w) (record { matches = longer; exact = λ b. cc })
              | inl w ↦
                  rw (p, q, w)
                    (receive-IsReceived origin env max_length (suc index) start
                      (next + length chunk) (received ++ chunk) stream
                      (omega (arith, length-append received chunk)) longer h.1)
            ]
      ]
    ]

Holds-write_at :
    (origin : ℕ → ℕ) (completed : Ranges) (file : Option Bytes) (offset : ℕ) (bytes : Bytes)
    → Matches origin offset bytes
    → Holds origin completed file
    → Holds origin completed (some (write_at (content file) offset bytes))
Holds-write_at origin completed file offset bytes m h = record {
  table = h.table;
  bytes = λ b held. write_at-keeps origin (content file) offset bytes b m (h.bytes b held);
}

module _ (sys : System) (key : String) (origin : ℕ → ℕ) where
  pub open_file_self :
      (d : Disk sys) → IsSound sys key origin d → IsSound sys key origin (open_file sys key d)
  unfolding open_file
  open_file_self d s =
      set_data_file_self sys key origin _ d
        (λ completed h. record { table = h.table; bytes = h.bytes }) s

  pub put_bytes_self :
      (offset : ℕ) (bytes : Bytes) (d : Disk sys)
      → Matches origin offset bytes
      → IsSound sys key origin d
      → IsSound sys key origin (put_bytes sys key offset bytes d)
  unfolding put_bytes
  put_bytes_self offset bytes d m s =
      set_data_file_self sys key origin _ d
        (λ completed h. Holds-write_at origin completed _ offset bytes m h) s

  -- What was put there can be read there.
  pub put_bytes-content :
      (offset : ℕ) (bytes : Bytes) (d : Disk sys)
      → content ((put_bytes sys key offset bytes d).data_files (get_file_path sys key))
        ≡ write_at (content (d.data_files (get_file_path sys key))) offset bytes
  unfolding put_bytes
  put_bytes-content offset bytes d = ap content (set_data_file-data_files sys key _ d)

  -- A range is recorded only if its bytes are in the file.
  record_synced_self :
      (env : Env) (start : ℕ) (r : Received) (sync : Option ProxyError) (d : Disk sys)
      → IsSound sys key origin d
      → 0 < length r.counted
      → (sync ≡ none
          → (b : ℕ) → start ≤ b
          → b < start + length r.counted
          → get_elem? (content (d.data_files (get_file_path sys key))) b ≡ some (origin b))
      → IsSound sys key origin (record_synced sys env key start r sync d).1
  record_synced_self env start r (some e) d s some_bytes new = s
  record_synced_self env start r none d s some_bytes new =
      Keeps-bind (IsSound sys key origin)
        (lift (ok_or (checked_add start (length r.counted - 1)) (storage (text "写入范围溢出")))) _ d s
        (λ end e.
          Keeps-bind (IsSound sys key origin) (record_completed_range sys env key start end) _ d
            (record_completed_range_self sys key origin env start end d s (ground (arith, e))
              (ground (arith, e)) (λ b lo hi. new refl b lo (ground (arith, e))))
            (λ _ _.
              record_completed_range_self sys key origin env start end d s (ground (arith, e))
                (ground (arith, e)) (λ b lo hi. new refl b lo (ground (arith, e)))))

  pub flushed-Matches :
      (env : Env) (start : ℕ) (r : Received) (f : Option ProxyError)
      → IsReceived origin start r
      → Matches origin start (flushed sys env f r)
  flushed-Matches env start r none h = h.matches
  flushed-Matches env start r (some e) h =
      Matches-take origin env.drained r.attempted start h.matches

  flushed-counted :
      (env : Env) (start : ℕ) (r : Received) (f g : Option ProxyError)
      → IsReceived origin start r
      → r.prefix_is_recordable ≡ true
      → sync_result f g ≡ none
      → flushed sys env f r ≡ r.counted
  flushed-counted env start r none g h p e = h.exact p
  flushed-counted env start r (some e) g h p q = cc

  -- The bytes of the loop go into the file, and are recorded if they are exact and on disk.
  store_received_self :
      (env : Env) (start : ℕ) (r : Received) (d : Disk sys)
      → IsReceived origin start r
      → IsSound sys key origin d
      → IsSound sys key origin
          (record_received sys env key start r (put_bytes sys key start (delivered sys env r) d)).1
  unfolding record_received
  store_received_self env start r d received s = elim (Bool-cases (is_recordable sys r)) [
    | inr no_record ↦ rw no_record (
        put_bytes_self start (take env.drained r.attempted) d
          (Matches-take origin env.drained r.attempted start received.matches) s)
    | inl recorded ↦ rw recorded (
        record_synced_self env start r (sync_result env.flush env.sync_data)
          (put_bytes sys key start (flushed sys env env.flush r) d)
          (put_bytes_self start (flushed sys env env.flush r) d
            (flushed-Matches env start r env.flush received) s)
          (ground (arith, recorded))
          (λ synced b lo hi. rw put_bytes-content (
            write_at-new origin (content (d.data_files (get_file_path sys key))) start
              (flushed sys env env.flush r) b (flushed-Matches env start r env.flush received) lo
              (rw
                (← flushed-counted env start r env.flush env.sync_data received
                  (ground (arith, recorded)) synced)
                at hi))))
  ]

  write_self :
      (env : Env) (stream : List (Result Bytes)) (range : ℕ × ℕ) (d : Disk sys)
      → IsSound sys key origin d
      → Delivers origin range.0 stream
      → IsSound sys key origin (write sys env key stream range d).1
  unfolding write
  write_self env stream range d s h =
      let P : Disk sys → Type 0 = IsSound sys key origin in
      let opened = open_file_self d s in
      Keeps-bind P (lift (max_length_of range)) _ d s λ max_length e.
        Keeps-attempt P env.create_dir _ d s (
          Keeps-attempt P env.open_file _ d s (
            Keeps-attempt P env.seek _ (open_file sys key d) opened (
              store_received_self env range.0 (receive env max_length 0 [] stream)
                (open_file sys key d)
                (receive-IsReceived origin env max_length 0 range.0 range.0 [] stream (omega arith)
                  tt h)
                opened)))

  record_synced_ne :
      (env : Env) (j : String) (start : ℕ) (r : Received) (sync : Option ProxyError) (d : Disk sys)
      → get_file_path sys j ≢ get_file_path sys key
      → IsSound sys key origin d
      → IsSound sys key origin (record_synced sys env j start r sync d).1
  unfolding record_completed_range
  record_synced_ne env j start r (some e) d ne s = s
  record_synced_ne env j start r none d ne s =
      let P : Disk sys → Type 0 = IsSound sys key origin in
      Keeps-bind P
        (lift (ok_or (checked_add start (length r.counted - 1)) (storage (text "写入范围溢出")))) _ d s
        λ end e.
          let recorded = update_metadata_ne sys key origin env j _ d ne s in
          Keeps-bind P (record_completed_range sys env j start end) _ d recorded (λ _ _. recorded)

  record_received_ne :
      (env : Env) (j : String) (start : ℕ) (r : Received) (d : Disk sys)
      → get_file_path sys j ≢ get_file_path sys key
      → IsSound sys key origin d
      → IsSound sys key origin (record_received sys env j start r d).1
  unfolding record_received
  record_received_ne env j start r d ne s = elim (Bool-cases (is_recordable sys r)) [
    | inl p ↦ rw p (record_synced_ne env j start r (sync_result env.flush env.sync_data) d ne s)
    | inr p ↦ rw p s
  ]

  write_ne :
      (env : Env) (j : String) (stream : List (Result Bytes)) (range : ℕ × ℕ) (d : Disk sys)
      → get_file_path sys j ≢ get_file_path sys key
      → IsSound sys key origin d
      → IsSound sys key origin (write sys env j stream range d).1
  unfolding write open_file put_bytes
  write_ne env j stream range d ne s =
      let P : Disk sys → Type 0 = IsSound sys key origin in
      let opened = set_data_file_ne sys key origin j _ d ne s in
      Keeps-bind P (lift (max_length_of range)) _ d s λ max_length e.
        Keeps-attempt P env.create_dir _ d s (
          Keeps-attempt P env.open_file _ d s (
            Keeps-attempt P env.seek _ (open_file sys j d) opened (
              record_received_ne env j range.0 (receive env max_length 0 [] stream)
                (put_bytes sys j range.0 (delivered sys env (receive env max_length 0 [] stream))
                  (open_file sys j d))
                ne (set_data_file_ne sys key origin j _ (open_file sys j d) ne opened))))

-- Whatever fails on the way, a write keeps the cached bytes of a key truthful: a write to the key
-- itself, of a stream that delivers the bytes of the resource from the start of the range and may
-- break off anywhere, and a write of any stream to a key that has other files.
pub write-IsSound :
    (sys : System) (key : String) (origin : ℕ → ℕ) (env : Env) (j : String)
    (stream : List (Result Bytes)) (range : ℕ × ℕ) (d : Disk sys)
    → IsSound sys key origin d
    → (j ≡ key) × Delivers origin range.0 stream ⊎ (get_file_path sys j ≢ get_file_path sys key)
    → IsSound sys key origin (write sys env j stream range d).1
write-IsSound sys key origin env j stream range d s (inl (same, h)) =
    rw same (write_self sys key origin env stream range d s h)
write-IsSound sys key origin env j stream range d s (inr ne) =
    write_ne sys key origin env j stream range d ne s
