-- ===== src/Storage/Disk/Soundness/Progress.antt =====
-- What a write achieves when nothing fails.
use video_proxy_server.Prelude.{
  ℕ, suc, ◌+◌, ◌-◌, ◌≤◌, ◌<◌, String, ◌≡◌, ap, ◌∙◌, true, false, none, some, List, [], ◌∷◌, ◌++◌,
  append_assoc, append-nil, arith, length, u64_max, ltb, ◌==◌, length-append, checked_add,
}
use video_proxy_server.Map.{string_eq, nat_eq, list_eq, lookup, lookup-insert, =?-refl}
use video_proxy_server.Error.{Result, ok}
use video_proxy_server.Range.{open_ended, range_length}
use video_proxy_server.Storage.Ranges.{is_covered, merge_range}
use video_proxy_server.Storage.Ranges.Merge.{merge_range-IsTable, merge_range-has_byte}
use video_proxy_server.Storage.Ranges.Query.{is_covered_iff}
use video_proxy_server.Storage.Disk.File.{Bytes, content, write_at}
use video_proxy_server.Storage.Disk.Metadata.{RangeMetadata}
use video_proxy_server.Storage.Disk.Store.{
  System, Env, calm, Disk, get_file_path, current_metadata, index_insert, put_metadata,
  write_metadata, save_metadata, update_metadata, record_completed_range, with_metadata, stamp,
  data_file_size,
}
use video_proxy_server.Storage.Disk.Write.{
  Received, receive, max_length_of, open_file, put_bytes, record_received, write,
}
use video_proxy_server.Storage.Disk.Read.{covers_to, check_range}
use video_proxy_server.Storage.Disk.File.Origin.{Matches}
use video_proxy_server.Storage.Disk.Soundness.{IsSound, Holds}
use video_proxy_server.Storage.Disk.Soundness.Write.{open_file_self, put_bytes_self}
use video_proxy_server.Storage.Disk.Soundness.Metadata.{current_metadata-Holds}
use video_proxy_server.Storage.Disk.Soundness.Files.{set_data_file-data_files}

-- A stream without errors, and all of its bytes.
abbrev pub oks : List Bytes → List (Result Bytes)
oks [] = []
oks (chunk ∷ chunks) = ok chunk ∷ oks chunks

abbrev pub joined : List Bytes → Bytes
joined [] = []
joined (chunk ∷ chunks) = chunk ++ joined chunks

abbrev all_of : Bytes → Received
all_of bytes = record {
  counted = bytes;
  attempted = bytes;
  failure = none;
  prefix_is_recordable = true;
}

receive-oks :
    (maximum index : ℕ) (received : Bytes) (chunks : List Bytes)
    → length received + length (joined chunks) ≤ maximum
    → maximum ≤ u64_max
    → receive calm (some maximum) index received (oks chunks) ≡ all_of (received ++ joined chunks)
unfolding receive
receive-oks maximum index received [] h p = rw append-nil
receive-oks maximum index received (chunk ∷ chunks) h p =
    let no_overflow : ltb u64_max (length received + length chunk) ≡ false =
      ground (arith, length-append chunk (joined chunks)) in
    let no_excess : ltb maximum (length received + length chunk) ≡ false =
      ground (arith, length-append chunk (joined chunks)) in
    rw (no_overflow, no_excess)
      (receive-oks maximum (suc index) (received ++ chunk) chunks
          (omega (arith, length-append chunk (joined chunks), length-append received chunk)) p
        ∙ ap all_of (append_assoc received chunk (joined chunks)))

check_closed :
    (sys : System) (env : Env) (key : String) (start end : ℕ) (d : Disk sys)
    → end < open_ended
    → check_range sys env key (start, end) d ≡ covers_to sys env key start (some end, d)
unfolding check_range
check_closed sys env key start end d p =
    let closed : (end == open_ended) ≡ false = ground arith in rw closed

module _ (sys : System) (key : String) (start : ℕ) (bytes : Bytes) (d : Disk sys) where
  -- The state after the bytes are in the file and recorded.
  written : Disk sys
  written = put_bytes sys key start bytes (open_file sys key d)

  last : ℕ
  last = start + (length bytes - 1)

  recorded : RangeMetadata
  recorded =
      let m = current_metadata sys calm key written in
      stamp sys key (record m { completed = merge_range m.completed start last })

  abbrev after : Disk sys
  after = index_insert sys calm key recorded (put_metadata sys key recorded written)

  record_received-calm :
      0 < length bytes
      → start + length bytes ≤ u64_max
      → record_received sys calm key start (all_of bytes) written ≡ (ok (length bytes), after)
  unfolding record_received record_completed_range update_metadata save_metadata write_metadata
      recorded last
  record_received-calm p q =
      let some_bytes : ltb 0 (length bytes) ≡ true = ground arith in
      let no_overflow : checked_add start (length bytes - 1) ≡ some (start + (length bytes - 1)) =
        ground arith in
      rw (some_bytes, no_overflow)

  new_content : Bytes
  new_content =
      write_at (content ((open_file sys key d).data_files (get_file_path sys key))) start bytes

  after-data_files : after.data_files (get_file_path sys key) ≡ some new_content
  unfolding index_insert put_metadata written put_bytes new_content
  after-data_files = set_data_file-data_files sys key _ (open_file sys key d)

  stored_file : data_file_size sys calm key after ≡ some (length new_content)
  unfolding data_file_size
  stored_file = rw (after-data_files, data_file_size)

  -- The index answers with the metadata that was just recorded.
  recorded_indexed : lookup key after.metadata_index ≡ some recorded
  unfolding index_insert
  recorded_indexed = rw (lookup-insert, =?-refl key)

  check_range-recorded :
      is_covered recorded.completed start last ≡ true
      → last < open_ended
      → (check_range sys calm key (start, last) after).0 ≡ true
  unfolding check_range with_metadata
  check_range-recorded h p =
      rw (check_closed sys calm key start last after p, recorded_indexed) (rw (h, stored_file))

  recorded-covers :
      (origin : ℕ → ℕ)
      → Holds origin
          (current_metadata sys calm key written).completed
          (written.data_files (get_file_path sys key))
      → last ≤ u64_max
      → is_covered recorded.completed start last ≡ true
  unfolding recorded last
  recorded-covers origin h p =
      let old = (current_metadata sys calm key written).completed in
      (is_covered_iff (merge_range old start last) start last
          (merge_range-IsTable old start last h.table (omega arith) p) (omega arith)).1
        (λ b lo hi. ground (arith, merge_range-has_byte old start last b h.table))

write-calm :
    (sys : System) (key : String) (chunks : List Bytes) (start end : ℕ) (d : Disk sys)
    → start ≤ end
    → end < open_ended
    → 0 < length (joined chunks)
    → length (joined chunks) ≤ end - start + 1
    → write sys calm key (oks chunks) (start, end) d
      ≡ (ok (length (joined chunks)), after sys key start (joined chunks) d)
unfolding write
write-calm sys key chunks start end d p q some_bytes fits =
    let limit : max_length_of (start, end) ≡ ok (some (end - start + 1)) =
      unfold max_length_of range_length in ground arith in
    let flushed : ltb 0 (length (joined chunks)) ≡ true = ground arith in
    rw (limit, receive-oks (end - start + 1) 0 [] chunks (omega arith) (omega arith), flushed)
      (unfold written in
        record_received-calm sys key start (joined chunks) d some_bytes (omega arith))

-- When nothing fails and the cache is truthful, a stream of the bytes of the resource, at least one
-- of them, that fits into a closed range is written whole: the write returns its length, and the
-- bytes that it wrote are then reported as cached.
pub write_then_cached :
    (sys : System) (key : String) (origin : ℕ → ℕ) (chunks : List Bytes) (start end : ℕ)
    (d : Disk sys)
    → IsSound sys key origin d
    → Matches origin start (joined chunks)
    → start ≤ end
    → end < open_ended
    → 0 < length (joined chunks)
    → length (joined chunks) ≤ end - start + 1
    → ((write sys calm key (oks chunks) (start, end) d).0 ≡ ok (length (joined chunks)))
      × ((check_range sys calm key
            (start, start + (length (joined chunks) - 1))
            (write sys calm key (oks chunks) (start, end) d).1).0
          ≡ true)
unfolding written last
write_then_cached sys key origin chunks start end d s m p q some_bytes fits =
    let bytes = joined chunks in
    let sound =
      put_bytes_self sys key origin start bytes (open_file sys key d) m
        (open_file_self sys key origin d s) in
    let done = write-calm sys key chunks start end d p q some_bytes fits in
    let covered =
      recorded-covers sys key start bytes d origin
        (current_metadata-Holds sys key origin calm _ sound) (omega arith) in
    (rw done, rw done (check_range-recorded sys key start bytes d covered (omega arith)))
