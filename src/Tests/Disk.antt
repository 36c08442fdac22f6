-- ===== src/Tests/Disk.antt =====
-- Tests of the disk cache.
use video_proxy_server.Tee.{Channels, left, sent, full, timed_out, forward_upstream}
use video_proxy_server.Tee.Caching.{forward_upstream-IsSound}
use video_proxy_server.Prelude.{
  ℕ, suc, ◌+◌, ◌-◌, ◌≤◌, ◌≡◌, refl, ◌↔◌, true, ◌||◌, none, some, List, [], ◌∷◌, arith, codes, inl,
  length, ◌==◌, if◌then◌else◌,
}
use video_proxy_server.Map.{lookup, insert, remove}
use video_proxy_server.Error.{Result, ok, err, network, io, text}
use video_proxy_server.Range.{range_length}
use video_proxy_server.Storage.Ranges.{Ranges, merge_range, is_covered}
use video_proxy_server.Storage.Ranges.Table.{IsTable, is_in, has_byte}
use video_proxy_server.Storage.Ranges.Merge.{merge_range-IsTable, merge_range-has_byte}
use video_proxy_server.Storage.Ranges.Query.{is_covered_iff}
use video_proxy_server.Storage.Disk.File.{Bytes, write_at}
use video_proxy_server.Storage.Disk.File.Origin.{Matches}
use video_proxy_server.Storage.Disk.Metadata.{
  RangeMetadata, metadata_is_valid, IsCredible, metadata_is_valid_iff,
}
use video_proxy_server.Storage.Disk.Store.{
  System, Env, calm, empty_disk, get_file_path, load_metadata, data_file_size, make_room,
  index_insert, with_metadata, write_metadata, put_metadata, current_metadata, save_metadata,
  update_metadata, record_completed_range, set_data_file,
}
use video_proxy_server.Storage.Disk.Write.{
  receive, max_length_of, open_file, put_bytes, record_received, write,
}
use video_proxy_server.Storage.Disk.Read.{
  check_range, locate, stream_file, read_stream, read, delete, drop_indexed, drop_metadata_file,
}
use video_proxy_server.Storage.Disk.Soundness.{IsSound}
use video_proxy_server.Storage.Disk.Soundness.Metadata.{IsSound-empty}
use video_proxy_server.Storage.Disk.Soundness.Write.{write-IsSound}
use video_proxy_server.Storage.Disk.Soundness.Read.{Outcome, collect}
use video_proxy_server.Storage.Disk.Soundness.Steps.{
  Operation, writing, deleting, loading, inserting, start_cache, step, run,
}
use video_proxy_server.Storage.Disk.Soundness.History.{history_read_exact}
use video_proxy_server.Storage.Disk.Soundness.Progress.{oks, joined, write_then_cached}

abbrev two_ranges : Ranges
two_ranges = (0, 9) ∷ (20, 29) ∷ []

ranges_merge : merge_range two_ranges 10 19 ≡ (0, 29) ∷ []
unfolding merge_range
ranges_merge = refl

merge_range-IsTable_example : IsTable (merge_range two_ranges 5 12)
merge_range-IsTable_example =
    merge_range-IsTable two_ranges 5 12 (omega arith) (omega arith) (omega arith)

merge_range-has_byte_example :
    has_byte (merge_range two_ranges 5 12) 15 ≡ (has_byte two_ranges 15 || is_in 15 (5, 12))
merge_range-has_byte_example = merge_range-has_byte two_ranges 5 12 15 (omega arith) (omega arith)

is_covered_iff_example :
    (is_covered two_ranges 2 25 ≡ true)
    ↔ ((byte : ℕ) → 2 ≤ byte → byte ≤ 25 → has_byte two_ranges byte ≡ true)
is_covered_iff_example = is_covered_iff two_ranges 2 25 (omega arith) (omega arith)

abbrev metadata_of_a : RangeMetadata
metadata_of_a = record {
  version = 1;
  completed = two_ranges;
  key = some "a";
  total_size = some 100;
  content_type = none;
}

metadata_is_valid_iff_example :
    (metadata_is_valid metadata_of_a "a" (some 30) ≡ true) ↔ IsCredible metadata_of_a "a" 30
metadata_is_valid_iff_example = metadata_is_valid_iff metadata_of_a "a" 30 (omega arith)

-- A system that stores metadata as it is, and hashes a key to its characters.
abbrev plain : System
plain = record {
  Blob = RangeMetadata;
  to_vec = λ m. m;
  from_slice = λ m. some m;
  from_slice-to_vec = λ m. refl;
  digest = codes;
}

-- The resource whose byte at a position is the position plus one.
abbrev counting : ℕ → ℕ
counting n = suc n

-- Three bytes arrive, and the connection is lost.
abbrev broken_stream : List (Result Bytes)
broken_stream = ok (1 ∷ 2 ∷ []) ∷ ok (3 ∷ []) ∷ err (network (text "connection lost")) ∷ []

abbrev one_byte_at_a_time : ℕ → Result ℕ
one_byte_at_a_time n = ok 0

abbrev data_stays : Env
data_stays = record calm { remove_data = some (io (text "denied")) }

-- After a deletion that fails, the metadata are on disk only, and a look-up loads them.
abbrev short_history : List Operation
short_history =
    writing calm "a" broken_stream (0, 9)
    ∷ deleting data_stays "a"
    ∷ loading calm "a"
    ∷ inserting calm 0
    ∷ []

prefix_is_served :
    (read plain calm one_byte_at_a_time 2 "a"
      (0, 2)
      (run plain short_history (start_cache plain)).disk).0
    ≡ ok (ok (1 ∷ []) ∷ ok (2 ∷ []) ∷ ok (3 ∷ []) ∷ [])
unfolding run step write max_length_of range_length receive open_file put_bytes set_data_file
    write_at record_received record_completed_range update_metadata current_metadata lookup insert
    load_metadata save_metadata write_metadata put_metadata index_insert make_room merge_range read
    check_range with_metadata is_covered data_file_size stream_file locate read_stream get_file_path
    metadata_is_valid delete drop_indexed drop_metadata_file remove
prefix_is_served = refl

history_read_exact_example :
    (bytes : Bytes) × Matches counting 0 bytes
    × (length bytes ≡ 2 - 0 + 1)
    × Outcome one_byte_at_a_time bytes (collect (ok (1 ∷ []) ∷ ok (2 ∷ []) ∷ ok (3 ∷ []) ∷ []))
unfolding step
history_read_exact_example =
    history_read_exact plain "a" counting short_history calm one_byte_at_a_time 2 0 2
      (ok (1 ∷ []) ∷ ok (2 ∷ []) ∷ ok (3 ∷ []) ∷ [])
      (inl (refl, omega arith), (inl (refl, refl, tt), (inl refl, (tt, tt)))) (omega arith)
      (omega arith) (omega arith) prefix_is_served

-- The third chunk cannot be written.
abbrev disk_full : Env
disk_full = record calm {
  write_all = λ n. elim n [ suc (suc n) ↦ some (io (text "full")) | _ ↦ none ];
}

write-IsSound_example :
    IsSound plain "a" counting (write plain disk_full "a" broken_stream (0, 9) (empty_disk plain)).1
write-IsSound_example =
    write-IsSound plain "a" counting disk_full "a" broken_stream (0, 9) (empty_disk plain)
      (IsSound-empty plain "a" counting) (inl (refl, omega arith))

abbrev two_chunks : List Bytes
two_chunks = (5 ∷ 6 ∷ []) ∷ (7 ∷ []) ∷ []

write_then_cached_example :
    ((write plain calm "a" (oks two_chunks) (4, 9) (empty_disk plain)).0
      ≡ ok (length (joined two_chunks)))
    × ((check_range plain calm "a"
          (4, 4 + (length (joined two_chunks) - 1))
          (write plain calm "a" (oks two_chunks) (4, 9) (empty_disk plain)).1).0
        ≡ true)
write_then_cached_example =
    write_then_cached plain "a" counting two_chunks 4 9 (empty_disk plain)
      (IsSound-empty plain "a" counting) (omega arith) (omega arith) (omega arith) (omega arith)
      (omega arith)

-- A deletion that fails between the data file and the metadata file leaves the old metadata. After
-- the next write it fits the new, longer data file, and a hole of that file is served as cached.
abbrev half_deleted : List Operation
half_deleted =
    writing calm "a" (oks ((1 ∷ 2 ∷ []) ∷ [])) (0, 1)
    ∷ deleting (record calm { remove_metadata = some (io (text "denied")) }) "a"
    ∷ writing calm "a" (oks ((6 ∷ []) ∷ [])) (5, 5)
    ∷ []

hole_is_served :
    (read plain calm one_byte_at_a_time 2 "a"
      (0, 1)
      (run plain half_deleted (start_cache plain)).disk).0
    ≡ ok (ok (0 ∷ []) ∷ ok (0 ∷ []) ∷ [])
unfolding run step write max_length_of range_length receive open_file put_bytes set_data_file
    write_at record_received record_completed_range update_metadata current_metadata lookup insert
    remove load_metadata save_metadata write_metadata put_metadata index_insert make_room
    merge_range read check_range with_metadata is_covered data_file_size stream_file locate
    read_stream get_file_path metadata_is_valid delete drop_indexed drop_metadata_file
hole_is_served = refl

-- A look-up that a deletion of the key overtakes puts the old metadata into the index again. After
-- the next write a hole of the new file is served as cached.
abbrev overtaken : List Operation
overtaken =
    writing calm "a" (oks ((1 ∷ 2 ∷ []) ∷ [])) (0, 1)
    ∷ deleting data_stays "a"
    ∷ loading calm "a"
    ∷ deleting calm "a"
    ∷ inserting calm 0
    ∷ writing calm "a" (oks ((6 ∷ []) ∷ [])) (5, 5)
    ∷ []

stale_range_is_served :
    (read plain calm one_byte_at_a_time 2 "a"
      (0, 1)
      (run plain overtaken (start_cache plain)).disk).0
    ≡ ok (ok (0 ∷ []) ∷ ok (0 ∷ []) ∷ [])
unfolding run step write max_length_of range_length receive open_file put_bytes set_data_file
    write_at record_received record_completed_range update_metadata current_metadata lookup insert
    remove load_metadata save_metadata write_metadata put_metadata index_insert make_room
    merge_range read check_range with_metadata is_covered data_file_size stream_file locate
    read_stream get_file_path metadata_is_valid delete drop_indexed drop_metadata_file
stale_range_is_served = refl

-- A cache that stalls at the second chunk, and a client that is gone.
abbrev stalling : Channels
stalling = record {
  client = λ i. left;
  try_cache = λ i. if i == 1 then full else sent;
  wait_cache = λ i. timed_out;
}

forward_upstream-IsSound_example :
    IsSound plain "a" counting
      (write plain disk_full "a"
        (forward_upstream stalling broken_stream).to_cache
        (0, 9)
        (empty_disk plain)).1
forward_upstream-IsSound_example =
    forward_upstream-IsSound plain "a" counting disk_full stalling broken_stream (0, 9)
      (empty_disk plain) (IsSound-empty plain "a" counting) (omega arith)
