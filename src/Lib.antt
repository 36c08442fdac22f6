-- ===== src/Lib.antt =====
-- video_proxy_server: a local HTTP proxy in front of video servers, which caches byte ranges on disk.
--
-- A request names a resource and a byte range (src/utils/range.rs). What the cache covers is served from
-- the disk (src/storage/disk.rs); the rest is fetched from upstream and written to the cache while it is
-- streamed to the client. Errors of all parts are one type (src/utils/error.rs).
--
--   Prelude, Map, Exec, Strings   arithmetic on u64 (`checked_add`, `saturating_add`), association
--                                 lists for `HashMap`, a state and error monad for `async fn`s that
--                                 return `Result` and use `?`, and the functions of `str` that the
--                                 parsers call. Text is the list of its code points.
--   Error                         src/utils/error.rs, `ProxyError`
--   Range                         src/utils/range.rs, with its round trip and its bounds
--   Storage/Ranges                `merge_range` and the coverage test of src/storage/disk.rs
--   Storage/Disk                  `DiskStorage` of src/storage/disk.rs: File (sparse files), Metadata
--                                 (`RangeMetadata`, `metadata_is_valid`), Store (paths, index,
--                                 reading and writing of metadata), Write, Read (with `delete` and
--                                 the upstream metadata)
--   Storage/Disk/Soundness        what the bytes of a key are, kept by every operation
--   Percent                       src/utils/percent_encoding.rs
--   SingleFlight                  src/handlers/single_flight.rs, as a step relation
--   Manager                       src/storage/manager.rs
--   Mixed                         `plan_mixed` of src/data_source_manager.rs and
--                                 src/handlers/mixed_source.rs
--   Tee                           src/handlers/tee.rs
--   Peer                          src/p2p_network.rs: Word (big-endian words), Message (the messages
--                                 and their bytes), Torrent (lengths of pieces), Scheduler (which
--                                 piece is fetched next), Store (pieces on disk), Connection (blocks
--                                 and pieces from a peer), Session (the download from a peer),
--                                 Upload (the blocks sent to a peer, and their quota),
--                                 Assembler (the description of a torrent from its pieces)
--   P2p                           `VerifiedPieceCache` of src/p2p.rs
--   Policy                        src/utils/network_policy.rs: the classes of addresses, Admission
--                                 (which URLs may be requested)
--
-- The state of `DiskStorage` is a record of the data files and the metadata files by path, and of the
-- in-memory index. Each operation is a function from the environment, its arguments and the state.
-- The environment (`Env`) says which calls to the operating system fail and with what error, how much
-- a buffered writer had passed on when it was dropped, and which entry a full index gives up. Writes
-- and deletions of one key exclude each other by the write lock of its shard, and deletions and updates
-- of its metadata by the metadata lock, so each of them is one step. A look-up of metadata takes no lock:
-- in a history of the cache (Storage/Disk/Soundness/Steps) its loading and its inserting are two steps,
-- and others may come in between. The bytes that a read streams are those of the file as it is when the
-- read starts; that nothing is deleted or written meanwhile is an assumption of the model. The hash
-- (`Sha256::digest`) and the serialisation (`serde_json`) are the parameter `System`, of which the
-- storage relies on reading back what it serialised.
--
-- Bounds and fuel: numbers are natural numbers; where the code has u64 the model keeps its checked and
-- saturating operations with the bound 2^64 - 1. The reading loop runs on fuel, as many rounds as
-- bytes are asked for, which is enough because each round reads at least one byte or ends.
--
-- The manager counts what a storage holds through the interface `StorageEngine` (Storage/Engine), and
-- evicts the least recently used entries. The peer-to-peer side has a state of its own: a connection is
-- what its coming calls of `receive` and `send` return (a timeout is such an error), a store of pieces
-- is the files by index, `Sha1::digest` is a parameter, and the scheduler is the record of its vectors. For
-- the network policy, `Url::parse` and the resolver of names are arguments, and a moment is a number of
-- nanoseconds.
-- The loop over the blocks of a piece has as many rounds as blocks, which its theorem shows to be
-- enough; the loops over messages end with the messages. A response is forked (Tee): one side goes to the client, the
-- other is what `write` of the storage receives. A stitched response (Mixed) takes its first part from
-- the cache and its second from the network; the upstream and the reading of the cache are parameters.
-- A `usize` has 64 bits there.
--
-- Not modelled: the sockets, TLS and HTTP of hyper; the request path that chooses between the sources,
-- playlists (src/hls), the registry of sources and the server's lifecycle; the foreign
-- interfaces (src/ffi.rs, src/android_jni.rs, src/harmony_napi.rs) and logging; of
-- src/p2p_network.rs the magnet links, the bencode parser, the messages of the metadata exchange, the
-- trackers and the DHT; of src/p2p.rs all but its cache of pieces in memory; the scan of the cache
-- directory in src/storage/disk.rs, which the manager takes from the
-- interface. An error's message is its text without the interpolated names.
pub mod Prelude
pub mod Map
pub mod Error
pub mod Exec
pub mod Strings
pub mod Range
pub mod Storage
pub mod Manager
pub mod Mixed
pub mod P2p
pub mod Peer
pub mod Percent
pub mod Policy
pub mod SingleFlight
pub mod Tee
pub mod Tests
