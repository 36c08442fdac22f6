-- ===== src/Peer.antt =====
-- src/p2p_network.rs: BitTorrent peers: their messages, the choice of pieces, and their transfer.
pub mod Word
pub mod Torrent
pub mod Scheduler
pub mod Store
pub mod Connection
pub mod Session
pub mod Upload
pub mod Assembler
pub mod Message
