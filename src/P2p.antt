-- ===== src/P2p.antt =====
-- src/p2p.rs: sources of pieces.
pub mod PieceCache
