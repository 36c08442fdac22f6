-- ===== src/Tests.antt =====
-- Runs of the model on concrete inputs, and the theorems at inputs that meet their hypotheses.
mod Range
mod Disk
mod Percent
mod SingleFlight
mod Mixed
mod Peer
mod Policy
mod Pieces
mod Manager
