-- ===== src/Votequorum.antt =====
-- The vote quorum service, exec/votequorum.c.
pub mod State
pub mod Nodes
pub mod TieBreaker
pub mod Quorum
pub mod Messages
pub mod Sync
pub mod Requests
pub mod Service
mod Clusters
