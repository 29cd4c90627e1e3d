-- ===== src/Totemsrp.antt =====
-- The single ring protocol of exec/totemsrp.c.
pub mod Sets
pub mod Membership
pub mod Flow
pub mod Received
pub mod Multicast
pub mod Release
pub mod Deliver
pub mod Retransmit
pub mod Node
