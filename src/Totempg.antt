-- ===== src/Totempg.antt =====
-- The totem process groups of exec/totempg.c: messages packed into packets, and taken out again.
pub mod Packets
pub mod Send
pub mod Assembly
pub mod Stream
pub mod Buffer
pub mod Received
pub mod Sent
pub mod Flushed
pub mod Loops
pub mod Completes
pub mod Empty
pub mod Answers
pub mod Discard
pub mod Runs
pub mod Sends
pub mod RoundTrip
mod Examples
