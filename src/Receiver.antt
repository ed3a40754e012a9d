-- ===== src/Receiver.antt =====
-- src/receiver.c: fingerprint search, squelch and the receiver that feeds them.
pub mod Match
pub mod Search
pub mod Squelch
pub mod Run
pub mod Notify
mod Tests
