-- ===== src/Bridge.antt =====
-- native/sampraknet_bridge.cpp.
pub mod Read
pub mod Call
pub mod Players
pub mod Gpci
pub mod Join
pub mod Local
pub mod Scenery
pub mod Senders
pub mod Dispatch
pub mod Session
pub mod Reads
pub mod Bounds
pub mod Control
pub mod Sync
