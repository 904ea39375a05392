-- ===== src/Engine.antt =====
-- native: how the library reads and writes the memory of the game.
pub mod Memory
pub mod Patches
pub mod Boot
pub mod Script
pub mod Game
pub mod Hooks
pub mod Start
pub mod Device
