-- ===== src/Tests.antt =====
-- A small API server, and the theorems at concrete inputs.
pub mod Server
pub mod Objects
pub mod Configs
pub mod Robin
pub mod Statuses
pub mod Loop
pub mod Progress
pub mod Holding
pub mod Steady
pub mod Shelf
pub mod Converging
pub mod Interplay
pub mod Command
