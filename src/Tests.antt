-- ===== src/Tests.antt =====
-- Concrete runs of the models, and the theorems at concrete inputs.
pub mod Sample
mod Closings
mod Records
mod Owners
mod Tickets
mod Others
mod Server
mod Store
pub mod Spawns
mod Turns
mod Events
