-- ===== src/Tests.antt =====
-- Runs at concrete inputs, and the theorems applied there.
pub mod Account
pub mod World
mod Limits
mod Json
pub mod Room
mod Admin
mod Search
mod Chat
mod Settings
mod Disconnect
pub mod Ownership
mod Lovership
pub mod Auth
mod Reachable
