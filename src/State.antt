-- ===== src/State.antt =====
-- state/: the sessions, the rooms and the world that holds them.
pub mod Platform
pub mod ChatRoom
pub mod Account
pub mod World
pub mod Consistency
pub mod Insertion
pub mod RoomKey
