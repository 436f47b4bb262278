-- ===== src/Room.antt =====
-- room/: searching, opening, joining, leaving and administering chat rooms.
pub mod Roles
pub mod Sync
pub mod Leave
pub mod Search
pub mod Create
pub mod Join
pub mod Admin
