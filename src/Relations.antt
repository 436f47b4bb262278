-- ===== src/Relations.antt =====
-- relations/mod.rs: who owns whom and who loves whom.
pub mod Ownership
pub mod Lovership
