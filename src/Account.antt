-- ===== src/Account.antt =====
-- account/mod.rs: what an account asks for itself. The prison sectors of it are Prison.antt.
pub mod Beep
pub mod Difficulty
pub mod Email
pub mod Flush
pub mod Delay
