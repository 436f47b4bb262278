-- ===== src/Util.antt =====
-- util/: validation and dotted paths.
pub mod Validate
pub mod JsonPath
