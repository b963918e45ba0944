-- ===== src/Util.antt =====
-- util/: validation of UTF-8.
pub mod Utf8
pub mod Logging
