-- ===== src/Common.antt =====
-- src/common/utils: the test on identifiers that every repository makes before it asks the database.
pub mod Uuid
