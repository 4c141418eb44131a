-- ===== src/Wire.antt =====
-- The binary trace format of packages/trace/src/wire.
pub mod Result
pub mod Varint
pub mod Utf8
pub mod Base64
pub mod Raw
pub mod Reader
pub mod Container
pub mod Tests
