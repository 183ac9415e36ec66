-- ===== src/Wire.antt =====
-- The wire encodings: little-endian numbers and CompactSize (src/transaction_wire.cpp and
-- src/bridge_wire.cpp).
pub mod Bytes
pub mod Reader
pub mod CompactSize
