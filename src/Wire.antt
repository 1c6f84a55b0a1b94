-- ===== src/Wire.antt =====
-- The wire format (server/net.py, class `Socket`).
pub mod Utf8
pub mod Socket
