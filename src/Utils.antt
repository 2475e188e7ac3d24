-- ===== src/Utils.antt =====
-- client/src/utils: the hexadecimal texts of bytes.
pub mod Hex
