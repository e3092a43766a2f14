-- ===== src/Utils.antt =====
-- tn5250/utils: byte order, and numbers as text. A std::string is the list of its ASCII codes.
pub mod Endian
pub mod Binary
pub mod Hex
pub mod Text
