-- ===== src/Mem.antt =====
-- xoz/mem: machine integers, bit fields, byte order and the internet checksum.
pub mod Ints
pub mod Endian
pub mod Checksum
