-- ===== src/Io.antt =====
-- xoz/io: the streams that structures are read from and written into.
pub mod Stream
pub mod Span
