-- ===== src/Segment/Codec.antt =====
-- The layout of a segment on disk, as words of 16 bits, and the laws of the code that writes and
-- reads it.
pub mod Layout
pub mod Header
pub mod Encode
pub mod Footprint
pub mod Written
pub mod Decode
pub mod Inline
pub mod RoundTrip
pub mod ReadBack
