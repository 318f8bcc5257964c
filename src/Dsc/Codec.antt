-- ===== src/Dsc/Codec.antt =====
-- The laws of the code that writes and reads the header of a descriptor.
pub mod Reads
pub mod Fields
pub mod Parts
pub mod Id
pub mod Header
pub mod Checks
pub mod RoundTrip
pub mod Written
