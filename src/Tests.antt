-- ===== src/Tests.antt =====
-- Concrete runs of the modelled code, and the theorems at concrete inputs.
mod Runs
mod Blocks
mod Free
mod Names
mod Descriptors
mod Sizes
mod Segments
mod Subblocks
mod Streams
