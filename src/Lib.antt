-- ===== src/Lib.antt =====
-- xoz stores objects in a file that is an array of blocks. This library models the parts of it that
-- decide which bytes go where, and who owns which blocks.
--
-- Parts, from the bottom:
-- * Mem (xoz/mem): the tests for overflow, the casts that assert, bit fields (Mem/Ints.antt), byte
--   order (Mem/Endian.antt) and the internet checksum (Mem/Checksum.antt).
-- * Io (xoz/io): the exact reads and writes on a stream as the structures use them (Io/Stream.antt),
--   and the stream over a buffer with its pointers, limits and copies (Io/Span.antt, for iobase.h,
--   iobase.cpp and iospan.cpp).
-- * Extent (xoz/ext): a run of blocks or a set of sub-blocks (Extent.antt), with its field encoding,
--   the distance between two extents, and splits.
-- * Segment (xoz/segm): a list of extents with inline data (Segment.antt), the writer
--   Segment::write_struct_into (Segment/Write.antt) and the reader Segment::read_struct_from
--   (Segment/Read.antt). Segment/Codec has their laws: Layout is the format in plain arithmetic.
-- * Blk (xoz/blk/block_array.h and block_array.cpp): the window of blocks in use, how it grows, shrinks
--   and gives up its slack, and which extents are in it (Blk.antt). The virtual methods that move the
--   real end are a record of functions, Backend, of which Blk/Vector.antt
--   (xoz/blk/vector_block_array.cpp) is the one in memory.
-- * Alloc (xoz/alloc): FreeMap, the free chunks by number and by count (Alloc/FreeBlocks.antt, on the
--   ordered maps of Alloc/Chunks.antt), SubBlockFreeMap, the free sub-blocks of blocks
--   (Alloc/Subblocks.antt), TailAllocator, which grows and shrinks a block array (Alloc/Tail.antt),
--   and how SegmentAllocator::alloc divides a size into blocks, sub-blocks and inline bytes
--   (Alloc/Segments.antt).
-- * Ids (xoz/file/id_manager.h): which identifiers are taken (Ids.antt).
-- * Dsc (xoz/dsc/descriptor.h and descriptor.cpp): the header of a descriptor and its checks
--   (Dsc.antt), its content parts (Dsc/Parts.antt), Descriptor::write_struct_into (Dsc/Write.antt)
--   and Descriptor::load_header_from (Dsc/Load.antt), and the updates of its sizes
--   (Dsc/Update.antt). A header has the segments of its parts, which are written and read by the
--   code of Segment; its identifier is resolved by the code of Ids; its checksum is over the stream
--   (Mem/Checksum/Stream.antt, for xoz/mem/inet_checksum.cpp). The virtual methods of a subclass are
--   the records of functions Subclass and Sizing. Dsc/Codec has the laws: Reads says that a reader
--   gets back what a writer appended.
-- * Names (xoz/dsc/id_mapping.cpp and xoz/file/index.cpp): the maps from names to identifiers
--   (Names.antt), how IDMappingDescriptor stores and loads one (Names/IdMapping.antt), and the index
--   that flushes its names there (Names/Index.antt). Whether an identifier is registered is asked of
--   Ids.
-- * Tests has concrete runs, and the theorems at concrete inputs.
--
-- A function of the source has the name it has there, in lower case: Extent::distance_in_blks is
-- distance_in_blks, Segment::write_struct_into is write_struct_into. An object is a record of its
-- fields; a method takes it and returns the new one. An exception or a failed assertion is an error
-- of the Result type (Base/Errors.antt); after an error the state is not looked at. Integers are
-- natural numbers with the wrap-around of their width written out. Bytes are numbers below 256. An
-- ordered set or map is a list in the order of its keys, and an iterator is the entry it points to.
--
-- The byte order of the host is a parameter, Host, of all that reads or writes numbers. The theorems on
-- the bytes of segments and of descriptors are for a little-endian host: on a big-endian one
-- write_struct_into of a segment swaps the bytes of a count or of a bitmap twice
-- (xoz/segm/segment.cpp:441), and they do not hold. Those on the names hold on both.
--
-- Loops: the reader of a segment runs on the count of items that it may still read, as the source
-- does (2 ^ 32 - 1 where no length is given, and the theorems show that it ends before); folding a
-- checksum recurses on the order of the numbers; the loops that copy bytes run on the count of bytes,
-- of which each round takes at least one; all others are recursions on lists or on a bound that the
-- source has.
--
-- Not modelled: printing, tracing and statistics, floating point, the file streams of the standard
-- library, the transfer of bytes to and from blocks, the rest of the allocator of segments, which
-- composes the other allocators, the bytes of a descriptor's content parts and their resizing, the
-- creation of descriptors and the end of their load, and the layers above: descriptor sets, the
-- search for a descriptor by its identifier, and files.
pub mod Base
pub mod Mem
pub mod Io
pub mod Extent
pub mod Segment
pub mod Alloc
pub mod Blk
pub mod Ids
pub mod Dsc
pub mod Names
pub mod Tests
