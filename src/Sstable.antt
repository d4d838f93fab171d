-- ===== src/Sstable.antt =====
-- The library of table files, sstable/src.
pub mod Codec
pub mod Separator
pub mod Builder
pub mod Masked
pub mod Handle
pub mod Block
pub mod BlockIter
mod Tests
