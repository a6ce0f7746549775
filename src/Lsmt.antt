-- ===== src/Lsmt.antt =====
-- The layered block device of overlaybd/src/overlaybd/lsmt: the index that maps the blocks of a
-- logical device to blocks of data files.
pub mod Segment
pub mod Layout
pub mod Lookup
pub mod Index0
pub mod MemoryIndex
pub mod Foreach
pub mod Combo
pub mod Merge
pub mod Create
pub mod Compress
pub mod File
mod Tests
