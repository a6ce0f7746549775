-- ===== src/Lsmt/File/Log.antt =====
-- The index file of an `LSMTFile` in lsmt/file.cpp, read back: `do_load_index` and `open_file_rw`.
pub mod Replay
pub mod Recovery
pub mod Stacked
pub mod Reopened
mod Tests
use cora.Base.{ℕ, ◌/◌, List, [], ◌∷◌, Option, if◌then◌else◌, ◌==◌}
use cora.Lsmt.Segment.{SegmentMapping, invalid_offset}
use cora.Lsmt.Index0.{Index0}
use cora.Lsmt.Create.{create_memory_index0}
use cora.Lsmt.File.{alignment}
use cora.Lsmt.File.Write.{Device}

-- The loop of `do_load_index` for a file that is not a warp file: the padding is left out, the tags are 0.
unfoldable pub load_index : List SegmentMapping → List SegmentMapping
load_index [] = []
load_index (m ∷ ms) =
    let rest = load_index ms in
    if m.offset == invalid_offset then rest else record m { tag = 0 } ∷ rest

-- The blocks of the header, `HeaderTrailer::SPACE / ALIGNMENT`.
abbrev pub header_blocks : ℕ
header_blocks = 8

-- The index that `open_file_rw` makes of the records of an append-only file, where the index file's header is
-- a valid one and its records are read.
unfoldable pub open_index : {Byte : Type 0} → Device Byte → Option Index0
open_index d = create_memory_index0 (load_index d.records) header_blocks (d.data_size / alignment)
