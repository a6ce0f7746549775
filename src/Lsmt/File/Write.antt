-- ===== src/Lsmt/File/Write.antt =====
-- The writes of `LSMTFile` in lsmt/file.cpp: `append`, `pwrite`, `fallocate`, `discard`, and the log of
-- mappings that they keep in the index file.
pub mod Once
pub mod Refine
pub mod Punch
pub mod Loops
use cora.Base.{
  ℕ, zero, suc, ◌+◌, ◌-◌, ◌*◌, ◌/◌, ◌%◌, ◌^◌, max, List, [], ◌∷◌, ◌++◌, Bool, true, false,
  if◌then◌else◌, ltb, leb, ◌==◌, ◌&&◌, ◌||◌, not, length, take, replicate,
}
use cora.Lsmt.Segment.{SegmentMapping, mend, invalid_mapping, max_length}
use cora.Lsmt.Segment
use cora.Lsmt.Index0
use cora.Lsmt.Index0.{Index0}
use cora.Lsmt.File.{alignment}

-- The file below that takes the data, with its size; the index; the stacked mappings and the records of
-- the index file, if there is one.
pub record Device (Byte : Type 0) : Type 0 where
  pub data_bytes : ℕ → Byte
  pub data_size : ℕ
  pub index : Index0
  pub vsize : ℕ
  pub data_offset : ℕ
  pub rw_tag : ℕ
  pub has_findex : Bool
  pub capacity : ℕ
  pub stacked : List SegmentMapping
  pub records : List SegmentMapping

-- What the files take of a write: of the data, by the size of the file and the count, a number of bytes; of
-- the index file, by the number of its records and of those to come, a number of records.
pub record Disk : Type 0 where
  pub taken : ℕ → ℕ → ℕ
  pub taken_records : ℕ → ℕ → ℕ

-- A call's result with the state that it leaves: whether it returned with success, and if it did not, whether
-- an assertion of the call failed, which ends the process.
pub record Done (S : Type 0) : Type 0 where
  pub success : Bool
  pub aborted : Bool
  pub state : S

-- The mapping of `pwrite`, cut to its bits.
abbrev pub written_mapping : ℕ → ℕ → ℕ → ℕ → SegmentMapping
written_mapping offset count moffset tag = record {
  offset = (offset / alignment) % 2 ^ 50;
  length = (count / alignment) % 2 ^ 14;
  moffset = (moffset / alignment) % 2 ^ 55;
  zeroed = false;
  tag = tag;
}

module _ {Byte : Type 0} (disk : Disk) where
  -- `append` to the data file: what it takes stands at its end. The caller sees the old end, or failure.
  abbrev pub append_data : Device Byte → (ℕ → Byte) → ℕ → Device Byte
  append_data d bytes count =
      let ret = disk.taken d.data_size count in
      record d {
        data_bytes = λ a.
            if leb d.data_size a && ltb a (d.data_size + ret)
            then bytes (a - d.data_size)
            else d.data_bytes a;
        data_size = d.data_size + ret;
      }

  -- `append` to the index file.
  unfoldable pub append_records : Device Byte → List SegmentMapping → Done (Device Byte)
  append_records d ms =
      let n = disk.taken_records (length d.records) (length ms) in
      record {
        success = leb (length ms) n;
        aborted = false;
        state = record d { records = d.records ++ take n ms };
      }

  -- `do_group_commit_mappings`. The number of stacked mappings is 0 again only after a success.
  unfoldable pub do_group_commit_mappings : Device Byte → Done (Device Byte)
  do_group_commit_mappings d =
      let padded = d.stacked ++ replicate (d.capacity - length d.stacked) invalid_mapping in
      let r = append_records (record d { stacked = padded }) padded in
      if length d.stacked == 0
      then record { success = true; aborted = false; state = d }
      else if r.success
      then record { success = true; aborted = false; state = record r.state { stacked = [] } }
      else r

  unfoldable pub append_index : Device Byte → SegmentMapping → Device Byte
  append_index d m =
      let stacking = record d { stacked = d.stacked ++ (m ∷ []) } in
      if not d.has_findex
      then d
      else if d.capacity == 0
      then (append_records d (m ∷ [])).state
      else if length d.stacked + 1 == d.capacity
      then (do_group_commit_mappings stacking).state
      else stacking

  -- `pwrite` after the data has been appended at `moffset`.
  unfoldable pub map_written : Device Byte → ℕ → ℕ → ℕ → Device Byte
  map_written d count offset moffset =
      let m = written_mapping offset count moffset d.rw_tag in
      append_index
        (record d {
          vsize = max d.vsize (count + offset);
          data_offset = mend m;
          index = Index0.insert d.index m;
        })
        m

  -- `pwrite` after its loop: a write of at most `MAX_IO_SIZE`. A file that ends at 0 counts as a failure. The
  -- mapping must have blocks, by an assertion, after the size is raised and before the mapping is inserted.
  unfoldable pub pwrite_once : Device Byte → (ℕ → Byte) → ℕ → ℕ → Done (Device Byte)
  pwrite_once d bytes count offset =
      let d' = append_data d bytes count in
      if ltb (disk.taken d.data_size count) count || (d.data_size == 0)
      then record { success = false; aborted = false; state = d' }
      else if (count / alignment) % 2 ^ 14 == 0
      then record {
        success = false;
        aborted = true;
        state = record d' { vsize = max d.vsize (count + offset) };
      }
      else record {
        success = true;
        aborted = false;
        state = map_written d' count offset d.data_size;
      }

  -- `pwrite`: the loop over `MAX_IO_SIZE`, then the rest.
  unfoldable pub pwrite : ℕ → ℕ → Device Byte → (ℕ → Byte) → ℕ → ℕ → Done (Device Byte)
  pwrite zero max_io_size d bytes count offset = record {
    success = false;
    aborted = false;
    state = d;
  }
  pwrite (suc fuel) max_io_size d bytes count offset =
      let first = pwrite_once d bytes max_io_size offset in
      let rest =
        pwrite fuel max_io_size first.state (λ i. bytes (max_io_size + i)) (count - max_io_size)
          (offset + max_io_size) in
      if not ((count % alignment == 0) && (offset % alignment == 0))
      then record { success = false; aborted = false; state = d }
      else if ltb max_io_size count
      then (if first.success then rest else first)
      else pwrite_once d bytes count offset

  -- `discard` of a range of blocks.
  unfoldable pub discard : Device Byte → SegmentMapping → Device Byte
  discard d m =
      let m' = record m { moffset = (d.data_size / alignment) % 2 ^ 55; tag = d.rw_tag } in
      append_index (record d { index = Index0.insert d.index m' }) m'

  -- `fallocate` after its loop, with the mode's flags for a punched hole and for a kept size.
  unfoldable pub fallocate_once : Device Byte → Bool → Bool → ℕ → ℕ → Done (Device Byte)
  fallocate_once d punch keep offset len =
      if not punch || not keep
      then record { success = false; aborted = false; state = d }
      else if not ((len % alignment == 0) && (offset % alignment == 0))
      then record { success = false; aborted = false; state = d }
      else record {
        success = true;
        aborted = false;
        state = discard d (Segment.discard (written_mapping offset len 0 0));
      }

  unfoldable pub fallocate : ℕ → Device Byte → Bool → Bool → ℕ → ℕ → Done (Device Byte)
  fallocate zero d punch keep offset len = record { success = false; aborted = false; state = d }
  fallocate (suc fuel) d punch keep offset len =
      let step = max_length * alignment in
      let first = fallocate_once d punch keep offset step in
      let rest = fallocate fuel first.state punch keep (offset + step) (len - step) in
      if ltb step len
      then (if first.success
          then rest
          else record { success = false; aborted = false; state = first.state })
      else fallocate_once d punch keep offset len
