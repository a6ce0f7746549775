-- ===== src/Lsmt/File.antt =====
-- `LSMTReadOnlyFile::pread` and the writes of `LSMTFile` in lsmt/file.cpp. Memory is a function from
-- addresses to bytes, with a byte of any type, and the buffer of a read is not null; the files below are an environment that answers reads.
pub mod Bytes
pub mod Blocks
pub mod Read
pub mod Write
pub mod RoundTrip
pub mod Log
mod Tests
use cora.Base.{
  ℕ, zero, suc, ◌+◌, ◌-◌, ◌*◌, ◌/◌, ◌%◌, ◌^◌, max, List, [], ◌∷◌, Bool, Option, none, some,
  if◌then◌else◌, ltb, leb, ◌==◌, ◌&&◌, length, get_or, inc_32, not,
}
use cora.Lsmt.Segment.{Segment, SegmentMapping, segment}
use cora.Lsmt.MemoryIndex.{MemoryIndex}
use cora.Lsmt.Foreach.{Outcome, ok, failed, out_of_fuel, ◌>>=◌, foreach_segments}

abbrev pub alignment : ℕ
alignment = 512

module _ {Byte : Type 0} where
  -- What a `memcpy` or a read puts at an address, and `memset`.
  abbrev pub store : (ℕ → Byte) → ℕ → List Byte → ℕ → Byte
  store memory at bytes a =
      if leb at a && ltb a (at + length bytes) then get_or bytes (a - at) (memory a) else memory a

  abbrev pub set_bytes : (ℕ → Byte) → ℕ → ℕ → Byte → ℕ → Byte
  set_bytes memory at n b a = if leb at a && ltb a (at + n) then b else memory a

-- The state of a read: the memory, the pointer `buf`, and the statistics.
pub record Copy (Byte : Type 0) : Type 0 where
  pub memory : ℕ → Byte
  pub buf : ℕ
  pub io_size : ℕ
  pub io_cnt : ℕ

-- `IFile::pread` of the files: by tag, offset and size the bytes that were read, or an error.
abbrev pub Reader : Type 0 → Type 0
Reader Byte = ℕ → ℕ → ℕ → Option (List Byte)

module _ {Byte : Type 0} (null : Byte) (read : Reader Byte) where
  -- The first callback of `pread`.
  unfoldable pub read_zeroes : Segment → Copy Byte → Outcome (Copy Byte)
  read_zeroes m c =
      let step = m.length * alignment in
      ok (record c { memory = set_bytes c.memory c.buf step null; buf = c.buf + step })

  -- The end of the second callback, with `ret` bytes read at first.
  abbrev pub counted : Copy Byte → (ℕ → Byte) → ℕ → ℕ → Copy Byte
  counted c memory ret size = record {
    memory = memory;
    buf = c.buf + size;
    io_size = (c.io_size + ret) % 2 ^ 64;
    io_cnt = inc_32 c.io_cnt;
  }

  -- After a short read: a second read for the rest. If there is any, or an error, the callback returns
  -- `ret`, which is not negative, and `buf` stays.
  unfoldable pub read_rest :
      Copy Byte → (ℕ → Byte) → ℕ → ℕ → Option (List Byte) → Outcome (Copy Byte)
  read_rest c memory ret size none = ok (record c { memory = memory })
  read_rest c memory ret size (some []) =
      ok (counted c (set_bytes memory (c.buf + ret) (size - ret) null) ret size)
  read_rest c memory ret size (some (b ∷ bytes)) =
      ok (record c { memory = store memory (c.buf + ret) (b ∷ bytes) })

  -- After the first read.
  unfoldable pub read_first : SegmentMapping → Copy Byte → Option (List Byte) → Outcome (Copy Byte)
  read_first m c none = failed 1 c
  read_first m c (some bytes) =
      let size = m.length * alignment in
      let ret = length bytes in
      let memory = store c.memory c.buf bytes in
      if ltb ret size
      then read_rest c memory ret size (read m.tag (m.moffset * alignment + ret) (size - ret))
      else ok (counted c memory ret size)

  -- The second callback of `pread`.
  unfoldable pub read_data : SegmentMapping → Copy Byte → Outcome (Copy Byte)
  read_data m c = read_first m c (read m.tag (m.moffset * alignment) (m.length * alignment))

  -- `pread` after its loop: a read of at most `MAX_IO_SIZE`.
  unfoldable pub pread_once : MemoryIndex → ℕ → ℕ → Copy Byte → Outcome (Copy Byte)
  pread_once idx count offset c =
      let s = segment (offset / alignment) (count / alignment) in
      foreach_segments read_zeroes read_data idx (s.length + 1) s c

  -- `pread`: the loop over `MAX_IO_SIZE`, then the rest. The call that the loop makes is `pread_once`,
  -- since it asks for `MAX_IO_SIZE`; where it fails, `pread` does.
  unfoldable pub pread : ℕ → MemoryIndex → ℕ → ℕ → ℕ → Copy Byte → Outcome (Copy Byte)
  pread zero idx max_io_size count offset c = out_of_fuel
  pread (suc fuel) idx max_io_size count offset c =
      let next = λ (c' : Copy Byte).
        pread fuel idx max_io_size (count - max_io_size) (offset + max_io_size)
          (record c' { buf = c.buf + max_io_size }) in
      if not ((count % alignment == 0) && (offset % alignment == 0))
      then failed 14 c
      else if ltb max_io_size count
      then pread_once idx max_io_size offset c >>= next
      else pread_once idx count offset c
