-- ===== src/Lsmt/File/RoundTrip.antt =====
-- `pwrite` and then `pread` in lsmt/file.cpp.
use cora.Base.{ℕ, ◌+◌}
use cora.Lsmt.MemoryIndex.{MemoryIndex}
use cora.Lsmt.File.Write.{Device, Disk, pwrite}

module _ {Byte : Type 0} (null : Byte) (disk : Disk) (back : MemoryIndex) (lower : ℕ → ℕ → Byte)
    (max_io_size : ℕ) (d : Device Byte) (bytes : ℕ → Byte) (count offset : ℕ) where
  -- The device after the write.
  abbrev pub after : Device Byte
  after = (pwrite disk (count + 1) max_io_size d bytes count offset).state
