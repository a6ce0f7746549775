-- ===== src/Lsmt/File/Tests.antt =====
-- A file of lsmt that is written, punched and read at concrete inputs.
use cora.Base.{
  ℕ, zero, suc, ◌+◌, ◌-◌, ◌≤◌, ◌<◌, ◌≡◌, refl, ap, ◌∙◌, List, [], ◌∷◌, true, false, some, arith,
  length, get_or, min, if◌then◌else◌, ltb, leb, ◌&&◌, ◌==◌,
}
use cora.Lsmt.Layout.{find, Chain, total}
use cora.Lsmt.Index0.{Index0}
use cora.Lsmt.MemoryIndex.{MemoryIndex, plain}
use cora.Lsmt.File.{Copy, Reader, pread}
use cora.Lsmt.File.Bytes.{IsReader}
use cora.Lsmt.File.Read.{Brings, pread-Brings}
use cora.Lsmt.File.Write.{Device, Disk, fallocate}
use cora.Lsmt.File.Write.Once.{content, IsDevice}
use cora.Lsmt.File.Write.Refine.{Wrote}
use cora.Lsmt.File.Write.Loops.{fallocate-Wrote}
use cora.Lsmt.File.RoundTrip.{after}

-- A file whose content is known and null from `size` on.
bytes_from : (ℕ → ℕ) → ℕ → ℕ → List ℕ
bytes_from f off zero = []
bytes_from f off (suc n) = f off ∷ bytes_from f (off + 1) n

abbrev file : (ℕ → ℕ → ℕ) → ℕ → Reader ℕ
file content size tag off n = some (bytes_from (content tag) off (min n (size - off)))

length-bytes_from : (f : ℕ → ℕ) (off n : ℕ) → length (bytes_from f off n) ≡ n
unfolding bytes_from
length-bytes_from f off zero = refl
length-bytes_from f off (suc n) = omega (arith, length-bytes_from f (off + 1) n)

get_or-bytes_from :
    (f : ℕ → ℕ) (off n i d : ℕ) → i < n → get_or (bytes_from f off n) i d ≡ f (off + i)
unfolding bytes_from
get_or-bytes_from f off zero i d h = absurd (omega arith)
get_or-bytes_from f off (suc n) zero d h = ap f (omega arith)
get_or-bytes_from f off (suc n) (suc i) d h =
    get_or-bytes_from f (off + 1) n i d (omega arith)
    ∙ ap f {x = off + 1 + i} {y = off + suc i} (omega arith)

file-IsReader :
    (content : ℕ → ℕ → ℕ) (size : ℕ)
    → ((tag a : ℕ) → size ≤ a → content tag a ≡ 0)
    → IsReader 0 (file content size) (λ tag. size) content
file-IsReader content size h = record {
  bytes = λ tag off n. bytes_from (content tag) off (min n (size - off));
  reads = λ tag off n. refl;
  count = λ tag off n. length-bytes_from (content tag) off (min n (size - off));
  right = λ tag off n i d k.
      get_or-bytes_from (content tag) off (min n (size - off)) i d
        (omega (arith, length-bytes_from (content tag) off (min n (size - off))));
  beyond = h;
}

abbrev disk : Disk
disk = record { taken = λ size count. count; taken_records = λ n m. m }

-- A header of 8 blocks, and one block of ones after it, which is the second of the device.
abbrev one_index : Index0
one_index = record {
  mapping = record { offset = 1; length = 1; moffset = 8; zeroed = false; tag = 0 } ∷ [];
  alloc_blk = 1;
}

abbrev data_one : ℕ → ℕ
data_one a = if leb 4096 a && ltb a 4608 then 1 else 0

abbrev device_one : Device ℕ
device_one = record {
  data_bytes = data_one;
  data_size = 4608;
  index = one_index;
  vsize = 8192;
  data_offset = 9;
  rw_tag = 0;
  has_findex = true;
  capacity = 0;
  stacked = [];
  records = [];
}

abbrev nothing_behind : MemoryIndex
unfolding Chain
nothing_behind = plain [] (omega arith)

abbrev no_bytes : ℕ → ℕ → ℕ
no_bytes tag a = 0

device_one-IsDevice : IsDevice 0 disk nothing_behind.view no_bytes device_one
unfolding Chain total find
device_one-IsDevice = record {
  holds = ground arith;
  whole = refl;
  header = omega arith;
  small = omega arith;
  own = λ x b q. ground (arith, q);
  others = λ x b q. ground (arith, q);
}

abbrev memory : Copy ℕ
memory = record { memory = λ a. 9; buf = 100; io_size = 0; io_cnt = 0 }

one_content-end : (tag a : ℕ) → 4608 ≤ a → (if tag == 0 then data_one a else 0) ≡ 0
one_content-end tag a h = ground arith

-- Two blocks from the first on.
pread-Brings_example :
    Brings 0
      (file (content 0 disk nothing_behind.view no_bytes device_one) 4608)
      (λ tag. 4608)
      (content 0 disk nothing_behind.view no_bytes device_one)
      (file-IsReader (content 0 disk nothing_behind.view no_bytes device_one) 4608 one_content-end)
      (plain one_index.mapping device_one-IsDevice.holds.0)
      1024
      0
      (pread 0
        (file (content 0 disk nothing_behind.view no_bytes device_one) 4608)
        1025
        (plain one_index.mapping device_one-IsDevice.holds.0)
        512
        1024
        0
        memory)
      memory
pread-Brings_example =
    pread-Brings 0 (file (content 0 disk nothing_behind.view no_bytes device_one) 4608)
      (λ tag. 4608) (content 0 disk nothing_behind.view no_bytes device_one)
      (file-IsReader (content 0 disk nothing_behind.view no_bytes device_one) 4608 one_content-end)
      (plain one_index.mapping device_one-IsDevice.holds.0) 1025 512 1024 0 memory (omega arith)
      refl (omega arith) refl refl (omega arith) (omega arith)

abbrev sevens : ℕ → ℕ
sevens i = 7

fallocate-Wrote_example :
    ((fallocate disk 1025 device_one true true 512 1024).success ≡ true)
    × Wrote 0 disk nothing_behind.view no_bytes
        (λ i. 0)
        1024
        512
        device_one
        (fallocate disk 1025 device_one true true 512 1024).state
fallocate-Wrote_example =
    fallocate-Wrote 0 disk nothing_behind.view no_bytes 1025 device_one 1024 512 device_one-IsDevice
      refl refl (omega arith) (omega arith) (omega arith)

abbrev written : Device ℕ
written = after 0 disk nothing_behind no_bytes 512 device_one sevens 512 1024
