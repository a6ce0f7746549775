-- ===== src/Lsmt/File/Read.antt =====
-- `LSMTReadOnlyFile::pread` of lsmt/file.cpp: the bytes of the device that a read brings to memory.
use cora.Base.{
  ℕ, zero, suc, ◌+◌, ◌-◌, ◌*◌, ◌/◌, ◌%◌, ◌^◌, ◌<◌, ◌≡◌, refl, ap, subst, ◌∙◌, arith, le-cases, inl,
  inr, le→ltb, lt→ltb,
}
use cora.Lsmt.Segment.{Segment, segment}
use cora.Lsmt.MemoryIndex.{MemoryIndex}
use cora.Lsmt.Foreach.{Outcome, ok, ◌>>=◌, foreach_segments}
use cora.Lsmt.Foreach.Tiling.{span}
use cora.Lsmt.File.{alignment, Copy, Reader, read_zeroes, read_data, pread_once, pread}
use cora.Lsmt.File.Bytes.{device, Filled, Filled-then, IsReader}
use cora.Lsmt.File.Blocks.{Filled-congr, blocks, Reads, pread_once-Reads}

module _ {Byte : Type 0} (null : Byte) (read : Reader Byte) (sizes : ℕ → ℕ) (content : ℕ → ℕ → Byte)
    (r : IsReader null read sizes content) where
  -- `count` bytes of the device from `offset` on.
  abbrev pub Brings : MemoryIndex → ℕ → ℕ → Outcome (Copy Byte) → Copy Byte → Type 0
  Brings idx count offset o c =
      (c' : Copy Byte) × (o ≡ ok c')
      × Filled null (λ i. device null content idx.view (offset + i)) c count c'

  pread_once-Brings :
      (idx : MemoryIndex) (count offset : ℕ) (c : Copy Byte)
      → count % alignment ≡ 0
      → offset % alignment ≡ 0
      → count < alignment * 2 ^ 14
      → offset + count < alignment * 2 ^ 50
      → Brings idx count offset (pread_once null read idx count offset c) c
  unfolding pread_once
  pread_once-Brings idx count offset c a b small fits =
      let lo = offset / alignment in
      let hi = lo + count / alignment in
      let w =
        subst
          (λ (s : Segment).
            Reads null read sizes content r idx.view lo hi
              (foreach_segments (read_zeroes null read) (read_data null read) idx (s.length + 1) s
                c)
              c)
          (exact lo (count / alignment) (omega arith) (omega arith))
          (pread_once-Reads null read sizes content r idx lo hi c (omega arith) (omega arith)
            (omega arith)) in
      (
        w.0,
        w.1,
        Filled-congr null read sizes content r (blocks null read sizes content r idx.view lo)
            (λ i. device null content idx.view (offset + i)) c w.0 _ _ (omega arith)
            (λ i k. whole i) w.2,
      )
    where
      whole :
          (i : ℕ)
          → blocks null read sizes content r idx.view (offset / alignment) i
            ≡ device null content idx.view (offset + i)
      whole i =
          ap (device null content idx.view) {x = offset / alignment * alignment + i}
            {y = offset + i} (omega arith)

      exact : (o n : ℕ) → o < 2 ^ 50 → n < 2 ^ 14 → span o (o + n) ≡ segment o n
      exact o n h k = ground arith

  -- A read of a whole number of blocks at a whole block, below the last block of the device, succeeds and brings the bytes of
  -- the device to memory and changes no other, where the files answer as documented and a read of the maximal size is of whole blocks and fewer than 2 ^ 14.
  pub pread-Brings :
      (idx : MemoryIndex) (fuel max_io_size count offset : ℕ) (c : Copy Byte)
      → 0 < max_io_size
      → max_io_size % alignment ≡ 0
      → max_io_size < alignment * 2 ^ 14
      → count % alignment ≡ 0
      → offset % alignment ≡ 0
      → offset + count < alignment * 2 ^ 50
      → count < fuel
      → Brings idx count offset (pread null read fuel idx max_io_size count offset c) c
  unfolding pread
  pread-Brings idx zero max_io_size count offset c pos m small a b fits f = absurd (omega arith)
  pread-Brings idx (suc fuel) max_io_size count offset c pos m small a b fits f =
      elim (le-cases count max_io_size) [
        | inl k ↦
            rw (a, b, le→ltb max_io_size count k)
              (pread_once-Brings idx count offset c a b (omega arith) fits)
        | inr k ↦
            let w = pread_once-Brings idx max_io_size offset c m b small (omega arith) in
            let c' : Copy Byte = record w.0 { buf = c.buf + max_io_size } in
            let w' =
              pread-Brings idx fuel max_io_size (count - max_io_size) (offset + max_io_size) c' pos
                m small (omega arith) (omega arith) (omega arith) (omega arith) in
            rw (a, b, lt→ltb max_io_size count k)
              (
                w'.0,
                ap
                      (λ o. o >>= λ (s : Copy Byte).
                        pread null read fuel idx max_io_size (count - max_io_size)
                          (offset + max_io_size) (record s { buf = c.buf + max_io_size }))
                      w.1
                    ∙ w'.1,
                Filled-congr null read sizes content r
                    (λ i. device null content idx.view (offset + i))
                    (λ i. device null content idx.view (offset + i)) c w'.0 _ _ (omega arith)
                    (λ i j. refl)
                    (Filled-then null (λ i. device null content idx.view (offset + i))
                      (λ i. device null content idx.view (offset + max_io_size + i))
                      (λ i. device null content idx.view (offset + i)) c c' w'.0 max_io_size
                      (count - max_io_size) (λ i j. refl)
                      (λ i.
                        ap (device null content idx.view) {x = offset + (max_io_size + i)}
                          {y = offset + max_io_size + i} (omega arith))
                      (refl, w.2.1) w'.2),
              )
      ]
