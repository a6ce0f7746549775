-- ===== src/Lsmt/File/Write/Refine.antt =====
-- One round of `pwrite` in lsmt/file.cpp against a device of bytes.
use cora.Base.{
  ℕ, ◌+◌, ◌-◌, ◌*◌, ◌/◌, ◌%◌, ◌^◌, ◌≤◌, ◌<◌, ◌≡◌, refl, ap, ◌∙◌, true, Option, some, arith,
  if◌then◌else◌, ltb, leb, ◌&&◌, Bool-cases, inl, inr, le→ltb, ne→==,
}
use cora.Lsmt.Segment.{SegmentMapping}
use cora.Lsmt.Layout.{Block, block, contains}
use cora.Lsmt.Index0
use cora.Lsmt.File.{alignment}
use cora.Lsmt.File.Bytes.{shown}
use cora.Lsmt.File.Write.{Device, Disk, append_data, written_mapping, map_written, pwrite_once}
use cora.Lsmt.File.Write.Once.{
  content, shows, IsDevice, append_index-Alike, Extends, extends-shows, extends-IsDevice,
}

module _ {Byte : Type 0} (null : Byte) (disk : Disk) (back : ℕ → Option Block)
    (lower : ℕ → ℕ → Byte) where
  -- The device with `count` bytes of `f` from `offset` on, all others as before.
  pub record Wrote (f : ℕ → Byte) (count offset : ℕ) (d d' : Device Byte) : Type 0 where
    pub valid : IsDevice null disk back lower d'
    pub bytes :
        (a : ℕ)
        → shows null disk back lower d' a ≡ (
            if leb offset a && ltb a (offset + count)
            then f (a - offset)
            else shows null disk back lower d a)
    pub grown : d'.data_size ≤ d.data_size + count

  -- The data appended and mapped.
  module _ (d : Device Byte) (bytes : ℕ → Byte) (count offset : ℕ)
      (v : IsDevice null disk back lower d) (full : disk.taken d.data_size count ≡ count)
      (a : count % alignment ≡ 0) (b : offset % alignment ≡ 0) (some_bytes : 0 < count)
      (small : count < alignment * 2 ^ 14) (fits : offset + count < alignment * 2 ^ 50)
      (room : d.data_size + count ≤ alignment * 2 ^ 54) where
    mapping : SegmentMapping
    mapping = written_mapping offset count d.data_size d.rw_tag

    pub written : Device Byte
    written = map_written disk (append_data disk d bytes count) count offset d.data_size

    written-data :
        (written.index ≡ Index0.insert d.index mapping)
        × (written.rw_tag ≡ d.rw_tag)
        × (written.data_size ≡ d.data_size + count)
        × ((x : ℕ)
            → written.data_bytes x ≡ (
                if leb d.data_size x && ltb x (d.data_size + count)
                then bytes (x - d.data_size)
                else d.data_bytes x))
    unfolding written map_written mapping
    written-data =
        let w = append_index-Alike null disk back lower _ _ in
        (
          w.0,
          w.3,
          w.2 ∙ omega (arith, full),
          λ x.
              ap (λ (g : ℕ → Byte). g x) w.1
              ∙ ap
                  (λ n.
                    if leb d.data_size x && ltb x (d.data_size + n)
                    then bytes (x - d.data_size)
                    else d.data_bytes x)
                  full,
        )

    written-Extends : Extends null disk back lower d written mapping
    unfolding mapping
    written-Extends = record {
      inserted = written-data.0;
      same_tag = written-data.1;
      fits = ground (arith, v.whole);
      tagged = refl;
      kept = λ x h. ground (arith, written-data.3 x);
      grows = omega (arith, written-data.2);
      still_whole = omega (arith, written-data.2, v.whole);
      still_small = omega (arith, written-data.2);
      holds_data = λ z. omega (arith, written-data.2, v.whole);
    }

    mapping-contains :
        (x : ℕ) → contains mapping (x / alignment) ≡ (leb offset x && ltb x (offset + count))
    unfolding mapping
    mapping-contains x = ground arith

    -- The block that a written byte lies in is the one that was appended for it.
    written-byte :
        (x : ℕ)
        → offset ≤ x
        → x < offset + count
        → shown null
            (content null disk back lower written)
            (some (block mapping (x / alignment)))
            (x % alignment)
          ≡ bytes (x - offset)
    unfolding mapping
    written-byte x h k =
        let place : ((d.data_size / alignment) % 2 ^ 55
                  + (x / alignment - (offset / alignment) % 2 ^ 50))
                * alignment
              + x % alignment
            ≡ d.data_size + (x - offset) =
          omega (arith, v.whole) in
        ap (content null disk back lower written d.rw_tag) place
        ∙ ground (arith, written-data.1, written-data.3 (d.data_size + (x - offset)))

    written-shows :
        (x : ℕ)
        → shows null disk back lower written x ≡ (
            if leb offset x && ltb x (offset + count)
            then bytes (x - offset)
            else shows null disk back lower d x)
    written-shows x =
        extends-shows null disk back lower d written mapping v written-Extends x
        ∙ ap
            (λ t.
              if t
              then shown null (content null disk back lower written)
                  (some (block mapping (x / alignment))) (x % alignment)
              else shows null disk back lower d x)
            (mapping-contains x)
        ∙ elim (Bool-cases (leb offset x && ltb x (offset + count))) [
          | inl h ↦ rw h (written-byte x (ground (arith, h)) (ground (arith, h)))
          | inr h ↦ rw h refl
        ]

    pub written-Wrote : Wrote bytes count offset d written
    written-Wrote = record {
      valid = extends-IsDevice null disk back lower d written mapping v written-Extends;
      bytes = written-shows;
      grown = omega (arith, written-data.2);
    }

    pub pwrite_once-Wrote :
        (pwrite_once disk d bytes count offset).success ≡ true
        × Wrote bytes count offset d (pwrite_once disk d bytes count offset).state
    unfolding pwrite_once written
    pwrite_once-Wrote =
        rw
          (
            le→ltb (disk.taken d.data_size count) count (omega (arith, full)),
            ne→== d.data_size 0 (omega (arith, v.header)),
            ne→== ((count / alignment) % 2 ^ 14) 0 (omega arith),
          )
          (refl, written-Wrote)
