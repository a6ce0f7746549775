-- ===== src/Lsmt/File/Write/Punch.antt =====
-- One round of `fallocate` in lsmt/file.cpp against a device of bytes.
use cora.Base.{
  ℕ, ◌+◌, ◌*◌, ◌/◌, ◌%◌, ◌^◌, ◌≤◌, ◌<◌, ◌≡◌, refl, ap, ◌∙◌, true, Option, arith, if◌then◌else◌, ltb,
  leb, ◌&&◌,
}
use cora.Lsmt.Segment.{SegmentMapping, max_length}
use cora.Lsmt.Segment
use cora.Lsmt.Layout.{Block, contains}
use cora.Lsmt.Index0
use cora.Lsmt.File.{alignment}
use cora.Lsmt.File.Write.{Device, Disk, written_mapping, discard, fallocate_once}
use cora.Lsmt.File.Write.Once.{
  shows, IsDevice, append_index-Alike, Extends, extends-shows, extends-IsDevice,
}
use cora.Lsmt.File.Write.Refine.{Wrote}

module _ {Byte : Type 0} (null : Byte) (disk : Disk) (back : ℕ → Option Block)
    (lower : ℕ → ℕ → Byte) (d : Device Byte) (count offset : ℕ)
    (v : IsDevice null disk back lower d) (a : count % alignment ≡ 0) (b : offset % alignment ≡ 0)
    (small : count ≤ max_length * alignment) (fits : offset + count < alignment * 2 ^ 50) where
  mapping : SegmentMapping
  mapping = record (Segment.discard (written_mapping offset count 0 0)) {
    moffset = (d.data_size / alignment) % 2 ^ 55;
    tag = d.rw_tag;
  }

  punched : Device Byte
  punched = discard disk d (Segment.discard (written_mapping offset count 0 0))

  punched-data :
      (punched.index ≡ Index0.insert d.index mapping)
      × (punched.rw_tag ≡ d.rw_tag)
      × (punched.data_size ≡ d.data_size)
      × (punched.data_bytes ≡ d.data_bytes)
  unfolding punched discard mapping
  punched-data =
      let w =
        append_index-Alike null disk back lower (record d { index = Index0.insert d.index mapping })
          mapping in
      (w.0, w.3, w.2, w.1)

  punched-Extends : Extends null disk back lower d punched mapping
  unfolding mapping
  punched-Extends = record {
    inserted = punched-data.0;
    same_tag = punched-data.1;
    fits = ground (arith, v.whole, v.small);
    tagged = refl;
    kept = λ x h. ap (λ (f : ℕ → Byte). f x) punched-data.3;
    grows = omega (arith, punched-data.2);
    still_whole = omega (arith, punched-data.2, v.whole);
    still_small = omega (arith, punched-data.2, v.small);
    holds_data = λ z. ground (arith, z);
  }

  mapping-contains :
      (x : ℕ) → contains mapping (x / alignment) ≡ (leb offset x && ltb x (offset + count))
  unfolding mapping
  mapping-contains x = ground arith

  punched-shows :
      (x : ℕ)
      → shows null disk back lower punched x
        ≡ (if leb offset x && ltb x (offset + count) then null else shows null disk back lower d x)
  unfolding mapping
  punched-shows x =
      extends-shows null disk back lower d punched mapping v punched-Extends x
      ∙ ap (λ t. if t then null else shows null disk back lower d x) (mapping-contains x)

  pub fallocate_once-Wrote :
      (fallocate_once disk d true true offset count).success ≡ true
      × Wrote null disk back lower
          (λ i. null)
          count
          offset
          d
          (fallocate_once disk d true true offset count).state
  unfolding fallocate_once punched
  fallocate_once-Wrote =
      rw (a, b)
        (
          refl,
          record {
            valid = extends-IsDevice null disk back lower d punched mapping v punched-Extends;
            bytes = punched-shows;
            grown = omega (arith, punched-data.2);
          },
        )
