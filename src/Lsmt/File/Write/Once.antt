-- ===== src/Lsmt/File/Write/Once.antt =====
-- One round of `pwrite` and of `fallocate` in lsmt/file.cpp, by the bytes of the device.
use cora.Base.{
  ℕ, ◌+◌, ◌*◌, ◌/◌, ◌%◌, ◌^◌, ◌≤◌, ◌<◌, ◌≡◌, ◌≢◌, refl, ap, sym, subst, ◌∙◌, false, Bool-cases,
  Option, none, some, arith, if◌then◌else◌, ◌==◌, inl, inr,
}
use cora.Lsmt.Segment.{SegmentMapping}
use cora.Lsmt.Layout.{Block, block, contains, find}
use cora.Lsmt.Index0
use cora.Lsmt.Index0.{Index0}
use cora.Lsmt.Index0.Insert.{Fits, Holds, Overwrites, insert-Overwrites}
use cora.Lsmt.Combo.Layers.{over}
use cora.Lsmt.File.{alignment}
use cora.Lsmt.File.Bytes.{shown, device}
use cora.Lsmt.File.Write.{Device, Disk, append_records, do_group_commit_mappings, append_index}

module _ {Byte : Type 0} (null : Byte) (disk : Disk) (back : ℕ → Option Block)
    (lower : ℕ → ℕ → Byte) where
  -- The content of the files: the data file by its tag, others below.
  abbrev pub content : Device Byte → ℕ → ℕ → Byte
  content d tag a = if tag == d.rw_tag then d.data_bytes a else lower tag a

  -- The byte of the device at an address, the index over what lies behind it.
  abbrev pub shows : Device Byte → ℕ → Byte
  shows d a = device null (content d) (λ x. over (find d.index.mapping x) (back x)) a

  -- The blocks of the index are zeroed or lie within the data file, those behind it in other files.
  pub record IsDevice (d : Device Byte) : Type 0 where
    pub holds : Holds d.index
    pub whole : d.data_size % alignment ≡ 0
    pub header : 0 < d.data_size
    pub small : d.data_size ≤ alignment * 2 ^ 54
    pub own :
        (x : ℕ) (b : Block)
        → find d.index.mapping x ≡ some b
        → (b.tag ≡ d.rw_tag) × (b.zeroed ≡ false → (b.moffset + 1) * alignment ≤ d.data_size)
    pub others : (x : ℕ) (b : Block) → back x ≡ some b → b.tag ≢ d.rw_tag

  -- The log does not touch the device.
  abbrev pub Alike : Device Byte → Device Byte → Type 0
  Alike d d' =
      (d'.index ≡ d.index)
      × (d'.data_bytes ≡ d.data_bytes)
      × (d'.data_size ≡ d.data_size)
      × (d'.rw_tag ≡ d.rw_tag)
      × (d'.vsize ≡ d.vsize)
      × (d'.data_offset ≡ d.data_offset)

  pub append_index-Alike : (d : Device Byte) (m : SegmentMapping) → Alike d (append_index disk d m)
  unfolding append_index append_records do_group_commit_mappings
  append_index-Alike d m = ground arith

  -- A device after one more mapping, with what was in its data file still there.
  pub record Extends (d d' : Device Byte) (m : SegmentMapping) : Type 0 where
    pub inserted : d'.index ≡ Index0.insert d.index m
    pub same_tag : d'.rw_tag ≡ d.rw_tag
    pub fits : Fits m
    pub tagged : m.tag ≡ d.rw_tag
    pub kept : (a : ℕ) → a < d.data_size → d'.data_bytes a ≡ d.data_bytes a
    pub grows : d.data_size ≤ d'.data_size
    pub still_whole : d'.data_size % alignment ≡ 0
    pub still_small : d'.data_size ≤ alignment * 2 ^ 54
    pub holds_data : m.zeroed ≡ false → (m.moffset + m.length) * alignment ≤ d'.data_size

  module _ (d d' : Device Byte) (m : SegmentMapping) (v : IsDevice d) (e : Extends d d' m) where
    overwrites : Holds d'.index × Overwrites m d.index.mapping d'.index.mapping
    overwrites =
        subst (λ (i : Index0). Holds i × Overwrites m d.index.mapping i.mapping) (sym e.inserted)
          (insert-Overwrites d.index m e.fits v.holds)

    -- A block that was mapped before shows what it did.
    same_own :
        (b : Block) (i : ℕ)
        → i < alignment
        → b.tag ≡ d.rw_tag
        → (b.zeroed ≡ false → (b.moffset + 1) * alignment ≤ d.data_size)
        → shown null (content d') (some b) i ≡ shown null (content d) (some b) i
    same_own b i h t w = elim (Bool-cases b.zeroed) [
      | inl z ↦ rw z refl
      | inr z ↦ rw z (ground (arith, e.same_tag, t, e.kept (b.moffset * alignment + i), w z))
    ]

    same_other :
        (b : Block) (i : ℕ)
        → b.tag ≢ d.rw_tag
        → shown null (content d') (some b) i ≡ shown null (content d) (some b) i
    same_other b i t = ground (arith, e.same_tag, t)

    same_shown :
        (x i : ℕ) (o : Option Block)
        → i < alignment
        → find d.index.mapping x ≡ o
        → shown null (content d') (over o (back x)) i ≡ shown null (content d) (over o (back x)) i
    same_shown x i (some b) h q = let w = v.own x b q in same_own b i h w.0 w.1
    same_shown x i none h q = behind_it (back x) refl
      where
        behind_it :
            (o : Option Block)
            → back x ≡ o
            → shown null (content d') o i ≡ shown null (content d) o i
        behind_it none p = refl
        behind_it (some b) p = same_other b i (v.others x b p)

    pub extends-shows :
        (a : ℕ)
        → shows d' a ≡ (
            if contains m (a / alignment)
            then shown null (content d') (some (block m (a / alignment))) (a % alignment)
            else shows d a)
    extends-shows a =
        let x = a / alignment in
        ap (λ o. shown null (content d') (over o (back x)) (a % alignment)) (overwrites.1 x)
        ∙ elim (Bool-cases (contains m x)) [
          | inl h ↦ rw h refl
          | inr h ↦ rw h (same_shown x (a % alignment) (find d.index.mapping x) (omega arith) refl)
        ]

    pub extends-IsDevice : IsDevice d'
    extends-IsDevice = record {
      holds = overwrites.0;
      whole = e.still_whole;
      header = omega (arith, v.header, e.grows);
      small = e.still_small;
      own = λ x b q. elim (Bool-cases (contains m x)) [
        | inl h ↦ ground (arith, overwrites.1 x, h, q, e.same_tag, e.tagged, e.holds_data)
        | inr h ↦
            let w = v.own x b (sym (rw h at (overwrites.1 x)) ∙ q) in
            (w.0 ∙ sym e.same_tag, λ z. omega (arith, w.1 z, e.grows))
      ];
      others = λ x b q. subst (λ y. b.tag ≢ y) (sym e.same_tag) (v.others x b q);
    }
