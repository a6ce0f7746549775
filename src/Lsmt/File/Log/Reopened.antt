-- ===== src/Lsmt/File/Log/Reopened.antt =====
-- The index of an `LSMTFile` in lsmt/file.cpp after its file was closed and opened again.
use cora.Base.{
  ℕ, max, ◌+◌, ◌-◌, ◌*◌, ◌/◌, ◌%◌, ◌^◌, ◌≤◌, ◌<◌, ◌≡◌, refl, ap, sym, subst, ◌∙◌, [], ◌∷◌, ◌++◌,
  true, none, some, arith, if◌then◌else◌, le→ltb, ne→==,
}
use cora.Lsmt.Segment.{SegmentMapping, mend, invalid_offset, max_length}
use cora.Lsmt.Segment
use cora.Lsmt.Layout.{block, contains, find}
use cora.Lsmt.Index0
use cora.Lsmt.Index0.{Index0}
use cora.Lsmt.Index0.Insert.{Fits, Holds, insert-Overwrites}
use cora.Lsmt.Create.Checked.{AllFit, AreWithin, latest, create_memory_index0-latest}
use cora.Lsmt.Create.{create_memory_index0}
use cora.Lsmt.File.{alignment}
use cora.Lsmt.File.Write.{
  Device, Disk, written_mapping, append_data, map_written, pwrite_once, discard, fallocate_once,
  do_group_commit_mappings,
}
use cora.Lsmt.File.Log.{header_blocks, open_index}
use cora.Lsmt.File.Log.Replay.{latest-append_one, AllFit-append, AreWithin-append, AreWithin-grow}
use cora.Lsmt.File.Log.Recovery.{TakesRecords, logged, HasRoom, commit-Written}
use cora.Lsmt.File.Log.Stacked.{Logs, append_index-Logs}

-- A hole of whole blocks on the device.
pub record IsPunch (count offset : ℕ) : Type 0 where
  pub whole : count % alignment ≡ 0
  pub aligned : offset % alignment ≡ 0
  pub once : count ≤ max_length * alignment
  pub fits : offset + count < alignment * (2 ^ 50 - 1)

module _ {Byte : Type 0} (disk : Disk) (takes : TakesRecords disk) where
  -- The log says what the index does, of blocks that the data file has.
  pub record Recorded (d : Device Byte) : Type 0 where
    pub room : HasRoom disk takes d
    pub first_tag : d.rw_tag ≡ 0
    pub whole : d.data_size % alignment ≡ 0
    pub header : header_blocks * alignment ≤ d.data_size
    pub small : d.data_size ≤ alignment * 2 ^ 54
    pub holds : Holds d.index
    pub all_fit : AllFit (logged disk takes d)
    pub within : AreWithin header_blocks (d.data_size / alignment) (logged disk takes d)
    pub same : (x : ℕ) → find d.index.mapping x ≡ latest (logged disk takes d) (λ y. none) x

  -- A write of whole blocks, not empty, that the data file takes and the device has room for.
  pub record IsWrite (d : Device Byte) (count offset : ℕ) : Type 0 where
    pub full : disk.taken d.data_size count ≡ count
    pub whole : count % alignment ≡ 0
    pub aligned : offset % alignment ≡ 0
    pub some_bytes : 0 < count
    pub once : count < alignment * 2 ^ 14
    pub fits : offset + count < alignment * (2 ^ 50 - 1)
    pub room : d.data_size + count ≤ alignment * 2 ^ 54

  -- Successful calls one after another.
  pub data Reach (start : Device Byte) : Device Byte → Type 0 where
    here : Reach start start
    wrote :
        (d : Device Byte) (bytes : ℕ → Byte) (count offset : ℕ)
        → Reach start d
        → IsWrite d count offset
        → Reach start (pwrite_once disk d bytes count offset).state
    punched :
        (d : Device Byte) (count offset : ℕ)
        → Reach start d
        → IsPunch count offset
        → Reach start (fallocate_once disk d true true offset count).state

  -- One more mapping in the index and in the log, of a device `d0` that differs from `d` by its index and
  -- its data.
  module _ (d d0 d' : Device Byte) (m : SegmentMapping) (r : Recorded d)
      (l : Logs disk takes m d0 d') (log : logged disk takes d0 ≡ logged disk takes d)
      (ins : d0.index ≡ Index0.insert d.index m) (f : Fits m)
      (w : AreWithin header_blocks (d0.data_size / alignment) (m ∷ []))
      (grows : d.data_size ≤ d0.data_size) (whole : d0.data_size % alignment ≡ 0)
      (small : d0.data_size ≤ alignment * 2 ^ 54) (tag : d0.rw_tag ≡ 0) where
    told : logged disk takes d' ≡ logged disk takes d ++ (m ∷ [])
    told = l.told ∙ ap (λ r. r ++ (m ∷ [])) log

    inserted : d'.index ≡ Index0.insert d.index m
    inserted = l.same_index ∙ ins

    pub Logs-Recorded : Recorded d'
    Logs-Recorded =
        let o = insert-Overwrites d.index m f r.holds in
        record {
          room = l.room;
          first_tag = l.same_tag ∙ tag;
          whole = omega (arith, l.same_size, whole);
          header = omega (arith, l.same_size, r.header);
          small = omega (arith, l.same_size, small);
          holds = subst Holds (sym inserted) o.0;
          all_fit =
              subst AllFit (sym told)
                (AllFit-append (logged disk takes d) (m ∷ []) r.all_fit (f, tt));
          within =
              subst (λ e. AreWithin header_blocks (e / alignment) (logged disk takes d'))
                (sym l.same_size)
                (subst (AreWithin header_blocks (d0.data_size / alignment)) (sym told) (
                  AreWithin-append header_blocks (d0.data_size / alignment) (logged disk takes d)
                    (m ∷ [])
                    (AreWithin-grow header_blocks (d.data_size / alignment)
                      (d0.data_size / alignment) (logged disk takes d) (omega (arith, grows))
                      r.within)
                    w));
          same = λ x.
              ap (λ (i : Index0). find i.mapping x) inserted
              ∙ o.1 x
              ∙ ap (λ v. if contains m x then some (block m x) else v) (r.same x)
              ∙ sym (latest-append_one (logged disk takes d) m (λ y. none) x)
              ∙ ap (λ ms. latest ms (λ y. none) x) (sym told);
        }

  module _ (d : Device Byte) (bytes : ℕ → Byte) (count offset : ℕ) (r : Recorded d)
      (w : IsWrite d count offset) where
    mapping : SegmentMapping
    mapping = written_mapping offset count d.data_size d.rw_tag

    -- The device with the mapping in its index, before it is logged.
    before : Device Byte
    before = record (append_data disk d bytes count) {
      vsize = max d.vsize (count + offset);
      data_offset = mend mapping;
      index = Index0.insert d.index mapping;
    }

    written-Recorded :
        Recorded (map_written disk (append_data disk d bytes count) count offset d.data_size)
    unfolding map_written mapping before
    written-Recorded =
        Logs-Recorded d before _ mapping r
          (append_index-Logs disk takes before mapping r.room (ground (arith, w.fits, w.some_bytes))
            r.first_tag)
          refl refl (ground (arith, w.fits, w.once, w.room, w.whole, r.whole, w.aligned))
          (ground (arith, w.full, w.fits, w.once, w.room, w.whole, r.whole, r.header, w.some_bytes))
          (omega arith) (omega (arith, w.full, w.whole, r.whole)) (omega (arith, w.full, w.room))
          r.first_tag

    pwrite_once-Recorded : Recorded (pwrite_once disk d bytes count offset).state
    unfolding pwrite_once
    pwrite_once-Recorded =
        rw
          (
            le→ltb (disk.taken d.data_size count) count (omega (arith, w.full)),
            ne→== d.data_size 0 (omega (arith, r.header)),
            ne→== ((count / alignment) % 2 ^ 14) 0 (omega (arith, w.some_bytes, w.whole, w.once)),
          )
          written-Recorded

  module _ (d : Device Byte) (count offset : ℕ) (r : Recorded d) (w : IsPunch count offset) where
    hole : SegmentMapping
    hole = record (Segment.discard (written_mapping offset count 0 0)) {
      moffset = (d.data_size / alignment) % 2 ^ 55;
      tag = d.rw_tag;
    }

    open_hole : Device Byte
    open_hole = record d { index = Index0.insert d.index hole }

    discard-Recorded :
        Recorded (discard disk d (Segment.discard (written_mapping offset count 0 0)))
    unfolding discard hole open_hole
    discard-Recorded =
        Logs-Recorded d open_hole _ hole r
          (append_index-Logs disk takes open_hole hole r.room (ground (arith, w.fits)) r.first_tag)
          refl refl (ground (arith, w.fits, w.once, r.small, w.whole, w.aligned))
          (ground (arith, r.small, r.header, r.whole)) (omega arith) r.whole r.small r.first_tag

    fallocate_once-Recorded : Recorded (fallocate_once disk d true true offset count).state
    unfolding fallocate_once
    fallocate_once-Recorded = rw (w.whole, w.aligned) discard-Recorded

  Reach-Recorded : {start d : Device Byte} → Recorded start → Reach start d → Recorded d
  Reach-Recorded r here = r
  Reach-Recorded r (wrote d bytes count offset s w) =
      pwrite_once-Recorded d bytes count offset (Reach-Recorded r s) w
  Reach-Recorded r (punched d count offset s w) =
      fallocate_once-Recorded d count offset (Reach-Recorded r s) w

  -- After any sequence of writes that are not empty and punches from a state whose log agrees with its index, the commit
  -- at the closing succeeds, and the next opening makes an index of the log that maps each block as the
  -- closed one did.
  pub open_index-Reach :
      {start d : Device Byte}
      → Recorded start
      → Reach start d
      → (do_group_commit_mappings disk d).success ≡ true
        × ((i : Index0) × (open_index (do_group_commit_mappings disk d).state ≡ some i)
            × ((x : ℕ) → find i.mapping x ≡ find d.index.mapping x))
  unfolding open_index
  open_index-Reach {start} {d} r s =
      let v = Reach-Recorded r s in
      let c = commit-Written disk takes d in
      let o =
        create_memory_index0-latest (logged disk takes d) header_blocks (d.data_size / alignment)
          v.all_fit v.within in
      (
        c.0,
        (
          o.0,
          ap
                (λ ms.
                  create_memory_index0 ms header_blocks
                    ((do_group_commit_mappings disk d).state.data_size / alignment))
                c.1.told
              ∙ ap (λ e. create_memory_index0 (logged disk takes d) header_blocks (e / alignment))
                  c.1.same_size
              ∙ o.1,
          λ x. o.3 x ∙ sym (v.same x),
        ),
      )
