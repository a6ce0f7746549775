-- ===== src/Lsmt/File/Log/Recovery.antt =====
-- The index of an `LSMTFile` in lsmt/file.cpp, as its records bring it back.
use cora.Base.{
  ℕ, ◌-◌, ◌<◌, ◌≡◌, ◌≢◌, refl, ap, sym, subst, ◌∙◌, List, [], ◌++◌, true, false, arith, Bool-cases,
  inl, inr, ◌==◌, replicate, length, ne→==, le→leb,
}
use mathlib.Core.List.{append_assoc, append-nil}
use cora.Lsmt.Segment.{SegmentMapping, invalid_mapping}
use cora.Lsmt.File.Write.{Device, Disk, append_records, do_group_commit_mappings}
use cora.Lsmt.File.Log.{load_index}
use cora.Lsmt.File.Log.Replay.{load_index-append, load_index-padding, take_all, length_zero}

-- The index file takes the records that it is given.
abbrev pub TakesRecords : Disk → Type 0
TakesRecords disk = (n m : ℕ) → disk.taken_records n m ≡ m

module _ {Byte : Type 0} (disk : Disk) (takes : TakesRecords disk) where
  -- What the index file would say with the stacked mappings.
  abbrev pub logged : Device Byte → List SegmentMapping
  logged d = load_index (d.records ++ d.stacked)

  -- With room for one more on the stack, or none used.
  abbrev pub HasRoom : Device Byte → Type 0
  HasRoom d =
      (d.has_findex ≡ true)
      × (d.capacity ≡ 0 → d.stacked ≡ [])
      × (d.capacity ≢ 0 → length d.stacked < d.capacity)

  pub taken-records :
      (d : Device Byte) (ms : List SegmentMapping)
      → append_records disk d ms
        ≡ record { success = true; aborted = false; state = record d { records = d.records ++ ms } }
  unfolding append_records
  taken-records d ms =
      rw
        (
          takes (length d.records) (length ms),
          le→leb (length ms) (length ms) (omega arith),
          take_all ms,
        )
        refl

  commit-none :
      (d : Device Byte)
      → length d.stacked ≡ 0
      → do_group_commit_mappings disk d ≡ record { success = true; aborted = false; state = d }
  unfolding do_group_commit_mappings
  commit-none d h = rw h refl

  -- The stack as it is written, with its padding.
  abbrev padded : Device Byte → List SegmentMapping
  padded d = d.stacked ++ replicate (d.capacity - length d.stacked) invalid_mapping

  commit-some :
      (d : Device Byte)
      → length d.stacked ≢ 0
      → do_group_commit_mappings disk d ≡ record {
        success = true;
        aborted = false;
        state = record d { records = d.records ++ padded d; stacked = [] };
      }
  unfolding do_group_commit_mappings
  commit-some d h =
      rw (ne→== (length d.stacked) 0 h, taken-records (record d { stacked = padded d }) (padded d))
        refl

  -- The state after the stack has been written: nothing is left to write.
  pub record Written (d d' : Device Byte) : Type 0 where
    pub told : load_index d'.records ≡ logged d
    pub empty : d'.stacked ≡ []
    pub same_index : d'.index ≡ d.index
    pub same_size : d'.data_size ≡ d.data_size
    pub same_findex : d'.has_findex ≡ d.has_findex
    pub same_capacity : d'.capacity ≡ d.capacity
    pub same_tag : d'.rw_tag ≡ d.rw_tag

  padded-logged : (d : Device Byte) → load_index (d.records ++ padded d) ≡ logged d
  padded-logged d =
      ap load_index (sym (append_assoc d.records d.stacked _))
      ∙ load_index-append (d.records ++ d.stacked) _
      ∙ ap (λ r. logged d ++ r) (load_index-padding (d.capacity - length d.stacked))
      ∙ append-nil (logged d)

  pub commit-Written :
      (d : Device Byte)
      → (do_group_commit_mappings disk d).success ≡ true
        × Written d (do_group_commit_mappings disk d).state
  commit-Written d = elim (Bool-cases (length d.stacked == 0)) [
    | inl h ↦
        subst (λ r. r.success ≡ true × Written d r.state) (sym (commit-none d (ground (arith, h))))
          (
            refl,
            record {
              told = ap load_index (
                  sym (append-nil d.records)
                  ∙ ap (λ r. d.records ++ r) (sym (length_zero d.stacked (ground (arith, h)))));
              empty = length_zero d.stacked (ground (arith, h));
              same_index = refl;
              same_size = refl;
              same_findex = refl;
              same_capacity = refl;
              same_tag = refl;
            },
          )
    | inr h ↦
        subst (λ r. r.success ≡ true × Written d r.state) (sym (commit-some d (ground (arith, h))))
          (
            refl,
            record {
              told = padded-logged d;
              empty = refl;
              same_index = refl;
              same_size = refl;
              same_findex = refl;
              same_capacity = refl;
              same_tag = refl;
            },
          )
  ]
