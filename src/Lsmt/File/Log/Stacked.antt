-- ===== src/Lsmt/File/Log/Stacked.antt =====
-- `append_index` in lsmt/file.cpp and what the index file says after it.
use cora.Base.{
  ◌+◌, ◌≡◌, ◌≢◌, refl, ap, sym, subst, ◌∙◌, [], ◌∷◌, ◌++◌, arith, Bool-cases, inl, inr, ◌==◌,
  length, ne→==, ==_refl,
}
use mathlib.Core.List.{append_assoc, append-nil}
use cora.Lsmt.Segment.{SegmentMapping, invalid_offset}
use cora.Lsmt.File.Write.{
  Device, Disk, Done, append_records, do_group_commit_mappings, append_index,
}
use cora.Lsmt.File.Log.{load_index}
use cora.Lsmt.File.Log.Replay.{load_index-append, load_index_one, length-append_one}
use cora.Lsmt.File.Log.Recovery.{TakesRecords, logged, HasRoom, commit-Written, taken-records}

module _ {Byte : Type 0} (disk : Disk) (takes : TakesRecords disk) where
  -- One more record than before, in the file or on the stack.
  pub record Logs (m : SegmentMapping) (d d' : Device Byte) : Type 0 where
    pub told : logged disk takes d' ≡ logged disk takes d ++ (m ∷ [])
    pub room : HasRoom disk takes d'
    pub same_index : d'.index ≡ d.index
    pub same_size : d'.data_size ≡ d.data_size
    pub same_tag : d'.rw_tag ≡ d.rw_tag

  module _ (d : Device Byte) (m : SegmentMapping) (r : HasRoom disk takes d)
      (h : m.offset ≢ invalid_offset) (t : m.tag ≡ 0) where
    abbrev stacking : Device Byte
    stacking = record d { stacked = d.stacked ++ (m ∷ []) }

    stacking-logged : logged disk takes stacking ≡ logged disk takes d ++ (m ∷ [])
    stacking-logged =
        ap load_index (sym (append_assoc d.records d.stacked (m ∷ [])))
        ∙ load_index-append (d.records ++ d.stacked) (m ∷ [])
        ∙ ap (λ r. logged disk takes d ++ r) (load_index_one m h t)

    append_index_appended :
        d.capacity ≡ 0 → append_index disk d m ≡ (append_records disk d (m ∷ [])).state
    unfolding append_index
    append_index_appended z = rw (r.0, z) refl

    append_index_direct :
        d.capacity ≡ 0 → append_index disk d m ≡ record d { records = d.records ++ (m ∷ []) }
    append_index_direct z =
        append_index_appended z
        ∙ ap (λ (r : Done (Device Byte)). r.state) (taken-records disk takes d (m ∷ []))

    append_index_full :
        length d.stacked + 1 ≡ d.capacity
        → append_index disk d m ≡ (do_group_commit_mappings disk stacking).state
    unfolding append_index
    append_index_full z =
        rw (r.0, ne→== d.capacity 0 (omega arith), sym z, ==_refl (length d.stacked + 1)) refl

    append_index_stacked :
        d.capacity ≢ 0 → length d.stacked + 1 ≢ d.capacity → append_index disk d m ≡ stacking
    unfolding append_index
    append_index_stacked z w =
        rw (r.0, ne→== d.capacity 0 z, ne→== (length d.stacked + 1) d.capacity w) refl

    direct-Logs : d.capacity ≡ 0 → Logs m d (record d { records = d.records ++ (m ∷ []) })
    direct-Logs z = record {
      told =
          ap (λ s. load_index (d.records ++ (m ∷ []) ++ s)) (r.1 z)
          ∙ ap load_index (append-nil (d.records ++ (m ∷ [])))
          ∙ ap (λ s. load_index (d.records ++ s)) (ap (λ s. s ++ (m ∷ [])) (sym (r.1 z)))
          ∙ stacking-logged;
      room = r;
      same_index = refl;
      same_size = refl;
      same_tag = refl;
    }

    full-Logs :
        length d.stacked + 1 ≡ d.capacity → Logs m d (do_group_commit_mappings disk stacking).state
    full-Logs z =
        let w = (commit-Written disk takes stacking).1 in
        record {
          told =
              ap load_index (
                ap (λ s. (do_group_commit_mappings disk stacking).state.records ++ s) w.empty
                ∙ append-nil (do_group_commit_mappings disk stacking).state.records)
              ∙ w.told
              ∙ stacking-logged;
          room = (
            w.same_findex ∙ r.0,
            λ _. w.empty,
            λ e. rw (w.empty, w.same_capacity) (omega (arith, w.same_capacity, e)),
          );
          same_index = w.same_index;
          same_size = w.same_size;
          same_tag = w.same_tag;
        }

    stacked-Logs : d.capacity ≢ 0 → length d.stacked + 1 ≢ d.capacity → Logs m d stacking
    stacked-Logs z w = record {
      told = stacking-logged;
      room =
          (r.0, λ e. absurd (z e), λ e. rw (length-append_one d.stacked m) (omega (arith, r.2 e)));
      same_index = refl;
      same_size = refl;
      same_tag = refl;
    }

    pub append_index-Logs : Logs m d (append_index disk d m)
    append_index-Logs = elim (Bool-cases (d.capacity == 0)) [
      | inl z ↦
          subst (Logs m d) (sym (append_index_direct (ground (arith, z))))
            (direct-Logs (ground (arith, z)))
      | inr z ↦ elim (Bool-cases (length d.stacked + 1 == d.capacity)) [
        | inl w ↦
            subst (Logs m d) (sym (append_index_full (ground (arith, w))))
              (full-Logs (ground (arith, w)))
        | inr w ↦
            subst (Logs m d) (sym (append_index_stacked (ground (arith, z)) (ground (arith, w))))
              (stacked-Logs (ground (arith, z)) (ground (arith, w)))
      ]
    ]
