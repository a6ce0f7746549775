-- ===== src/Lsmt/Combo/Backing.antt =====
-- `ComboIndex::lookup` of lsmt/index.cpp with an index behind it or with none.
use cora.Base.{
  ℕ, ◌^◌, ◌≤◌, ◌<◌, ◌≡◌, refl, sym, subst, fun_ext, List, [], Option, none, some, arith, le-cases,
  inl, inr,
}
use cora.Lsmt.Segment.{Segment, SegmentMapping, segment_end}
use cora.Lsmt.Layout.{Block, find, IsIndex}
use cora.Lsmt.Lookup.{lookup}
use cora.Lsmt.Lookup.Answer.{Answers, lookup-Answers, nothing}
use cora.Lsmt.MemoryIndex.{MemoryIndex}
use cora.Lsmt.Index0.{Index0}
use cora.Lsmt.Combo.{combo_lookup}
use cora.Lsmt.Combo.Layers.{over}
use cora.Lsmt.Combo.Refine.{lookup_over-Answers}

-- What an index behind says of a block; none says nothing.
abbrev pub backing_view : Option MemoryIndex → ℕ → Option Block
backing_view none x = none
backing_view (some idx) x = idx.view x

abbrev pub backing_lookup : Option MemoryIndex → Option (Segment → ℕ → List SegmentMapping)
backing_lookup none = none
backing_lookup (some idx) = some idx.lookup

over-none : (o : Option Block) → over o none ≡ o
over-none none = refl
over-none (some b) = refl

combo_lookup_empty :
    (i : Index0) (s : Segment) (n : ℕ) → s.length ≡ 0 → combo_lookup i none s n ≡ []
unfolding combo_lookup
combo_lookup_empty i s n e = ground (arith, e)

combo_lookup_alone :
    (i : Index0) (s : Segment) (n : ℕ)
    → 0 < s.length
    → combo_lookup i none s n ≡ lookup i.mapping s n
unfolding combo_lookup
combo_lookup_alone i s n h = ground (arith, h)

-- With room for at least one mapping: a look-up in a set that is in order and disjoint, with an index behind it that
-- answers for its view or with none, says of the blocks of the segment what the set maps them to, or else the index.
pub combo_lookup-Answers :
    (i : Index0) (backing : Option MemoryIndex) (s : Segment) (n : ℕ)
    → IsIndex i.mapping
    → segment_end s ≤ 2 ^ 50
    → s.length < 2 ^ 14
    → 0 < n
    → Answers
        (λ x. over (find i.mapping x) (backing_view backing x))
        s
        n
        (combo_lookup i (backing_lookup backing) s n)
unfolding combo_lookup
combo_lookup-Answers i (some idx) s n c f l pos = lookup_over-Answers idx i.mapping s n c f l
combo_lookup-Answers i none s n c f l pos =
    subst (λ v. Answers v s n (combo_lookup i none s n))
      (fun_ext (λ x. sym (over-none (find i.mapping x))))
      (elim (le-cases s.length 0) [
        | inl h ↦
            subst (Answers (find i.mapping) s n) (sym (combo_lookup_empty i s n (omega arith)))
              (nothing s n (find i.mapping) h)
        | inr h ↦
            subst (Answers (find i.mapping) s n) (sym (combo_lookup_alone i s n h))
              (lookup-Answers i.mapping s n c f pos)
      ])
