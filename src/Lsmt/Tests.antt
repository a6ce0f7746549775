-- ===== src/Lsmt/Tests.antt =====
-- Runs of the index and of the file of lsmt, and the theorems about them at concrete inputs.
use cora.Base.{
  ℕ, ◌+◌, ◌*◌, ◌^◌, ◌≤◌, ◌<◌, ◌≡◌, ◌↔◌, refl, List, [], ◌∷◌, false, none, some, arith, length,
}
use cora.Lsmt.Segment.{Segment, SegmentMapping}
use cora.Lsmt.Layout.{find, Chain, IsIndex, total}
use cora.Lsmt.Lookup.{
  lookup, lower_bound, before, copy_n, trim_front, trim_back, trim_edge_mappings,
}
use cora.Lsmt.Index0
use cora.Lsmt.Index0.{Index0, insert, insert_all, empty}
use cora.Lsmt.Index0.Insert.{Holds, Overwrites, insert-Overwrites}
use cora.Lsmt.MemoryIndex.{plain}
use cora.Lsmt.Lookup.Answer.{Answers}
use cora.Lsmt.Foreach.{Outcome, ok}
use cora.Lsmt.Foreach.Walk.{Walk, foreach_segments-Walk}
use cora.Lsmt.Combo.{lookup_over}
use cora.Lsmt.Combo.Layers.{over}
use cora.Lsmt.Combo.Refine.{lookup_over-Answers}
use cora.Lsmt.Merge.{
  merge_memory_indexes, merge_indexes, merge_one, merge_through, merge_keeping, uint64_max,
}
use cora.Lsmt.Merge.Keeping.{merge_keeping-over}
use cora.Lsmt.Merge.Refine.{AreIndexes, levels, merge_memory_indexes-levels}
use cora.Lsmt.Compress.{
  compress_raw_index, compress_from, joins, compress_raw_index_predict, predict_from, joins_predict,
}
use cora.Lsmt.Compress.Joined.{Apart, compress_raw_index-Apart}
use cora.Lsmt.Create.{create_memory_index}
use cora.Lsmt.Create.Checked.{AreWithin, create_memory_index-IsIndex}
use cora.Lsmt.Combo.{combo_lookup}
use cora.Lsmt.Combo.Backing.{combo_lookup-Answers}

abbrev mapping : ℕ → ℕ → ℕ → ℕ → SegmentMapping
mapping o l m t = record { offset = o; length = l; moffset = m; zeroed = false; tag = t }

abbrev two : List SegmentMapping
two = mapping 0 10 8 0 ∷ mapping 20 5 18 0 ∷ []

abbrev lower_two : List SegmentMapping
lower_two = mapping 4 30 8 0 ∷ mapping 40 5 38 0 ∷ []

abbrev index_two : Index0
index_two = record { mapping = two; alloc_blk = 15 }

insert_runs :
    (insert index_two (mapping 5 18 23 0)).mapping
    ≡ mapping 0 5 8 0 ∷ mapping 5 18 23 0 ∷ mapping 23 2 21 0 ∷ []
unfolding insert Index0.insert_at Index0.remove_partial_overlap Index0.remove_middle
    Index0.set_insert lower_bound before
insert_runs = refl

insert-Overwrites_example :
    Holds (insert index_two (mapping 5 18 23 0))
    × Overwrites (mapping 5 18 23 0) two (insert index_two (mapping 5 18 23 0)).mapping
unfolding Chain total
insert-Overwrites_example =
    insert-Overwrites index_two (mapping 5 18 23 0) (ground arith) (ground arith)

two-IsIndex : IsIndex two
unfolding Chain
two-IsIndex = ground arith

lower_two-IsIndex : IsIndex lower_two
unfolding Chain
lower_two-IsIndex = ground arith

abbrev whole : Segment
whole = record { offset = 2; length = 40 }

lookup_runs : lookup two whole 16 ≡ mapping 2 8 10 0 ∷ mapping 20 5 18 0 ∷ []
unfolding lookup lower_bound copy_n trim_edge_mappings trim_front trim_back
lookup_runs = refl

abbrev count_zero : Segment → ℕ → Outcome ℕ
count_zero g n = ok (n + 1000 * g.length)

abbrev count_data : SegmentMapping → ℕ → Outcome ℕ
count_data m n = ok (n + m.length)

foreach_segments-Walk_example : Walk count_zero count_data (plain two two-IsIndex) whole 41 2 42
foreach_segments-Walk_example =
    foreach_segments-Walk count_zero count_data (plain two two-IsIndex) whole (omega arith)
      (omega arith)

lookup_over-Answers_example :
    Answers
      (λ x. over (find two x) (find lower_two x))
      whole
      16
      (lookup_over (lookup lower_two) two whole 16)
lookup_over-Answers_example =
    lookup_over-Answers (plain lower_two lower_two-IsIndex) two whole 16 two-IsIndex (omega arith)
      (omega arith)

combo_lookup-Answers_example :
    Answers (λ x. over (find two x) none) whole 16 (combo_lookup index_two none whole 16)
combo_lookup-Answers_example =
    combo_lookup-Answers index_two none whole 16 two-IsIndex (omega arith) (omega arith)
      (omega arith)

abbrev layers : List (List SegmentMapping)
layers = two ∷ lower_two ∷ []

layers-AreIndexes : AreIndexes layers
unfolding Chain
layers-AreIndexes = ground arith

merge_runs :
    merge_memory_indexes layers
    ≡ some (
        mapping 0 10 8 0
        ∷ mapping 10 10 14 1
        ∷ mapping 20 5 18 0
        ∷ mapping 25 9 29 1
        ∷ mapping 40 5 38 1
        ∷ [])
unfolding merge_memory_indexes merge_indexes merge_one merge_through lower_bound trim_front
    trim_back
merge_runs = refl

merge_memory_indexes-levels_example :
    (r : List SegmentMapping) × (merge_memory_indexes layers ≡ some r)
    × IsIndex r
    × ((x : ℕ) → x < 2 ^ 50 → find r x ≡ levels 0 layers x)
merge_memory_indexes-levels_example =
    merge_memory_indexes-levels layers layers-AreIndexes (omega arith) (omega arith)

merge_keeping-over_example :
    IsIndex (merge_keeping 2 two lower_two 0 uint64_max)
    × ((x : ℕ)
        → x < 2 ^ 50
        → find (merge_keeping 2 two lower_two 0 uint64_max) x
          ≡ over (find two x) (find lower_two x))
merge_keeping-over_example =
    merge_keeping-over two lower_two 0 layers-AreIndexes.0 layers-AreIndexes.1.0

-- The second continues the first, the third does not continue it in the file.
abbrev neighbours : List SegmentMapping
neighbours = mapping 0 4 8 0 ∷ mapping 4 4 12 0 ∷ mapping 8 4 30 0 ∷ []

neighbours-IsIndex : IsIndex neighbours
unfolding Chain
neighbours-IsIndex = ground arith

compress_runs : compress_raw_index neighbours ≡ mapping 0 8 8 0 ∷ mapping 8 4 30 0 ∷ []
unfolding compress_raw_index compress_from joins
compress_runs = refl

predict_runs : compress_raw_index_predict neighbours ≡ 1
unfolding compress_raw_index_predict predict_from joins_predict
predict_runs = refl

compress_raw_index-Apart_example :
    IsIndex (compress_raw_index neighbours)
    × ((x : ℕ) → find (compress_raw_index neighbours) x ≡ find neighbours x)
    × (length (compress_raw_index neighbours) ≤ length neighbours)
    × Apart (compress_raw_index neighbours)
compress_raw_index-Apart_example = compress_raw_index-Apart neighbours neighbours-IsIndex

create_memory_index-IsIndex_example :
    (create_memory_index two 8 23 0
      ≡ some (record { mapping = two; alloc_blk = 0; virtual_size = 0 }))
    ↔ (IsIndex two × AreWithin 8 23 two)
create_memory_index-IsIndex_example = create_memory_index-IsIndex two 8 23 0 (ground arith)
