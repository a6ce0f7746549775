-- ===== src/Lsmt/Merge.antt =====
-- `merge_indexes` of lsmt/index.cpp, which writes the mappings of several indexes, one over the other,
-- behind a vector. Its result here is what it appends, the only part of the vector that it touches.
pub mod Layers
pub mod Refine
pub mod Keeping
use cora.Base.{
  ℕ, zero, suc, ◌+◌, ◌-◌, ◌%◌, ◌^◌, List, [], ◌∷◌, ◌++◌, Option, none, some, if◌then◌else◌, ltb,
  leb, length,
}
use cora.Lsmt.Segment.{SegmentMapping, end}
use cora.Lsmt.Lookup.{lower_bound, trim_front, trim_back}

-- A pushed mapping, with its tag set or left.
abbrev pub or_tag : Option ℕ → ℕ → ℕ
or_tag none d = d
or_tag (some t) d = t

abbrev pub put : Option ℕ → SegmentMapping → SegmentMapping
put t m = record m { tag = or_tag t m.tag }

-- The loop over one index, from the iterator on; `next` merges the indexes behind it.
unfoldable pub merge_through :
    (ℕ → ℕ → List SegmentMapping) → Option ℕ → List SegmentMapping → ℕ → ℕ → List SegmentMapping
merge_through next t [] begin e = if ltb begin e then next begin e else []
merge_through next t (m ∷ ms) begin e =
    let rest = put t m ∷ merge_through next t ms (end m) e in
    if ltb m.offset e
    then (if ltb begin m.offset then next begin m.offset ++ rest else rest)
    else if ltb begin e
    then next begin e
    else []

-- One index and those behind it, with what was appended trimmed at its edges. The look-up cuts
-- `begin` to the bits of an offset.
unfoldable pub merge_one :
    (ℕ → ℕ → List SegmentMapping) → Option ℕ → List SegmentMapping → ℕ → ℕ → List SegmentMapping
merge_one next t index begin e =
    let merged = merge_through next t (lower_bound index (begin % 2 ^ 50)) begin e in
    if leb e begin then [] else trim_back (trim_front merged begin) e

-- With `change_tag`: each level tags its mappings.
unfoldable pub merge_indexes : ℕ → List (List SegmentMapping) → ℕ → ℕ → List SegmentMapping
merge_indexes level [] begin e = []
merge_indexes level (index ∷ indexes) begin e =
    merge_one (merge_indexes ((level + 1) % 2 ^ 8) indexes) (some level) index begin e

-- Without: the tags stay, and `max_level` bounds the levels. Only the first level moves on to the next
-- index, since the deeper ones are called with `n = 0`.
unfoldable pub merge_last : ℕ → List SegmentMapping → ℕ → ℕ → List SegmentMapping
merge_last zero index begin e = []
merge_last (suc max_level) index begin e = merge_one (merge_last max_level index) none index begin e

unfoldable pub merge_keeping :
    ℕ → List SegmentMapping → List SegmentMapping → ℕ → ℕ → List SegmentMapping
merge_keeping zero first second begin e = []
merge_keeping (suc max_level) first second begin e =
    merge_one (merge_last max_level second) none first begin e

abbrev pub uint64_max : ℕ
uint64_max = 2 ^ 64 - 1

-- The mappings of `merge_memory_indexes`.
unfoldable pub merge_memory_indexes : List (List SegmentMapping) → Option (List SegmentMapping)
merge_memory_indexes indexes =
    if ltb 255 (length indexes)
    then none
    else if leb (length indexes) 0
    then none
    else some (merge_indexes 0 indexes 0 uint64_max)
