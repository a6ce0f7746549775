-- ===== src/Lsmt/Create.antt =====
-- The checks of lsmt/index.cpp on an array of mappings, and the indexes that are made from one.
pub mod Checked
use cora.Base.{
  ℕ, ◌+◌, ◌%◌, ◌^◌, List, [], ◌∷◌, Bool, true, false, ◌&&◌, Option, none, some, if◌then◌else◌, leb,
  ltb, length,
}
use cora.Lsmt.Segment.{SegmentMapping, mend, precedes, invalid_mapping}
use cora.Lsmt.Index0.{Index0, usage_add, insert_all, empty}

-- `verify_mapping_order`, which stops at the first pair out of order.
unfoldable pub verify_mapping_order : List SegmentMapping → Bool
verify_mapping_order [] = true
verify_mapping_order (m ∷ []) = true
verify_mapping_order (m ∷ k ∷ ms) =
    let rest = verify_mapping_order (k ∷ ms) in if precedes m k.offset then rest else false

unfoldable pub within : ℕ → ℕ → ℕ → ℕ → Bool → Bool
within x y begin e zeroed =
    if zeroed then leb begin x && leb x e else leb begin x && ltb x e && ltb begin y && leb y e

-- `verify_mapping_moffset`, which stops at the first mapping out of range.
unfoldable pub verify_mapping_moffset : List SegmentMapping → ℕ → ℕ → Bool
verify_mapping_moffset [] begin e = true
verify_mapping_moffset (m ∷ ms) begin e =
    let rest = verify_mapping_moffset ms begin e in
    if within m.moffset (mend m) begin e m.zeroed then rest else false

-- `Index`, a read-only array. Made from a pointer it does not count its blocks.
pub record Index : Type 0 where
  pub mapping : List SegmentMapping
  pub alloc_blk : ℕ
  pub virtual_size : ℕ

unfoldable pub create_memory_index0 : List SegmentMapping → ℕ → ℕ → Option Index0
create_memory_index0 ms moffset_begin moffset_end =
    if verify_mapping_moffset ms moffset_begin moffset_end then some (insert_all empty ms) else none

unfoldable pub create_memory_index : List SegmentMapping → ℕ → ℕ → ℕ → Option Index
create_memory_index ms moffset_begin moffset_end vsize =
    if verify_mapping_order ms && verify_mapping_moffset ms moffset_begin moffset_end
    then some (record { mapping = ms; alloc_blk = 0; virtual_size = vsize })
    else none

-- `get_alloc_blks`, which adds to the count.
unfoldable pub get_alloc_blks : ℕ → List SegmentMapping → ℕ
get_alloc_blks alloc_blk [] = alloc_blk
get_alloc_blks alloc_blk (m ∷ ms) = get_alloc_blks (usage_add alloc_blk m) ms

-- The constructor from a vector, and `assign`.
unfoldable pub index_of_vector : List SegmentMapping → ℕ → Index
index_of_vector ms vsize = record {
  mapping = ms;
  alloc_blk = get_alloc_blks 0 ms;
  virtual_size = vsize;
}

abbrev pub front : List SegmentMapping → SegmentMapping
front [] = invalid_mapping
front (m ∷ ms) = m

abbrev pub back : List SegmentMapping → SegmentMapping
back [] = invalid_mapping
back (m ∷ []) = m
back (m ∷ k ∷ ms) = back (k ∷ ms)

unfoldable pub increase_tag : ℕ → List SegmentMapping → List SegmentMapping
increase_tag delta [] = []
increase_tag delta (m ∷ ms) = record m { tag = (m.tag + delta) % 2 ^ 8 } ∷ increase_tag delta ms
