-- ===== src/Lsmt/Index0.antt =====
-- `Index0` of lsmt/index.cpp: the writable index, a `std::set` of mappings with the count of the
-- blocks they hold. The set is the list of its elements in order.
pub mod Overlap
pub mod Middle
pub mod Parts
pub mod Insert
use cora.Base.{
  ℕ, ◌+◌, ◌-◌, ◌%◌, ◌^◌, List, [], ◌∷◌, ◌++◌, Bool, true, false, if◌then◌else◌, leb, ltb, ◌==◌,
  sub_64, length,
}
use cora.Lsmt.Segment.{
  Segment, SegmentMapping, end, forward_offset_to, backward_end_to, precedes, invalid_mapping,
}
use cora.Lsmt.Lookup
use cora.Lsmt.Lookup.{lower_bound, before}

pub record Index0 : Type 0 where
  pub mapping : List SegmentMapping
  pub alloc_blk : ℕ

-- `block_usage`.
abbrev pub usage_add : ℕ → SegmentMapping → ℕ
usage_add u m = if m.zeroed then u else (u + m.length) % 2 ^ 64

abbrev pub usage_sub : ℕ → SegmentMapping → ℕ
usage_sub u m = if m.zeroed then u else sub_64 u m.length

-- `std::set::insert`: an element that neither precedes nor follows another is not inserted.
unfoldable pub set_insert : SegmentMapping → List SegmentMapping → List SegmentMapping
set_insert m [] = m ∷ []
set_insert m (x ∷ xs) =
    let rest = set_insert m xs in
    if precedes x m.offset then x ∷ rest else if precedes m x.offset then m ∷ x ∷ xs else x ∷ xs

-- The elements that stand in front of the iterator after a step, and the count of blocks.
pub record Removed : Type 0 where
  pub stay : List SegmentMapping
  pub alloc : ℕ

-- `remove_partial_overlap` on the element `p`; the iterator it returns is the one after `p`.
unfoldable pub remove_partial_overlap : ℕ → SegmentMapping → ℕ → ℕ → Removed
remove_partial_overlap alloc p offset e =
    let less = usage_sub alloc p in
    let front = backward_end_to p offset in
    let back = forward_offset_to p e in
    if ltb p.offset offset
    then (if leb (end p) e
        then record { stay = front ∷ []; alloc = usage_add less front }
        else record {
          stay = set_insert back (front ∷ []);
          alloc = usage_add (usage_add less front) back;
        })
    else if ltb p.offset e
    then (if leb (end p) e
        then record { stay = []; alloc = less }
        else record { stay = back ∷ []; alloc = usage_add less back })
    else record { stay = p ∷ []; alloc = alloc }

-- The loop of `insert`: what becomes of the elements from the iterator on.
unfoldable pub remove_middle : ℕ → List SegmentMapping → SegmentMapping → Removed
remove_middle alloc [] m = record { stay = []; alloc = alloc }
remove_middle alloc (p ∷ ps) m =
    let erased = remove_middle (usage_sub alloc p) ps m in
    let last = remove_partial_overlap alloc p m.offset (end m) in
    if ltb p.offset (end m)
    then (if leb (end p) (end m)
        then erased
        else record { stay = last.stay ++ ps; alloc = last.alloc })
    else record { stay = p ∷ ps; alloc = alloc }

-- `insert`, from the iterator that `lower_bound` returned.
unfoldable pub insert_at : Index0 → SegmentMapping → ℕ → List SegmentMapping → Index0
insert_at i m alloc [] = record { mapping = set_insert m i.mapping; alloc_blk = alloc }
insert_at i m alloc (p ∷ ps) =
    let first = remove_partial_overlap alloc p m.offset (end m) in
    let rest = remove_middle first.alloc ps m in
    record {
      mapping = set_insert m (before i.mapping m.offset ++ (first.stay ++ rest.stay));
      alloc_blk = rest.alloc;
    }

unfoldable pub insert : Index0 → SegmentMapping → Index0
insert i m =
    if m.length == 0
    then i
    else insert_at i m (usage_add i.alloc_blk m) (lower_bound i.mapping m.offset)

abbrev pub empty : Index0
empty = record { mapping = []; alloc_blk = 0 }

-- The constructor, which inserts the mappings of an array.
unfoldable pub insert_all : Index0 → List SegmentMapping → Index0
insert_all i [] = i
insert_all i (m ∷ ms) = insert_all (insert i m) ms

abbrev pub lookup : Index0 → Segment → ℕ → List SegmentMapping
lookup i s n = Lookup.lookup i.mapping s n

abbrev pub size : Index0 → ℕ
size i = length i.mapping

abbrev pub block_count : Index0 → ℕ
block_count i = i.alloc_blk
