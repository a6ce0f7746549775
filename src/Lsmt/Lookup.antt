-- ===== src/Lsmt/Lookup.antt =====
-- The look-up of lsmt/index.cpp that the arrays (`Index`) and the sets (`Index0`) share:
-- `lower_bound`, `copy_n`, `trim_edge_mappings`. An iterator is the elements from it on.
pub mod Bound
pub mod Trim
pub mod Answer
use cora.Base.{ℕ, ◌+◌, ◌-◌, List, [], ◌∷◌, if◌then◌else◌, leb, ltb, ◌==◌}
use cora.Lsmt.Segment.{
  Segment, SegmentMapping, end, segment_end, forward_offset_to, backward_end_to, precedes,
}

-- `std::lower_bound` on a sorted range: the first element that does not precede the offset.
unfoldable pub lower_bound : List SegmentMapping → ℕ → List SegmentMapping
lower_bound [] o = []
lower_bound (m ∷ ms) o = if precedes m o then lower_bound ms o else m ∷ ms

-- The elements in front of the iterator that `lower_bound` returns.
unfoldable pub before : List SegmentMapping → ℕ → List SegmentMapping
before [] o = []
before (m ∷ ms) o = let rest = before ms o in if precedes m o then m ∷ rest else []

-- The test `m == n` comes after a copy: a count that starts at 0 bounds nothing.
unfoldable pub copy_n : List SegmentMapping → ℕ → ℕ → List SegmentMapping
copy_n [] end_offset n = []
copy_n (m ∷ ms) end_offset n =
    let rest = copy_n ms end_offset (n - 1) in
    if leb end_offset m.offset then [] else if n == 1 then m ∷ [] else m ∷ rest

unfoldable pub trim_front : List SegmentMapping → ℕ → List SegmentMapping
trim_front [] o = []
trim_front (m ∷ ms) o = (if ltb m.offset o then forward_offset_to m o else m) ∷ ms

unfoldable pub trim_back : List SegmentMapping → ℕ → List SegmentMapping
trim_back [] e = []
trim_back (m ∷ []) e = (if ltb e (end m) then backward_end_to m e else m) ∷ []
trim_back (m ∷ k ∷ ms) e = m ∷ trim_back (k ∷ ms) e

unfoldable pub trim_edge_mappings : List SegmentMapping → Segment → List SegmentMapping
trim_edge_mappings ms s = trim_back (trim_front ms s.offset) (segment_end s)

unfoldable pub lookup : List SegmentMapping → Segment → ℕ → List SegmentMapping
lookup ms s n =
    if s.length == 0
    then []
    else trim_edge_mappings (copy_n (lower_bound ms s.offset) (segment_end s) n) s
