-- ===== src/Lsmt/Combo.antt =====
-- `ComboIndex` of lsmt/index.cpp: a set of mappings over a read-only index.
pub mod Layers
pub mod Refine
pub mod Stack
pub mod Backing
use cora.Base.{
  ℕ, ◌+◌, ◌-◌, ◌%◌, ◌^◌, List, [], ◌∷◌, ◌++◌, map, Bool, Option, none, some, if◌then◌else◌, ltb,
  ◌==◌, ◌&&◌, length,
}
use cora.Lsmt.Segment.{Segment, SegmentMapping, segment, end, segment_end}
use cora.Lsmt.Lookup
use cora.Lsmt.Lookup.{lower_bound, trim_edge_mappings}
use cora.Lsmt.Index0
use cora.Lsmt.Index0.{Index0}

-- The look-up of the read-only index, for the blocks from `soffset` up to `send`.
abbrev pub behind : (Segment → ℕ → List SegmentMapping) → ℕ → ℕ → ℕ → List SegmentMapping
behind back soffset send n = back (segment soffset (send - soffset)) n

-- After the loop of `lookup`.
unfoldable pub look_behind : (Segment → ℕ → List SegmentMapping) → ℕ → ℕ → ℕ → List SegmentMapping
look_behind back soffset send n =
    if ltb 0 n && ltb soffset send then behind back soffset send n else []

-- The loop of `lookup`, from the iterator on, with room for `n` mappings.
unfoldable pub look_through :
    (Segment → ℕ → List SegmentMapping) → List SegmentMapping → ℕ → ℕ → ℕ → List SegmentMapping
look_through back [] soffset send n = look_behind back soffset send n
look_through back (m ∷ ms) soffset send n =
    let found = behind back soffset m.offset n in
    let left = n - length found in
    let after = look_through back ms (end m) send (left - 1) in
    let next = look_through back ms (end m) send (n - 1) in
    if ltb m.offset send && ltb 0 n
    then (if ltb soffset m.offset
        then (if left == 0 then found else found ++ (m ∷ after))
        else m ∷ next)
    else look_behind back soffset send n

-- `lookup` where there is a read-only index behind.
unfoldable pub lookup_over :
    (Segment → ℕ → List SegmentMapping) → List SegmentMapping → Segment → ℕ → List SegmentMapping
lookup_over back ms s n =
    if s.length == 0
    then []
    else trim_edge_mappings (look_through back (lower_bound ms s.offset) s.offset (segment_end s) n)
        s

-- `lookup` of the index with what it has behind it, which may be nothing.
unfoldable pub combo_lookup :
    Index0 → Option (Segment → ℕ → List SegmentMapping) → Segment → ℕ → List SegmentMapping
combo_lookup i none s n = if s.length == 0 then [] else Index0.lookup i s n
combo_lookup i (some back) s n = lookup_over back i.mapping s n
