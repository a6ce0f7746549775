-- ===== src/Lsmt/MemoryIndex.antt =====
-- `IMemoryIndex` of lsmt/index.h: the interface of an index that can be looked up, and the indexes of
-- index.cpp that fill it.
use cora.Base.{ℕ, ◌^◌, ◌≤◌, ◌<◌, List, Option}
use cora.Lsmt.Segment.{Segment, SegmentMapping, segment_end}
use cora.Lsmt.Layout.{Block, find, IsIndex}
use cora.Lsmt.Lookup.{lookup}
use cora.Lsmt.Lookup.Answer.{Answers, lookup-Answers}

-- The look-up of an index, and its law: it answers for a view of the device.
pub record MemoryIndex : Type 0 where
  pub lookup : Segment → ℕ → List SegmentMapping
  pub view : ℕ → Option Block
  pub answers :
      (s : Segment) (n : ℕ)
      → segment_end s ≤ 2 ^ 50
      → s.length < 2 ^ 14
      → 0 < n
      → Answers view s n (lookup s n)

-- An array, or a set, of mappings that is in order and disjoint.
abbrev pub plain : (ms : List SegmentMapping) → IsIndex ms → MemoryIndex
plain ms c = record {
  lookup = lookup ms;
  view = find ms;
  answers = λ s n f l pos. lookup-Answers ms s n c f pos;
}
