-- ===== src/Lsmt/Combo/Stack.antt =====
-- `ComboIndex` of lsmt/index.cpp as an index that can be looked up, over any other.
use cora.Base.{List}
use cora.Lsmt.Segment.{SegmentMapping}
use cora.Lsmt.Layout.{find, IsIndex}
use cora.Lsmt.MemoryIndex.{MemoryIndex}
use cora.Lsmt.Combo.{lookup_over}
use cora.Lsmt.Combo.Layers.{over}
use cora.Lsmt.Combo.Refine.{lookup_over-Answers}

abbrev pub stack : (ms : List SegmentMapping) → IsIndex ms → MemoryIndex → MemoryIndex
stack ms c idx = record {
  lookup = lookup_over idx.lookup ms;
  view = λ x. over (find ms x) (idx.view x);
  answers = λ s n f l pos. lookup_over-Answers idx ms s n c f l;
}
