-- ===== src/Lsmt/Merge/Refine.antt =====
-- `merge_memory_indexes` of lsmt/index.cpp: the merged index over the whole device.
use cora.Base.{
  ℕ, ◌+◌, ◌-◌, ◌%◌, ◌^◌, ◌≤◌, ◌<◌, ◌≡◌, refl, ap, sym, subst, ◌∙◌, List, [], ◌∷◌, map, Option, none,
  some, arith, length, le→ltb, lt→ltb, lt→leb,
}
use cora.Lsmt.Segment.{SegmentMapping, end}
use cora.Lsmt.Layout.{Block, find, Chain, IsIndex, Chain-weaken, Chain-le}
use cora.Lsmt.Lookup.{lower_bound, trim_front, trim_back}
use cora.Lsmt.Lookup.Bound.{HeadEnds, lower_bound-Chain, lower_bound-HeadEnds}
use cora.Lsmt.Lookup.Trim.{trim_front-Fronted}
use cora.Lsmt.Combo.Layers.{over}
use cora.Lsmt.Merge.{put, merge_through, merge_one, merge_indexes, merge_memory_indexes, uint64_max}
use cora.Lsmt.Merge.Layers.{Whole, merge_one-Whole, merge_through-Full}

-- What the levels map a block to: the first index that has it, with the tag of its level.
unfoldable pub levels : ℕ → List (List SegmentMapping) → ℕ → Option Block
levels level [] x = none
levels level (index ∷ indexes) x =
    over (find (map (put (some level)) index) x) (levels ((level + 1) % 2 ^ 8) indexes x)

-- Each index in order and disjoint, the last block of the device not used.
abbrev pub AreIndexes : List (List SegmentMapping) → Type 0
AreIndexes [] = Unit
AreIndexes (index ∷ indexes) = Chain 0 (2 ^ 50 - 1) index × AreIndexes indexes

pub widen : (index : List SegmentMapping) → Chain 0 (2 ^ 50 - 1) index → IsIndex index
widen index c = Chain-weaken 0 0 (2 ^ 50 - 1) (2 ^ 50) index (omega arith) (omega arith) c

merge_indexes-Whole :
    (indexes : List (List SegmentMapping)) (level o e : ℕ)
    → AreIndexes indexes
    → o < e
    → e ≤ 2 ^ 50
    → Whole (levels level indexes) o e (merge_indexes level indexes o e)
unfolding merge_indexes levels Chain find
merge_indexes-Whole [] level o e c h f = (omega arith, λ x p q. refl)
merge_indexes-Whole (index ∷ indexes) level o e c h f =
    merge_one-Whole (merge_indexes ((level + 1) % 2 ^ 8) indexes)
      (levels ((level + 1) % 2 ^ 8) indexes)
      (λ a b p q. merge_indexes-Whole indexes ((level + 1) % 2 ^ 8) a b c.1 p q) (some level) e f
      index o (widen index c.0) h

-- A back edge that nothing reaches over.
trim_back-none :
    (lo hi e : ℕ) (ms : List SegmentMapping) → Chain lo hi ms → hi ≤ e → trim_back ms e ≡ ms
unfolding trim_back Chain
trim_back-none lo hi e [] c h = refl
trim_back-none lo hi e (m ∷ []) c h = rw (le→ltb e (end m) (omega arith)) refl
trim_back-none lo hi e (m ∷ k ∷ ms) c h =
    ap (λ r. m ∷ r) (trim_back-none (end m) hi e (k ∷ ms) c.2 h)

-- Bounds beyond the device are no bounds.
module _ (next : ℕ → ℕ → List SegmentMapping) (t : Option ℕ) (e : ℕ) (beyond : 2 ^ 50 ≤ e)
    (same : (b : ℕ) → b < 2 ^ 50 → next b e ≡ next b (2 ^ 50)) where
  merge_through-clip :
      (ms : List SegmentMapping) (lo b : ℕ)
      → Chain lo (2 ^ 50 - 1) ms
      → b < 2 ^ 50
      → merge_through next t ms b e ≡ merge_through next t ms b (2 ^ 50)
  unfolding merge_through Chain
  merge_through-clip [] lo b c h = rw (lt→ltb b e (omega arith), lt→ltb b (2 ^ 50) h) (same b h)
  merge_through-clip (m ∷ ms) lo b c h =
      let inside = Chain-le (end m) (2 ^ 50 - 1) ms c.2 in
      rw
        (
          lt→ltb m.offset e (omega arith),
          lt→ltb m.offset (2 ^ 50) (omega arith),
          merge_through-clip ms (end m) (end m) c.2 (omega arith),
        )
        refl

  pub merge_one-clip :
      (behind : ℕ → Option Block)
      → ((a b : ℕ) → a < b → b ≤ 2 ^ 50 → Whole behind a b (next a b))
      → (index : List SegmentMapping) (b : ℕ) → Chain 0 (2 ^ 50 - 1) index
      → b < 2 ^ 50
      → merge_one next t index b e ≡ merge_one next t index b (2 ^ 50)
  unfolding merge_one
  merge_one-clip behind merged index b c h =
      let o = b % 2 ^ 50 in
      let lb = lower_bound index o in
      let cut : o ≡ b = omega arith in
      let bounded = lower_bound-Chain 0 (2 ^ 50 - 1) o index c in
      let all = merge_through next t lb b (2 ^ 50) in
      let w =
        merge_through-Full next behind merged t (2 ^ 50) (omega arith) lb 0 b (widen lb bounded)
          (subst (λ y. HeadEnds y lb) cut (lower_bound-HeadEnds o index)) (omega arith)
          (omega arith) in
      let front = trim_front-Fronted 0 (2 ^ 50) b (omega arith) (omega arith) all w.0 w.1 in
      rw (lt→leb e b (omega arith), lt→leb (2 ^ 50) b h)
        (ap (λ r. trim_back (trim_front r b) e) (merge_through-clip lb 0 b bounded h)
          ∙ trim_back-none b (2 ^ 50) e (trim_front all b) front.0 beyond
          ∙ sym (trim_back-none b (2 ^ 50) (2 ^ 50) (trim_front all b) front.0 (omega arith)))

merge_indexes-clip :
    (indexes : List (List SegmentMapping)) (level b e : ℕ)
    → AreIndexes indexes
    → 2 ^ 50 ≤ e
    → b < 2 ^ 50
    → merge_indexes level indexes b e ≡ merge_indexes level indexes b (2 ^ 50)
unfolding merge_indexes
merge_indexes-clip [] level b e c f h = refl
merge_indexes-clip (index ∷ indexes) level b e c f h =
    let deeper = (level + 1) % 2 ^ 8 in
    merge_one-clip (merge_indexes deeper indexes) (some level) e f
      (λ b' h'. merge_indexes-clip indexes deeper b' e c.1 f h') (levels deeper indexes)
      (λ a b' p q. merge_indexes-Whole indexes deeper a b' c.1 p q) index b c.0 h

-- The result of merging 1 to 255 indexes that are in order and disjoint and do not use the last block of
-- the device is in order and disjoint, and maps each block as the first of the indexes that has it, tagged by its level.
pub merge_memory_indexes-levels :
    (indexes : List (List SegmentMapping))
    → AreIndexes indexes
    → 0 < length indexes
    → length indexes ≤ 255
    → (r : List SegmentMapping) × (merge_memory_indexes indexes ≡ some r)
      × IsIndex r
      × ((x : ℕ) → x < 2 ^ 50 → find r x ≡ levels 0 indexes x)
unfolding merge_memory_indexes
merge_memory_indexes-levels indexes c pos few =
    let w = merge_indexes-Whole indexes 0 0 (2 ^ 50) c (omega arith) (omega arith) in
    let clip = merge_indexes-clip indexes 0 0 uint64_max c (omega arith) (omega arith) in
    (
      merge_indexes 0 indexes 0 (2 ^ 50),
      rw (le→ltb 255 (length indexes) few, lt→leb (length indexes) 0 pos) (ap some clip),
      w.0,
      λ x h. w.1 x (omega arith) h,
    )
