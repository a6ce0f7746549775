-- ===== src/Lsmt/Merge/Keeping.antt =====
-- `merge_indexes` of lsmt/index.cpp without `change_tag`, as `make_read_only_index` and
-- `rebuild_backing_index` call it on two indexes.
use cora.Base.{
  ℕ, zero, suc, ◌-◌, ◌^◌, ◌≤◌, ◌<◌, ◌≡◌, refl, ap, sym, subst, ◌∙◌, List, [], ◌∷◌, map, Option,
  none, some, arith,
}
use cora.Lsmt.Segment.{SegmentMapping}
use cora.Lsmt.Layout.{Block, find, Chain, IsIndex}
use cora.Lsmt.Combo.Layers.{over}
use cora.Lsmt.Merge.{put, merge_last, merge_keeping, uint64_max}
use cora.Lsmt.Merge.Layers.{Whole, layered, merge_one-Whole}
use cora.Lsmt.Merge.Refine.{merge_one-clip, widen}

-- A view by which `merge_last` may be called below an index itself.
abbrev last_view : ℕ → List SegmentMapping → ℕ → Option Block
last_view zero index x = none
last_view (suc k) index x = find index x

map-put-none : (ms : List SegmentMapping) → map (put none) ms ≡ ms
map-put-none [] = refl
map-put-none (m ∷ ms) = ap (λ r. m ∷ r) (map-put-none ms)

over-last :
    (k : ℕ) (index : List SegmentMapping) (x : ℕ)
    → over (find index x) (last_view k index x) ≡ find index x
over-last zero index x = right_none (find index x)
  where
    right_none : (o : Option Block) → over o none ≡ o
    right_none none = refl
    right_none (some b) = refl
over-last (suc k) index x = twice (find index x)
  where
    twice : (o : Option Block) → over o o ≡ o
    twice none = refl
    twice (some b) = refl

Whole-congr :
    (view view' : ℕ → Option Block) (o e : ℕ) (r : List SegmentMapping)
    → ((x : ℕ) → view x ≡ view' x)
    → Whole view o e r
    → Whole view' o e r
Whole-congr view view' o e r h w = (w.0, λ x p q. w.1 x p q ∙ h x)

merge_last-Whole :
    (k : ℕ) (index : List SegmentMapping) (o e : ℕ)
    → IsIndex index
    → o < e
    → e ≤ 2 ^ 50
    → Whole (last_view k index) o e (merge_last k index o e)
unfolding merge_last Chain find
merge_last-Whole zero index o e c h f = (omega arith, λ x p q. refl)
merge_last-Whole (suc k) index o e c h f =
    Whole-congr
      (layered (merge_last k index) (last_view k index)
        (λ a b p q. merge_last-Whole k index a b c p q) none e f index)
      (find index) o e _
      (λ x.
        ap (λ ms. over (find ms x) (last_view k index x)) (map-put-none index)
        ∙ over-last k index x)
      (merge_one-Whole (merge_last k index) (last_view k index)
        (λ a b p q. merge_last-Whole k index a b c p q) none e f index o c h)

merge_last-clip :
    (k : ℕ) (index : List SegmentMapping) (b e : ℕ)
    → Chain 0 (2 ^ 50 - 1) index
    → 2 ^ 50 ≤ e
    → b < 2 ^ 50
    → merge_last k index b e ≡ merge_last k index b (2 ^ 50)
unfolding merge_last
merge_last-clip zero index b e c f h = refl
merge_last-clip (suc k) index b e c f h =
    merge_one-clip (merge_last k index) none e f (λ b' h'. merge_last-clip k index b' e c f h')
      (last_view k index) (λ a b' p q. merge_last-Whole k index a b' (widen index c) p q) index b c
      h

-- Two indexes that are in order and disjoint and do not use the last block of the device, merged without
-- a change of tags and with at least two levels, are one that is in order and disjoint and maps each block as
-- the first does, or else the second.
pub merge_keeping-over :
    (first second : List SegmentMapping) (k : ℕ)
    → Chain 0 (2 ^ 50 - 1) first
    → Chain 0 (2 ^ 50 - 1) second
    → IsIndex (merge_keeping (suc (suc k)) first second 0 uint64_max)
      × ((x : ℕ)
          → x < 2 ^ 50
          → find (merge_keeping (suc (suc k)) first second 0 uint64_max) x
            ≡ over (find first x) (find second x))
unfolding merge_keeping
merge_keeping-over first second k c d =
    let next = merge_last (suc k) second in
    let below = λ (a b : ℕ) (p : a < b) (q : b ≤ 2 ^ 50).
      merge_last-Whole (suc k) second a b (widen second d) p q in
    let clip =
      merge_one-clip next none uint64_max (omega arith)
        (λ b' h'. merge_last-clip (suc k) second b' uint64_max d (omega arith) h') (find second)
        below first 0 c (omega arith) in
    let w =
      merge_one-Whole next (find second) below none (2 ^ 50) (omega arith) first 0 (widen first c)
        (omega arith) in
    (
      subst IsIndex (sym clip) w.0,
      λ x h.
          ap (λ ms. find ms x) clip
          ∙ w.1 x (omega arith) h
          ∙ ap (λ ms. over (find ms x) (find second x)) (map-put-none first),
    )
