-- ===== src/Lsmt/Index0/Middle.antt =====
-- The loop of `insert` of lsmt/index.cpp, and the removal of the first overlap before it.
use cora.Base.{
  ℕ, ◌+◌, ◌%◌, ◌^◌, ◌≤◌, ◌<◌, ◌≡◌, refl, sym, subst, List, [], ◌∷◌, arith, le-cases, inl, inr,
}
use cora.Lsmt.Segment.{SegmentMapping, end}
use cora.Lsmt.Layout.{find, Chain, IsMapping, suffix, total, Chain-le}
use cora.Lsmt.Index0.{remove_middle, Removed, usage_add, usage_sub}
use cora.Lsmt.Index0.Overlap.{middle-behind, middle-inside, middle-tail}

-- What is left of `old` behind `m`, with the count of blocks, modulo its 64 bits.
pub record Left (hi alloc : ℕ) (m : SegmentMapping) (old : List SegmentMapping) (r : Removed)
    : Type 0 where
  pub chain : Chain (end m) hi r.stay
  pub same : (x : ℕ) → end m ≤ x → find r.stay x ≡ find old x
  pub count : (r.alloc + total old) % 2 ^ 64 ≡ (alloc + total r.stay) % 2 ^ 64
  pub bound : alloc < 2 ^ 64 → r.alloc < 2 ^ 64

module _ (m : SegmentMapping) (hi : ℕ) (fits : hi ≤ 2 ^ 50) where
  pub inside-Left :
      (alloc : ℕ) (p : SegmentMapping) (ps : List SegmentMapping) (r : Removed)
      → IsMapping p
      → end p ≤ end m
      → Left hi (usage_sub alloc p) m ps r
      → Left hi alloc m (p ∷ ps) r
  unfolding find total
  inside-Left alloc p ps r g k l = record {
    chain = l.chain;
    same = λ x h. ground (arith, l.same x h);
    count = ground (arith, l.count);
    bound = λ h. l.bound (ground arith);
  }

  pub tail-Left :
      (alloc : ℕ) (p : SegmentMapping) (ps : List SegmentMapping)
      → IsMapping p
      → p.offset < end m
      → end m < end p
      → Chain (end p) hi ps
      → Left hi alloc m (p ∷ ps) (record {
        stay = suffix p (end m) ∷ ps;
        alloc = usage_add (usage_sub alloc p) (suffix p (end m));
      })
  unfolding find total Chain
  tail-Left alloc p ps g h k c = record {
    chain = ground arith;
    same = λ x h'. ground arith;
    count = ground arith;
    bound = λ h'. ground arith;
  }

  pub remove_middle-Left :
      (alloc lo : ℕ) (ps : List SegmentMapping)
      → m.offset ≤ lo
      → end m ≤ hi
      → Chain lo hi ps
      → Left hi alloc m ps (remove_middle alloc ps m)
  unfolding Chain remove_middle
  remove_middle-Left alloc lo [] a b c = record {
    chain = b;
    same = λ x h. refl;
    count = refl;
    bound = λ h. h;
  }
  remove_middle-Left alloc lo (p ∷ ps) a b c = elim (le-cases (end m) p.offset) [
    | inl h ↦
        subst (Left hi alloc m (p ∷ ps)) (sym (middle-behind alloc p m ps h))
          (record { chain = (h, c.1, c.2); same = λ x h'. refl; count = refl; bound = λ h'. h' })
    | inr h ↦ elim (le-cases (end p) (end m)) [
      | inl k ↦ subst (Left hi alloc m (p ∷ ps)) (sym (middle-inside alloc p m ps h k)) (
          inside-Left alloc p ps _ c.1 k
            (remove_middle-Left (usage_sub alloc p) (end p) ps (omega arith) b c.2))
      | inr k ↦
          subst (Left hi alloc m (p ∷ ps))
            (sym (
              middle-tail alloc p m ps c.1 (omega (arith, Chain-le (end p) hi ps c.2)) (omega arith)
                h k))
            (tail-Left alloc p ps c.1 h k c.2)
    ]
  ]

  -- A part that lies behind `m` is left alone.
  pub remove_middle-past :
      (alloc lo : ℕ) (ps : List SegmentMapping)
      → end m ≤ lo
      → Chain lo hi ps
      → remove_middle alloc ps m ≡ record { stay = ps; alloc = alloc }
  unfolding Chain remove_middle
  remove_middle-past alloc lo [] a c = refl
  remove_middle-past alloc lo (p ∷ ps) a c = middle-behind alloc p m ps (omega arith)
