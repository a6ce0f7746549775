-- ===== src/Lsmt/Index0/Parts.antt =====
-- The part of a set from the first overlap on, in `insert` of lsmt/index.cpp: what stays in front of
-- the new mapping and what stays behind it.
use cora.Base.{
  ℕ, ◌+◌, ◌%◌, ◌^◌, ◌≤◌, ◌<◌, ◌≡◌, refl, sym, ap, subst, List, [], ◌∷◌, ◌++◌, arith, le-cases, inl,
  inr,
}
use cora.Lsmt.Segment.{SegmentMapping, end}
use cora.Lsmt.Layout.{find, Chain, IsMapping, suffix, prefix, total, find-below, Chain-le}
use cora.Lsmt.Index0.{remove_partial_overlap, remove_middle, Removed, usage_add, usage_sub}
use cora.Lsmt.Index0.Overlap.{
  removed-behind, removed-inside, removed-tail, removed-head, removed-split,
}
use cora.Lsmt.Index0.Middle.{Left, tail-Left, inside-Left, remove_middle-Left, remove_middle-past}

pub record Parted (lo hi alloc : ℕ) (m : SegmentMapping) (old : List SegmentMapping) (r : Removed)
    : Type 0 where
  pub front : List SegmentMapping
  pub back : List SegmentMapping
  pub whole : r.stay ≡ front ++ back
  pub front_chain : Chain lo m.offset front
  pub back_chain : Chain (end m) hi back
  pub same_front : (x : ℕ) → x < m.offset → find front x ≡ find old x
  pub same_back : (x : ℕ) → end m ≤ x → find back x ≡ find old x
  pub count : (r.alloc + total old) % 2 ^ 64 ≡ (alloc + total r.stay) % 2 ^ 64
  pub bound : alloc < 2 ^ 64 → r.alloc < 2 ^ 64

-- The first overlap removed, then the loop.
abbrev pub joined : Removed → List SegmentMapping → SegmentMapping → Removed
joined first ps m =
    let rest = remove_middle first.alloc ps m in
    record { stay = first.stay ++ rest.stay; alloc = rest.alloc }

module _ (lo hi alloc : ℕ) (p m : SegmentMapping) (ps : List SegmentMapping) (fits : hi ≤ 2 ^ 50)
    (g : IsMapping p) (c : Chain (end p) hi ps) (above : lo ≤ p.offset) where
  -- Nothing of the old elements reaches below `m`.
  from_Left :
      (r : Removed)
      → m.offset ≤ p.offset
      → lo ≤ m.offset
      → Left hi alloc m (p ∷ ps) r
      → Parted lo hi alloc m (p ∷ ps) r
  unfolding Chain find
  from_Left r a b l = record {
    front = [];
    back = r.stay;
    whole = refl;
    front_chain = b;
    back_chain = l.chain;
    same_front = λ x h. sym (find-below m.offset hi x (p ∷ ps) (a, g, c) h);
    same_back = l.same;
    count = l.count;
    bound = l.bound;
  }

  -- The first element reaches below `m` and ends within it.
  head_Left :
      (r : Removed)
      → p.offset < m.offset
      → m.offset < end p
      → end p ≤ end m
      → Left hi (usage_add (usage_sub alloc p) (prefix p m.offset)) m ps r
      → Parted lo hi alloc m
          (p ∷ ps)
          (record { stay = prefix p m.offset ∷ r.stay; alloc = r.alloc })
  unfolding Chain find total
  head_Left r a b d l = record {
    front = prefix p m.offset ∷ [];
    back = r.stay;
    whole = refl;
    front_chain = ground arith;
    back_chain = l.chain;
    same_front = λ x h. ground (arith, find-below (end p) hi x ps c (omega arith));
    same_back = λ x h. ground (arith, l.same x h);
    count = ground (arith, l.count);
    bound = λ h. l.bound (ground arith);
  }

  -- The first element reaches beyond `m` on both sides.
  split_Parted :
      p.offset < m.offset
      → 0 < m.length
      → end m < end p
      → Parted lo hi alloc m (p ∷ ps) (record {
        stay = prefix p m.offset ∷ suffix p (end m) ∷ ps;
        alloc = usage_add (usage_add (usage_sub alloc p) (prefix p m.offset)) (suffix p (end m));
      })
  unfolding Chain find total
  split_Parted a b d = record {
    front = prefix p m.offset ∷ [];
    back = suffix p (end m) ∷ ps;
    whole = refl;
    front_chain = ground arith;
    back_chain = ground arith;
    same_front = λ x h. ground (arith, find-below (end p) hi x ps c (omega arith));
    same_back = λ x h. ground arith;
    count = ground arith;
    bound = λ h. ground arith;
  }

  abbrev Goal : Removed → Type 0
  Goal first = Parted lo hi alloc m (p ∷ ps) (joined first ps m)

  -- What follows an element that reaches beyond `m` is not touched.
  past :
      (xs : List SegmentMapping) (a' : ℕ)
      → end m ≤ end p
      → joined (record { stay = xs; alloc = a' }) ps m ≡ record { stay = xs ++ ps; alloc = a' }
  past xs a' h =
      ap (λ (r : Removed). record { stay = xs ++ r.stay; alloc = r.alloc })
        (remove_middle-past m hi fits a' (end p) ps h c)

  reaches_below :
      p.offset < m.offset
      → m.offset < end p
      → 0 < m.length
      → end m ≤ hi
      → Goal (remove_partial_overlap alloc p m.offset (end m))
  reaches_below a b pos e = elim (le-cases (end p) (end m)) [
    | inl k ↦
        subst Goal
          (sym (
            removed-head alloc p m.offset (end m) g (omega (arith, Chain-le (end p) hi ps c)) a b
              k))
          (head_Left _ a b k (remove_middle-Left m hi fits _ (end p) ps (omega arith) e c))
    | inr k ↦
        subst Goal
          (sym (
            removed-split alloc p m.offset (end m) g (omega (arith, Chain-le (end p) hi ps c)) a
              (omega arith) k))
          (subst (Parted lo hi alloc m (p ∷ ps))
            (sym (past (prefix p m.offset ∷ suffix p (end m) ∷ []) _ (omega arith)))
            (split_Parted a pos k))
  ]

  starts_inside :
      m.offset ≤ p.offset
      → lo ≤ m.offset
      → end m ≤ hi
      → Goal (remove_partial_overlap alloc p m.offset (end m))
  unfolding Chain
  starts_inside a b e = elim (le-cases (end m) p.offset) [
    | inl h ↦ subst Goal (sym (removed-behind alloc p m.offset (end m) h (omega arith))) (
        subst (Parted lo hi alloc m (p ∷ ps)) (sym (past (p ∷ []) _ (omega arith))) (
          from_Left _ a b
            (record { chain = (h, g, c); same = λ x h'. refl; count = refl; bound = λ h'. h' })))
    | inr h ↦ elim (le-cases (end p) (end m)) [
      | inl k ↦ subst Goal (sym (removed-inside alloc p m.offset (end m) a h k)) (
          from_Left _ a b (
            inside-Left m hi fits alloc p ps _ g k
              (remove_middle-Left m hi fits _ (end p) ps (omega arith) e c)))
      | inr k ↦
          subst Goal
            (sym (
              removed-tail alloc p m.offset (end m) g (omega (arith, Chain-le (end p) hi ps c)) a h
                k))
            (subst (Parted lo hi alloc m (p ∷ ps))
              (sym (past (suffix p (end m) ∷ []) _ (omega arith)))
              (from_Left _ a b (tail-Left m hi fits alloc p ps g h k c)))
    ]
  ]

  pub joined-Parted :
      lo ≤ m.offset
      → 0 < m.length
      → m.offset < end p
      → end m ≤ hi
      → Goal (remove_partial_overlap alloc p m.offset (end m))
  joined-Parted b pos d e = elim (le-cases m.offset p.offset) [
    | inl h ↦ starts_inside h b e
    | inr h ↦ reaches_below h d pos e
  ]
