-- ===== src/Lsmt/Index0/Insert.antt =====
-- `insert` of lsmt/index.cpp: what the index maps afterwards, and its count of blocks.
use mathlib.Core.List.{append_assoc}
use cora.Base.{
  ℕ, ◌+◌, ◌^◌, ◌≤◌, ◌<◌, ◌≡◌, refl, sym, ap, subst, ◌∙◌, List, [], ◌∷◌, ◌++◌, arith, le-cases, inl,
  inr, ne→==, le→leb, lt→leb, some, if◌then◌else◌,
}
use cora.Lsmt.Segment.{SegmentMapping, end, mend}
use cora.Lsmt.Layout.{
  Chain-split, find, Chain, IsMapping, IsIndex, total, used, contains, block, Chain-le,
  find-append_below, find-append_above, total-append, total-bound, Chain-append, find-append_congr,
}
use cora.Lsmt.Lookup.{lower_bound, before}
use cora.Lsmt.Lookup.Bound.{before-whole, before-Chain, HeadEnds, lower_bound-HeadEnds}
use cora.Lsmt.Index0.{Index0, insert, insert_at, set_insert, Removed, usage_add}
use cora.Lsmt.Index0.Parts.{Parted, joined-Parted}

-- An element that fits between two parts is inserted there.
set_insert-between :
    (lo hi : ℕ) (m : SegmentMapping) (xs ys : List SegmentMapping)
    → 0 < m.length
    → Chain lo m.offset xs
    → Chain (end m) hi ys
    → set_insert m (xs ++ ys) ≡ xs ++ m ∷ ys
unfolding set_insert Chain
set_insert-between lo hi m [] [] pos a b = refl
set_insert-between lo hi m [] (y ∷ ys) pos a b =
    rw (lt→leb (end y) m.offset (omega arith), le→leb (end m) y.offset b.0) refl
set_insert-between lo hi m (x ∷ xs) ys pos a b =
    rw (le→leb (end x) m.offset (Chain-le (end x) m.offset xs a.2))
      (ap (λ r. x ∷ r) (set_insert-between (end x) hi m xs ys pos a.2 b))

-- The whole index in order and disjoint, and the count of the blocks that are not zeroed.
abbrev pub Holds : Index0 → Type 0
Holds i = IsIndex i.mapping × (i.alloc_blk ≡ total i.mapping)

-- The mappings after one more has been written over them.
abbrev pub Overwrites : SegmentMapping → List SegmentMapping → List SegmentMapping → Type 0
Overwrites m old new =
    (x : ℕ) → find new x ≡ (if contains m x then some (block m x) else find old x)

-- The new mapping between what stays in front of it and what stays behind it.
module _ (m : SegmentMapping) (g : IsMapping m) (fits : end m ≤ 2 ^ 50) (lo alloc : ℕ)
    (xs old : List SegmentMapping) (cx : Chain 0 lo xs) (r : Removed)
    (p : Parted lo (2 ^ 50) alloc m old r) where
  inserted : List SegmentMapping
  inserted = set_insert m (xs ++ r.stay)

  cf : Chain 0 m.offset (xs ++ p.front)
  cf = Chain-append 0 lo m.offset xs p.front cx p.front_chain

  new-Chain : Chain m.offset (2 ^ 50) (m ∷ p.back)
  unfolding Chain
  new-Chain = (omega arith, g, p.back_chain)

  inserted-eq : inserted ≡ (xs ++ p.front) ++ m ∷ p.back
  unfolding inserted
  inserted-eq =
      ap (λ ys. set_insert m (xs ++ ys)) p.whole
      ∙ ap (set_insert m) (sym (append_assoc xs p.front p.back))
      ∙ set_insert-between 0 (2 ^ 50) m (xs ++ p.front) p.back g.0 cf p.back_chain

  inserted-IsIndex : IsIndex inserted
  inserted-IsIndex =
      subst IsIndex (sym inserted-eq)
        (Chain-append 0 m.offset (2 ^ 50) (xs ++ p.front) (m ∷ p.back) cf new-Chain)

  inserted-total : total inserted ≡ total xs + total r.stay + used m
  unfolding total
  inserted-total =
      ap total inserted-eq
      ∙ omega (
        arith,
        total-append (xs ++ p.front) (m ∷ p.back),
        total-append xs p.front,
        ap total p.whole,
        total-append p.front p.back,
      )

  inserted-below : (x : ℕ) → x < m.offset → find inserted x ≡ find (xs ++ old) x
  inserted-below x h =
      ap (λ ms. find ms x) (inserted-eq ∙ append_assoc xs p.front (m ∷ p.back))
      ∙ find-append_congr x xs (p.front ++ m ∷ p.back) old (
          find-append_below m.offset (2 ^ 50) x p.front (m ∷ p.back) new-Chain h ∙ p.same_front x h)

  inserted-from : (x : ℕ) → m.offset ≤ x → find inserted x ≡ find (m ∷ p.back) x
  inserted-from x h =
      ap (λ ms. find ms x) inserted-eq
      ∙ find-append_above 0 m.offset x (xs ++ p.front) (m ∷ p.back) cf h

  inserted-Overwrites : lo ≤ m.offset → Overwrites m (xs ++ old) inserted
  unfolding find
  inserted-Overwrites b x = elim (le-cases m.offset x) [
    | inl h ↦ ground (arith, inserted-from x h, p.same_back x, find-append_above 0 lo x xs old cx)
    | inr h ↦ ground (arith, inserted-below x h)
  ]

  inserted-Holds :
      (u : ℕ)
      → IsIndex (xs ++ old)
      → u ≡ total (xs ++ old)
      → alloc ≡ usage_add u m
      → Holds (record { mapping = inserted; alloc_blk = r.alloc })
  inserted-Holds u c e a = (
    inserted-IsIndex,
    ground (
      arith,
      inserted-total,
      total-append xs old,
      p.count,
      p.bound,
      total-bound 0 (2 ^ 50) (xs ++ old) c,
      total-bound 0 (2 ^ 50) inserted inserted-IsIndex,
    ),
  )

nothing-Parted :
    (lo alloc : ℕ) (m : SegmentMapping)
    → end m ≤ 2 ^ 50
    → Parted m.offset (2 ^ 50) alloc m [] (record { stay = []; alloc = alloc })
unfolding Chain find
nothing-Parted lo alloc m fits = record {
  front = [];
  back = [];
  whole = refl;
  front_chain = omega arith;
  back_chain = fits;
  same_front = λ x h. refl;
  same_back = λ x h. refl;
  count = refl;
  bound = λ h. h;
}

-- The two parts that `lower_bound` splits the set in, and what is put for the second.
module _ (i : Index0) (m : SegmentMapping) (g : IsMapping m) (fits : end m ≤ 2 ^ 50) (v : Holds i)
    (xs old : List SegmentMapping) (w : i.mapping ≡ xs ++ old) (lo : ℕ) (cx : Chain 0 lo xs)
    (lo_le : lo ≤ m.offset) where
  Parted-Holds :
      (r : Removed)
      → Parted lo (2 ^ 50) (usage_add i.alloc_blk m) m old r
      → Holds (record { mapping = set_insert m (xs ++ r.stay); alloc_blk = r.alloc })
        × Overwrites m i.mapping (set_insert m (xs ++ r.stay))
  unfolding inserted
  Parted-Holds r p = (
    inserted-Holds m g fits lo (usage_add i.alloc_blk m) xs old cx r p i.alloc_blk
        (subst IsIndex w v.0) (v.1 ∙ ap total w) refl,
    λ x.
        inserted-Overwrites m g fits lo (usage_add i.alloc_blk m) xs old cx r p lo_le x
        ∙ ap (λ ms. if contains m x then some (block m x) else find ms x) (sym w),
  )

-- From the iterator that `lower_bound` returned.
insert_at_lem :
    (i : Index0) (m : SegmentMapping)
    → IsMapping m
    → end m ≤ 2 ^ 50
    → Holds i
    → (old : List SegmentMapping) → i.mapping ≡ before i.mapping m.offset ++ old
    → HeadEnds m.offset old
    → Holds (insert_at i m (usage_add i.alloc_blk m) old)
      × Overwrites m i.mapping (insert_at i m (usage_add i.alloc_blk m) old).mapping
unfolding insert_at
insert_at_lem i m g fits v [] w t =
    subst
      (λ ms.
        Holds (record { mapping = set_insert m ms; alloc_blk = usage_add i.alloc_blk m })
        × Overwrites m i.mapping (set_insert m ms))
      (sym w)
      (Parted-Holds i m g fits v (before i.mapping m.offset) [] w m.offset
        (before-Chain 0 (2 ^ 50) m.offset i.mapping (omega arith) v.0) (omega arith) _
        (nothing-Parted m.offset (usage_add i.alloc_blk m) m fits))
insert_at_lem i m g fits v (p ∷ ps) w t = elim (le-cases m.offset p.offset) [
  | inl h ↦
      Parted-Holds i m g fits v (before i.mapping m.offset) (p ∷ ps) w m.offset
        (before-Chain 0 (2 ^ 50) m.offset i.mapping (omega arith) v.0) (omega arith) _
        (joined-Parted m.offset (2 ^ 50) _ p m ps (omega arith) split.1 split.2 h (omega arith) g.0
          t fits)
  | inr h ↦
      Parted-Holds i m g fits v (before i.mapping m.offset) (p ∷ ps) w p.offset split.0
        (omega arith) _
        (joined-Parted p.offset (2 ^ 50) _ p m ps (omega arith) split.1 split.2 (omega arith)
          (omega arith) g.0 t fits)
]
  where
    split : Chain 0 p.offset (before i.mapping m.offset) × IsMapping p × Chain (end p) (2 ^ 50) ps
    split = Chain-split 0 (2 ^ 50) (before i.mapping m.offset) p ps (subst IsIndex w v.0)

-- A mapping within its bit fields, on the device.
abbrev pub Fits : SegmentMapping → Type 0
Fits m = (m.length < 2 ^ 14) × (m.moffset < 2 ^ 55) × (mend m ≤ 2 ^ 55) × (end m ≤ 2 ^ 50)

insert_some :
    (i : Index0) (m : SegmentMapping)
    → Fits m
    → Holds i
    → 0 < m.length
    → Holds (insert i m) × Overwrites m i.mapping (insert i m).mapping
unfolding insert
insert_some i m f v h = rw (ne→== m.length 0 (omega arith)) (
    insert_at_lem i m (h, f.0, f.1, f.2) f.3 v (lower_bound i.mapping m.offset)
      (before-whole i.mapping m.offset) (lower_bound-HeadEnds m.offset i.mapping))

insert_none : (i : Index0) (m : SegmentMapping) → m.length ≡ 0 → insert i m ≡ i
unfolding insert
insert_none i m e = ground (arith, e)

-- A mapping within its bit fields, inserted into an index that is in order and disjoint and counts its
-- blocks, leaves it so; then its blocks are mapped by it, and all others as before.
pub insert-Overwrites :
    (i : Index0) (m : SegmentMapping)
    → Fits m
    → Holds i
    → Holds (insert i m) × Overwrites m i.mapping (insert i m).mapping
insert-Overwrites i m f v = elim (le-cases m.length 0) [
  | inl h ↦ rw (insert_none i m (omega arith)) (v, λ x. ground arith)
  | inr h ↦ insert_some i m f v h
]
