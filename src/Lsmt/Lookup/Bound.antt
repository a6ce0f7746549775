-- ===== src/Lsmt/Lookup/Bound.antt =====
-- `std::lower_bound` on a sorted range, in lsmt/index.cpp: the two parts that it splits the range in.
use cora.Base.{
  ℕ, ◌≤◌, ◌<◌, ◌≡◌, refl, ap, List, [], ◌∷◌, ◌++◌, arith, le-cases, inl, inr, le→leb, lt→leb,
}
use cora.Lsmt.Segment.{SegmentMapping, end}
use cora.Lsmt.Layout.{Chain, Chain-weaken}
use cora.Lsmt.Lookup.{lower_bound, before}

-- What `lower_bound` splits.
pub before-whole : (ms : List SegmentMapping) (o : ℕ) → ms ≡ before ms o ++ lower_bound ms o
unfolding before lower_bound
before-whole [] o = refl
before-whole (m ∷ ms) o = elim (le-cases (end m) o) [
  | inl h ↦ rw (le→leb (end m) o h) (ap (λ r. m ∷ r) (before-whole ms o))
  | inr h ↦ rw (lt→leb (end m) o h) refl
]

pub before-Chain :
    (lo hi o : ℕ) (ms : List SegmentMapping) → lo ≤ o → Chain lo hi ms → Chain lo o (before ms o)
unfolding before Chain
before-Chain lo hi o [] h c = h
before-Chain lo hi o (m ∷ ms) h c = elim (le-cases (end m) o) [
  | inl k ↦ rw (le→leb (end m) o k) (c.0, c.1, before-Chain (end m) hi o ms k c.2)
  | inr k ↦ rw (lt→leb (end m) o k) h
]

pub lower_bound-Chain :
    (lo hi o : ℕ) (ms : List SegmentMapping) → Chain lo hi ms → Chain lo hi (lower_bound ms o)
unfolding lower_bound Chain
lower_bound-Chain lo hi o [] c = c
lower_bound-Chain lo hi o (m ∷ ms) c = elim (le-cases (end m) o) [
  | inl k ↦ rw (le→leb (end m) o k) (
      Chain-weaken (end m) lo hi hi (lower_bound ms o) (omega arith) (omega arith)
        (lower_bound-Chain (end m) hi o ms c.2))
  | inr k ↦ rw (lt→leb (end m) o k) c
]

-- The first element that is left ends behind the offset.
abbrev pub HeadEnds : ℕ → List SegmentMapping → Type 0
HeadEnds o [] = Unit
HeadEnds o (p ∷ ps) = o < end p

pub lower_bound-HeadEnds : (o : ℕ) (ms : List SegmentMapping) → HeadEnds o (lower_bound ms o)
unfolding lower_bound
lower_bound-HeadEnds o [] = tt
lower_bound-HeadEnds o (m ∷ ms) = elim (le-cases (end m) o) [
  | inl k ↦ rw (le→leb (end m) o k) (lower_bound-HeadEnds o ms)
  | inr k ↦ rw (lt→leb (end m) o k) k
]
