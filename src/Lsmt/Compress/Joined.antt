-- ===== src/Lsmt/Compress/Joined.antt =====
-- `compress_raw_index` of lsmt/index.cpp: that a compressed index means the same, and that there is
-- nothing left to join in it.
use cora.Base.{
  ℕ, ◌+◌, ◌^◌, ◌≤◌, ◌<◌, ◌≡◌, refl, sym, subst, ◌∙◌, List, [], ◌∷◌, true, false, Bool-cases, arith,
  inl, inr, length,
}
use cora.Lsmt.Segment.{SegmentMapping, end, mend, max_length}
use cora.Lsmt.Layout.{find, Chain, IsIndex}
use cora.Lsmt.Compress.{joins, join, compress_from, compress_raw_index}

-- What the condition says.
joins-fields :
    (m k : SegmentMapping)
    → joins m k ≡ true
    → (end m ≡ k.offset)
      × (mend m ≡ k.moffset)
      × (m.zeroed ≡ k.zeroed)
      × (m.tag ≡ k.tag)
      × (m.length + k.length < max_length)
unfolding joins
joins-fields m k h = ground arith

compress_from-Chain :
    (lo hi : ℕ) (m : SegmentMapping) (ms : List SegmentMapping)
    → Chain lo hi (m ∷ ms)
    → Chain lo hi (compress_from m ms)
      × ((x : ℕ) → find (compress_from m ms) x ≡ find (m ∷ ms) x)
      × (length (compress_from m ms) ≤ length (m ∷ ms))
unfolding compress_from Chain find
compress_from-Chain lo hi m [] c = (c, λ x. refl, omega arith)
compress_from-Chain lo hi m (k ∷ ms) c = elim (Bool-cases (joins m k)) [
  | inl h ↦
      let f = joins-fields m k h in
      let r = compress_from-Chain lo hi (join m k) ms (ground arith) in
      rw h (r.0, λ x. r.1 x ∙ ground arith, omega (arith, r.2))
  | inr h ↦
      let r = compress_from-Chain (end m) hi k ms c.2 in
      rw h ((c.0, c.1, r.0), λ x. ground (arith, r.1 x), omega (arith, r.2))
]

-- No mapping can be joined to the one before it.
abbrev pub Apart : List SegmentMapping → Type 0
Apart [] = Unit
Apart (m ∷ []) = Unit
Apart (m ∷ k ∷ ms) = (joins m k ≡ false) × Apart (k ∷ ms)

-- A mapping that has grown at its end.
abbrev Grown : SegmentMapping → SegmentMapping → Type 0
Grown m m' =
    (m'.offset ≡ m.offset)
    × (m'.moffset ≡ m.moffset)
    × (m'.zeroed ≡ m.zeroed)
    × (m'.tag ≡ m.tag)
    × (m.length ≤ m'.length)

Grown-apart : (m k k' : SegmentMapping) → Grown k k' → joins m k ≡ false → joins m k' ≡ false
unfolding joins
Grown-apart m k k' g h = ground (arith, h, g)

-- The first of the compressed mappings.
record Headed (m : SegmentMapping) (ms : List SegmentMapping) : Type 0 where
  head : SegmentMapping
  tail : List SegmentMapping
  whole : compress_from m ms ≡ head ∷ tail
  grown : Grown m head

compress_from-Headed : (m : SegmentMapping) (ms : List SegmentMapping) → Headed m ms
unfolding compress_from
compress_from-Headed m [] = record {
  head = m;
  tail = [];
  whole = refl;
  grown = (refl, refl, refl, refl, omega arith);
}
compress_from-Headed m (k ∷ ms) = elim (Bool-cases (joins m k)) [
  | inl h ↦
      let f = joins-fields m k h in
      let r = compress_from-Headed (join m k) ms in
      record {
        head = r.head;
        tail = r.tail;
        whole = rw h r.whole;
        grown = (r.grown.0, r.grown.1, r.grown.2, r.grown.3, omega (arith, r.grown));
      }
  | inr h ↦ record {
    head = m;
    tail = compress_from k ms;
    whole = rw h refl;
    grown = (refl, refl, refl, refl, omega arith);
  }
]

compress_from-Apart : (m : SegmentMapping) (ms : List SegmentMapping) → Apart (compress_from m ms)
unfolding compress_from
compress_from-Apart m [] = tt
compress_from-Apart m (k ∷ ms) = elim (Bool-cases (joins m k)) [
  | inl h ↦ rw h (compress_from-Apart (join m k) ms)
  | inr h ↦
      let r = compress_from-Headed k ms in
      rw h (
        subst (λ ys. Apart (m ∷ ys)) (sym r.whole)
          (Grown-apart m k r.head r.grown h, subst Apart r.whole (compress_from-Apart k ms)))
]

-- An index that is in order and disjoint maps every block the same after it is compressed, is in order and
-- disjoint still, no longer than before, and has no neighbours left that can be joined.
pub compress_raw_index-Apart :
    (ms : List SegmentMapping)
    → IsIndex ms
    → IsIndex (compress_raw_index ms)
      × ((x : ℕ) → find (compress_raw_index ms) x ≡ find ms x)
      × (length (compress_raw_index ms) ≤ length ms)
      × Apart (compress_raw_index ms)
unfolding compress_raw_index
compress_raw_index-Apart [] c = (c, λ x. refl, omega arith, tt)
compress_raw_index-Apart (m ∷ ms) c =
    let r = compress_from-Chain 0 (2 ^ 50) m ms c in (r.0, r.1, r.2, compress_from-Apart m ms)
