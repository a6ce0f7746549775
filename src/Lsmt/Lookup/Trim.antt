-- ===== src/Lsmt/Lookup/Trim.antt =====
-- `lookup` of lsmt/index.cpp: what the mappings that it returns say of the blocks of the segment.
use cora.Base.{
  ℕ, ◌-◌, ◌^◌, ◌≤◌, ◌<◌, ◌≡◌, refl, ap, subst, sym, ◌∙◌, List, [], ◌∷◌, arith, le-cases, inl, inr,
  le→ltb, lt→ltb, length, ◌⊎◌,
}
use cora.Lsmt.Segment.{Segment, SegmentMapping, end, segment_end}
use cora.Lsmt.Layout.{
  find, Chain, StartBefore, last_end, forward-exact, backward-exact, find-below, Chain-le,
}
use cora.Lsmt.Lookup.{copy_n, trim_front, trim_back, trim_edge_mappings}
use cora.Lsmt.Lookup.Bound.{HeadEnds}

pub copy_n-Chain :
    (lo hi e n : ℕ) (ms : List SegmentMapping)
    → Chain lo hi ms
    → Chain lo hi (copy_n ms e n) × StartBefore e (copy_n ms e n)
unfolding copy_n Chain
copy_n-Chain lo hi e n [] c = (c, tt)
copy_n-Chain lo hi e n (m ∷ ms) c =
    ground (arith, copy_n-Chain (end m) hi e (n - 1) ms c.2, Chain-le (end m) hi ms c.2)

pub copy_n-length : (e n : ℕ) (ms : List SegmentMapping) → 0 < n → length (copy_n ms e n) ≤ n
unfolding copy_n
copy_n-length e n [] c = omega arith
copy_n-length e n (m ∷ ms) c = ground (arith, copy_n-length e (n - 1) ms)

-- Up to the end of the segment, or of the last mapping where the count is full.
pub copy_n-find :
    (d lo hi e n x : ℕ) (ms : List SegmentMapping)
    → Chain lo hi ms
    → 0 < n
    → x < e
    → (length (copy_n ms e n) < n) ⊎ (x < last_end d (copy_n ms e n))
    → find (copy_n ms e n) x ≡ find ms x
unfolding copy_n Chain find
copy_n-find d lo hi e n x [] c a b h = refl
copy_n-find d lo hi e n x (m ∷ ms) c a b h = elim (le-cases e m.offset) [
  | inl k ↦ ground (arith, find-below (end m) hi x ms c.2)
  | inr k ↦ elim (le-cases n 1) [
    | inl j ↦ ground (arith, find-below (end m) hi x ms c.2)
    | inr j ↦ ground (arith, copy_n-find (end m) (end m) hi e (n - 1) x ms c.2 (omega arith) b)
  ]
]

pub copy_n-HeadEnds :
    (e n o : ℕ) (ms : List SegmentMapping) → HeadEnds o ms → HeadEnds o (copy_n ms e n)
unfolding copy_n
copy_n-HeadEnds e n o [] h = tt
copy_n-HeadEnds e n o (m ∷ ms) h = ground arith

-- A list of mappings cut at its front.
module _ (lo hi o : ℕ) (le : o ≤ hi) (fits : hi ≤ 2 ^ 50) where
  abbrev pub Fronted : List SegmentMapping → List SegmentMapping → Type 0
  Fronted old new =
      Chain o hi new
      × ((x : ℕ) → o ≤ x → find new x ≡ find old x)
      × (length new ≡ length old)
      × ((d : ℕ) → last_end d new ≡ last_end d old)
      × ((e : ℕ) → o < e → StartBefore e old → StartBefore e new)

  pub trim_front-Fronted :
      (ms : List SegmentMapping) → Chain lo hi ms → HeadEnds o ms → Fronted ms (trim_front ms o)
  unfolding trim_front Chain find
  trim_front-Fronted [] c h = (le, λ x a. refl, refl, λ d. refl, λ e a b. tt)
  trim_front-Fronted (m ∷ ms) c h = elim (le-cases o m.offset) [
    | inl k ↦ rw (le→ltb m.offset o k) ((k, c.1, c.2), λ x a. refl, refl, λ d. refl, λ e a b. b)
    | inr k ↦ rw (lt→ltb m.offset o k) (
        subst (λ m'. Fronted (m ∷ ms) (m' ∷ ms))
          (sym (forward-exact m o c.1 (omega (arith, Chain-le (end m) hi ms c.2)) (omega arith) h))
          (
            ground arith,
            λ x a. ground arith,
            refl,
            λ d. ap (λ y. last_end y ms) (omega arith),
            λ e a b. (a, b.1),
          ))
  ]

-- A list of mappings cut at its back.
module _ (hi e : ℕ) (fits : hi ≤ 2 ^ 50) where
  abbrev pub Backed : ℕ → List SegmentMapping → List SegmentMapping → Type 0
  Backed lo old new =
      Chain lo e new
      × ((x : ℕ) → x < e → find new x ≡ find old x)
      × (length new ≡ length old)
      × ((d : ℕ) → last_end d new ≤ last_end d old)

  pub trim_back-Backed :
      (lo : ℕ) (ms : List SegmentMapping)
      → lo ≤ e
      → Chain lo hi ms
      → StartBefore e ms
      → Backed lo ms (trim_back ms e)
  unfolding trim_back Chain find
  trim_back-Backed lo [] a c t = (a, λ x h. refl, refl, λ d. omega arith)
  trim_back-Backed lo (m ∷ []) a c t = elim (le-cases (end m) e) [
    | inl k ↦ rw (le→ltb e (end m) k) ((c.0, c.1, k), λ x h. refl, refl, λ d. omega arith)
    | inr k ↦ rw (lt→ltb e (end m) k) (
        subst (λ m'. Backed lo (m ∷ []) (m' ∷ []))
          (sym (backward-exact m e c.1 (omega arith) t.0 (omega arith)))
          (ground arith, λ x h. ground arith, refl, λ d. omega arith))
  ]
  trim_back-Backed lo (m ∷ k ∷ ms) a c t =
      let r = trim_back-Backed (end m) (k ∷ ms) (omega arith) c.2 t.1 in
      ((c.0, c.1, r.0), λ x h. ground (arith, r.1 x h), omega (arith, r.2), λ d. r.3 (end m))

-- Both edges.
module _ (o e : ℕ) (some_blocks : o < e) (fits : e ≤ 2 ^ 50) where
  pub trim_edges_lem :
      (ms : List SegmentMapping)
      → Chain 0 (2 ^ 50) ms
      → HeadEnds o ms
      → StartBefore e ms
      → Chain o e (trim_back (trim_front ms o) e)
        × ((x : ℕ) → o ≤ x → x < e → find (trim_back (trim_front ms o) e) x ≡ find ms x)
        × (length (trim_back (trim_front ms o) e) ≡ length ms)
        × ((d : ℕ) → last_end d (trim_back (trim_front ms o) e) ≤ last_end d ms)
  trim_edges_lem ms c h t =
      let f : Fronted 0 (2 ^ 50) o (omega arith) (omega arith) ms (trim_front ms o) =
        trim_front-Fronted 0 (2 ^ 50) o (omega arith) (omega arith) ms c h in
      let b =
        trim_back-Backed (2 ^ 50) e (omega arith) o (trim_front ms o) (omega arith) f.0
          (f.4 e (omega arith) t) in
      (b.0, λ x k j. b.1 x j ∙ f.1 x k, b.2 ∙ f.2, λ d. omega (arith, b.3 d, f.3 d))

-- By the segment that was looked up.
module _ (s : Segment) (some_length : 0 < s.length) (fits : segment_end s ≤ 2 ^ 50) where
  pub trim_edge_mappings_lem :
      (ms : List SegmentMapping)
      → Chain 0 (2 ^ 50) ms
      → HeadEnds s.offset ms
      → StartBefore (segment_end s) ms
      → Chain s.offset (segment_end s) (trim_edge_mappings ms s)
        × ((x : ℕ)
            → s.offset ≤ x
            → x < segment_end s
            → find (trim_edge_mappings ms s) x ≡ find ms x)
        × (length (trim_edge_mappings ms s) ≡ length ms)
        × ((d : ℕ) → last_end d (trim_edge_mappings ms s) ≤ last_end d ms)
  unfolding trim_edge_mappings
  trim_edge_mappings_lem ms c h t =
      trim_edges_lem s.offset (segment_end s) (omega arith) fits ms c h t
