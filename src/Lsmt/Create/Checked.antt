-- ===== src/Lsmt/Create/Checked.antt =====
-- The checks of lsmt/index.cpp against what they are for.
use cora.Base.{
  ℕ, ◌+◌, ◌^◌, ◌≤◌, ◌<◌, ◌≡◌, refl, ap, fun_ext, ◌∙◌, List, [], ◌∷◌, true, false, Bool-cases,
  Option, none, some, arith, if◌then◌else◌, le-cases, inl, inr, le→leb, ◌↔◌,
}
use cora.Lsmt.Segment.{SegmentMapping, end, mend}
use cora.Lsmt.Layout.{Block, block, contains, find, Chain, IsMapping, IsIndex, total}
use cora.Lsmt.Index0.{Index0, insert_all, empty, insert}
use cora.Lsmt.Index0.Insert.{Fits, Holds, insert-Overwrites}
use cora.Lsmt.Create.{
  verify_mapping_order, within, verify_mapping_moffset, create_memory_index0, create_memory_index,
}

-- Each mapping within its bit fields and not empty.
abbrev pub AreMappings : List SegmentMapping → Type 0
AreMappings [] = Unit
AreMappings (m ∷ ms) = IsMapping m × (end m ≤ 2 ^ 50) × AreMappings ms

-- Each mapped within the range, a zeroed one to a place in it or at its end.
abbrev pub AreWithin : ℕ → ℕ → List SegmentMapping → Type 0
AreWithin b e [] = Unit
AreWithin b e (m ∷ ms) =
    (b ≤ m.moffset)
    × (m.moffset ≤ e)
    × (m.zeroed ≡ false → (m.moffset < e) × (b < m.moffset + m.length) × (m.moffset + m.length ≤ e))
    × AreWithin b e ms

order→Chain :
    (m : SegmentMapping) (ms : List SegmentMapping)
    → AreMappings (m ∷ ms)
    → verify_mapping_order (m ∷ ms) ≡ true
    → Chain m.offset (2 ^ 50) (m ∷ ms)
unfolding verify_mapping_order Chain
order→Chain m [] g h = (omega arith, g.0, g.1)
order→Chain m (k ∷ ms) g h = elim (le-cases (end m) k.offset) [
  | inl j ↦
      let rest = order→Chain k ms g.2 (rw (le→leb (end m) k.offset j) at h) in
      (omega arith, g.0, (j, rest.1, rest.2))
  | inr j ↦ absurd (ground (arith, h))
]

Chain→order :
    (lo : ℕ) (ms : List SegmentMapping) → Chain lo (2 ^ 50) ms → verify_mapping_order ms ≡ true
unfolding verify_mapping_order Chain
Chain→order lo [] c = refl
Chain→order lo (m ∷ []) c = refl
Chain→order lo (m ∷ k ∷ ms) c =
    rw (le→leb (end m) k.offset c.2.0) (Chain→order (end m) (k ∷ ms) c.2)

pub verify_mapping_order-IsIndex :
    (ms : List SegmentMapping) → AreMappings ms → verify_mapping_order ms ≡ true → IsIndex ms
unfolding Chain
verify_mapping_order-IsIndex [] g h = omega arith
verify_mapping_order-IsIndex (m ∷ ms) g h = let c = order→Chain m ms g h in (omega arith, c.1, c.2)

pub moffset→AreWithin :
    (ms : List SegmentMapping) (b e : ℕ) → verify_mapping_moffset ms b e ≡ true → AreWithin b e ms
unfolding verify_mapping_moffset within
moffset→AreWithin [] b e h = tt
moffset→AreWithin (m ∷ ms) b e h = elim (Bool-cases (within m.moffset (mend m) b e m.zeroed)) [
  | inl k ↦ let rest = moffset→AreWithin ms b e (rw k at h) in ground (arith, k, rest)
  | inr k ↦ absurd (ground (arith, h, k))
]

pub AreWithin→moffset :
    (ms : List SegmentMapping) (b e : ℕ) → AreWithin b e ms → verify_mapping_moffset ms b e ≡ true
unfolding verify_mapping_moffset within
AreWithin→moffset [] b e h = refl
AreWithin→moffset (m ∷ ms) b e h = elim (Bool-cases m.zeroed) [
  | inl z ↦ ground (arith, z, AreWithin→moffset ms b e h.3)
  | inr z ↦ ground (arith, z, h.2 z, AreWithin→moffset ms b e h.3)
]

-- Of an array of mappings that are not empty and within their bit fields an index is made exactly if it is in order and
-- disjoint, and mapped within the range.
pub create_memory_index-IsIndex :
    (ms : List SegmentMapping) (b e vsize : ℕ)
    → AreMappings ms
    → (create_memory_index ms b e vsize
        ≡ some (record { mapping = ms; alloc_blk = 0; virtual_size = vsize }))
      ↔ (IsIndex ms × AreWithin b e ms)
unfolding create_memory_index
create_memory_index-IsIndex ms b e vsize g = (
  λ h. elim (Bool-cases (verify_mapping_order ms)) [
    | inl k ↦ elim (Bool-cases (verify_mapping_moffset ms b e)) [
      | inl j ↦ (verify_mapping_order-IsIndex ms g k, moffset→AreWithin ms b e j)
      | inr j ↦ absurd (ground (arith, h, k, j))
    ]
    | inr k ↦ absurd (ground (arith, h, k))
  ],
  λ h. ground (arith, Chain→order 0 ms h.0, AreWithin→moffset ms b e h.1),
)

-- The last of the mappings that has a block says what it is mapped to.
unfoldable pub latest : List SegmentMapping → (ℕ → Option Block) → ℕ → Option Block
latest [] view x = view x
latest (m ∷ ms) view x = latest ms (λ y. if contains m y then some (block m y) else view y) x

abbrev pub AllFit : List SegmentMapping → Type 0
AllFit [] = Unit
AllFit (m ∷ ms) = Fits m × AllFit ms

latest-congr :
    (ms : List SegmentMapping) (f g : ℕ → Option Block)
    → ((x : ℕ) → f x ≡ g x)
    → (x : ℕ) → latest ms f x ≡ latest ms g x
latest-congr ms f g h x = ap (λ v. latest ms v x) (fun_ext h)

insert_all-latest :
    (i : Index0) (ms : List SegmentMapping)
    → AllFit ms
    → Holds i
    → Holds (insert_all i ms)
      × ((x : ℕ) → find (insert_all i ms).mapping x ≡ latest ms (find i.mapping) x)
unfolding insert_all latest
insert_all-latest i [] f v = (v, λ x. refl)
insert_all-latest i (m ∷ ms) f v =
    let w = insert-Overwrites i m f.0 v in
    let r = insert_all-latest (insert i m) ms f.1 w.0 in
    (r.0, λ x. r.1 x ∙ latest-congr ms (find (insert i m).mapping) _ w.1 x)

-- Of any array of mappings within their bit fields, mapped within the range, a writable index is made; it is in order and
-- disjoint and counts its blocks, and maps each block as the last mapping of the array that has it.
pub create_memory_index0-latest :
    (ms : List SegmentMapping) (b e : ℕ)
    → AllFit ms
    → AreWithin b e ms
    → (i : Index0) × (create_memory_index0 ms b e ≡ some i)
      × Holds i
      × ((x : ℕ) → find i.mapping x ≡ latest ms (λ y. none) x)
unfolding create_memory_index0 Chain find total
create_memory_index0-latest ms b e f w =
    let r = insert_all-latest empty ms f (omega arith, refl) in
    (insert_all empty ms, rw (AreWithin→moffset ms b e w) refl, r.0, r.1)
