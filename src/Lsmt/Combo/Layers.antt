-- ===== src/Lsmt/Combo/Layers.antt =====
-- `ComboIndex::lookup` of lsmt/index.cpp: what it says of a block, where two indexes lie one over the
-- other.
use cora.Base.{
  ℕ, ◌+◌, ◌-◌, ◌%◌, ◌^◌, ◌≤◌, ◌<◌, ◌≡◌, refl, sym, subst, ◌∙◌, ◌⊎◌, inl, inr, List, [], ◌∷◌, ◌++◌,
  Option, none, some, arith, length, le-cases, length-append,
}
use cora.Lsmt.Segment.{SegmentMapping, segment, end, segment_end}
use cora.Lsmt.Layout.{
  Block, find, block, Chain, IsMapping, last_end, StartBefore, last_end-le, Chain-weaken, Chain-le,
  Chain-append, find-append_below, find-append_above,
}
use cora.Lsmt.Lookup.Bound.{HeadEnds}
use cora.Lsmt.MemoryIndex.{MemoryIndex}
use cora.Lsmt.Combo.{behind}

-- What a block is mapped to where `front` lies over `back`.
abbrev pub over : Option Block → Option Block → Option Block
over none back = back
over (some b) back = some b

pub Chain-HeadEnds : (lo hi : ℕ) (ms : List SegmentMapping) → Chain lo hi ms → HeadEnds lo ms
unfolding Chain
Chain-HeadEnds lo hi [] c = tt
Chain-HeadEnds lo hi (m ∷ ms) c = omega arith

-- What is found from `o` on, before the edges are trimmed.
abbrev pub Raw : (ℕ → Option Block) → ℕ → ℕ → ℕ → ℕ → List SegmentMapping → Type 0
Raw view lo o e n r =
    Chain lo (2 ^ 50) r
    × HeadEnds o r
    × StartBefore e r
    × (length r ≤ n)
    × ((x : ℕ) → o ≤ x → x < e → (length r < n) ⊎ (x < last_end o r) → find r x ≡ view x)

-- A mapping of the front layer, and what is found after it.
pub cons-Raw :
    (view view' : ℕ → Option Block) (lo o e n : ℕ) (m : SegmentMapping) (r : List SegmentMapping)
    → IsMapping m
    → lo ≤ m.offset
    → m.offset ≤ o
    → o < end m
    → m.offset < e
    → 0 < n
    → ((x : ℕ) → m.offset ≤ x → x < end m → view x ≡ some (block m x))
    → ((x : ℕ) → end m ≤ x → view' x ≡ view x)
    → Raw view' (end m) (end m) e (n - 1) r
    → Raw view lo o e n (m ∷ r)
unfolding Chain find
cons-Raw view view' lo o e n m r g a b c d pos here after w = (
  (a, g, w.0),
  c,
  (d, w.2),
  omega (arith, w.3),
  λ x p q k. elim (le-cases (end m) x) [
    | inl j ↦
        ground (arith, w.4 x j q (elim k [ inl y ↦ inl (omega arith) | inr y ↦ inr y ]), after x j)
    | inr j ↦ ground (arith, here x (omega arith) j)
  ],
)

Chain-StartBefore :
    (lo hi e : ℕ) (ms : List SegmentMapping) → hi ≤ e → Chain lo hi ms → StartBefore e ms
unfolding Chain
Chain-StartBefore lo hi e [] h c = tt
Chain-StartBefore lo hi e (m ∷ ms) h c =
    (omega (arith, Chain-le (end m) hi ms c.2), Chain-StartBefore (end m) hi e ms h c.2)

StartBefore-append :
    (e : ℕ) (xs ys : List SegmentMapping)
    → StartBefore e xs
    → StartBefore e ys
    → StartBefore e (xs ++ ys)
StartBefore-append e [] ys a b = b
StartBefore-append e (x ∷ xs) ys a b = (a.0, StartBefore-append e xs ys a.1 b)

last_end-append :
    (d : ℕ) (xs ys : List SegmentMapping) → last_end d (xs ++ ys) ≡ last_end (last_end d xs) ys
last_end-append d [] ys = refl
last_end-append d (x ∷ xs) ys = last_end-append (end x) xs ys

-- `Answers` by the ends of the segment.
abbrev pub Between : (ℕ → Option Block) → ℕ → ℕ → ℕ → List SegmentMapping → Type 0
Between view n o e r =
    Chain o e r
    × (length r ≤ n)
    × ((x : ℕ) → o ≤ x → x < e → (length r < n) ⊎ (x < last_end o r) → find r x ≡ view x)

module _ (idx : MemoryIndex) (o e n : ℕ) where
  -- What the back layer says of the blocks up to `mid`.
  pub behind-Between :
      (mid : ℕ)
      → o < mid
      → mid ≤ 2 ^ 50
      → mid < o + 2 ^ 14
      → 0 < n
      → Between idx.view n o mid (behind idx.lookup o mid n)
  behind-Between mid a b c pos =
      let r = behind idx.lookup o mid n in
      let s = segment o (mid - o) in
      let offset : o % 2 ^ 50 ≡ o = omega arith in
      let whole : segment_end s ≡ mid = omega arith in
      subst (λ y. Between idx.view n y mid r) offset
        (subst (λ y. Between idx.view n (o % 2 ^ 50) y r) whole
          (idx.answers s n (omega arith) (omega arith) pos))

module _ (back : ℕ → Option Block) (o e n : ℕ) (view : ℕ → Option Block) where
  -- The back layer alone, where it fills the room or where nothing of the front layer is left.
  pub Between-Raw :
      (mid : ℕ) (r : List SegmentMapping)
      → mid ≤ e
      → e ≤ 2 ^ 50
      → Between back n o mid r
      → ((x : ℕ) → o ≤ x → x < mid → view x ≡ back x)
      → (mid ≡ e) ⊎ (n ≤ length r)
      → Raw view o o e n r
  Between-Raw mid r a f w same full = (
    Chain-weaken o o mid (2 ^ 50) r (omega arith) (omega arith) w.0,
    Chain-HeadEnds o mid r w.0,
    Chain-StartBefore o mid e r a w.0,
    w.1,
    λ x p q k. elim (le-cases mid x) [
      | inl j ↦ elim full [
        | inl eq ↦ absurd (omega arith)
        | inr l ↦ elim k [
          | inl l' ↦ absurd (omega arith)
          | inr l' ↦ absurd (omega (arith, last_end-le o mid r w.0))
        ]
      ]
      | inr j ↦ w.2 x p j k ∙ sym (same x p j)
    ],
  )

  -- The back layer up to a mapping of the front layer, and what is found from there on.
  pub append-Raw :
      (m : SegmentMapping) (found r : List SegmentMapping)
      → o ≤ m.offset
      → m.offset < e
      → Between back n o m.offset found
      → length found < n
      → ((x : ℕ) → o ≤ x → x < m.offset → view x ≡ back x)
      → Raw view m.offset m.offset e (n - length found) (m ∷ r)
      → Raw view o o e n (found ++ (m ∷ r))
  append-Raw m found r a b w short same rest = (
    chain,
    Chain-HeadEnds o (2 ^ 50) (found ++ (m ∷ r)) chain,
    StartBefore-append e found (m ∷ r) (Chain-StartBefore o m.offset e found (omega arith) w.0)
        rest.2,
    omega (arith, length-append found (m ∷ r), rest.3),
    λ x p q k. elim (le-cases m.offset x) [
      | inl j ↦
          find-append_above o m.offset x found (m ∷ r) w.0 j
          ∙ rest.4 x j q (elim k [
            | inl l ↦ inl (omega (arith, length-append found (m ∷ r)))
            | inr l ↦ inr (subst (λ y. x < y) (last_end-append o found (m ∷ r)) l)
          ])
      | inr j ↦
          find-append_below m.offset (2 ^ 50) x found (m ∷ r) rest.0 j
          ∙ w.2 x p j (inl short)
          ∙ sym (same x p j)
    ],
  )
    where
      chain : Chain o (2 ^ 50) (found ++ (m ∷ r))
      chain = Chain-append o m.offset (2 ^ 50) found (m ∷ r) w.0 rest.0

-- Where the room is not full, its size does not matter.
pub Raw-room :
    (view : ℕ → Option Block) (lo o e n n' : ℕ) (r : List SegmentMapping)
    → length r < n
    → length r ≤ n'
    → Raw view lo o e n r
    → Raw view lo o e n' r
Raw-room view lo o e n n' r a b w = (w.0, w.1, w.2, b, λ x p q k. w.4 x p q (inl a))
