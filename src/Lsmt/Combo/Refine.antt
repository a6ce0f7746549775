-- ===== src/Lsmt/Combo/Refine.antt =====
-- `ComboIndex::lookup` of lsmt/index.cpp against two layers.
use cora.Base.{
  ℕ, ◌+◌, ◌-◌, ◌^◌, ◌≤◌, ◌<◌, ◌≡◌, refl, ap, sym, subst, ◌∙◌, inl, inr, List, [], ◌∷◌, ◌++◌, Option,
  none, arith, length, le-cases, ne→==, le→ltb, lt→ltb, if◌then◌else◌, ◌==◌, true,
}
use cora.Lsmt.Segment.{Segment, SegmentMapping, end, segment_end}
use cora.Lsmt.Layout.{Block, find, Chain, IsIndex, Chain-weaken, Chain-le, find-below}
use cora.Lsmt.Lookup.{lower_bound}
use cora.Lsmt.Lookup.Bound.{HeadEnds, lower_bound-Chain, lower_bound-HeadEnds}
use cora.Lsmt.Lookup.Trim.{trim_edge_mappings_lem}
use cora.Lsmt.Lookup.Answer.{Answers, find-lower_bound, nothing}
use cora.Lsmt.MemoryIndex.{MemoryIndex}
use cora.Lsmt.Combo.{behind, look_behind, look_through, lookup_over}
use cora.Lsmt.Combo.Layers.{
  over, Raw, Between, Chain-HeadEnds, cons-Raw, behind-Between, Between-Raw, append-Raw,
}

module _ (idx : MemoryIndex) (e : ℕ) (fits : e ≤ 2 ^ 50) where
  abbrev layered : List SegmentMapping → ℕ → Option Block
  layered ms x = over (find ms x) (idx.view x)

  look_behind-Raw :
      (ms : List SegmentMapping) (o n : ℕ)
      → o ≤ 2 ^ 50
      → e < o + 2 ^ 14
      → ((x : ℕ) → o ≤ x → x < e → find ms x ≡ none)
      → Raw (layered ms) o o e n (look_behind idx.lookup o e n)
  unfolding look_behind Chain
  look_behind-Raw ms o n b l h = elim (le-cases n 0) [
    | inl k ↦ rw (le→ltb 0 n k) (
      b,
      tt,
      tt,
      omega arith,
      λ x p q r. absurd (elim r [ inl y ↦ omega arith | inr y ↦ omega arith ]),
    )
    | inr k ↦ elim (le-cases e o) [
      | inl j ↦
          rw (lt→ltb 0 n k, le→ltb o e j) (b, tt, tt, omega arith, λ x p q r. absurd (omega arith))
      | inr j ↦
          rw (lt→ltb 0 n k, lt→ltb o e j)
            (Between-Raw idx.view o e n (layered ms) e (behind idx.lookup o e n) (omega arith) fits
              (behind-Between idx o e n e j fits l k)
              (λ x p q. ap (λ y. over y (idx.view x)) (h x p q)) (inl refl))
    ]
  ]

  Raw-weaken :
      (view : ℕ → Option Block) (lo o n : ℕ) (r : List SegmentMapping)
      → lo ≤ o
      → Raw view o o e n r
      → Raw view lo o e n r
  Raw-weaken view lo o n r a w =
      (Chain-weaken o lo (2 ^ 50) (2 ^ 50) r a (omega arith) w.0, w.1, w.2, w.3, w.4)

  no_room-Raw :
      (view : ℕ → Option Block) (o n : ℕ)
      → o ≤ 2 ^ 50
      → n ≤ 0
      → Raw view o o e n (look_behind idx.lookup o e n)
  unfolding look_behind Chain
  no_room-Raw view o n b k = rw (le→ltb 0 n k) (
    b,
    tt,
    tt,
    omega arith,
    λ x p q r. absurd (elim r [ inl y ↦ omega arith | inr y ↦ omega arith ]),
  )

  -- The mapping at the iterator, and what is found after it.
  module _ (m : SegmentMapping) (ms r : List SegmentMapping) (lo o n : ℕ)
      (c : Chain lo (2 ^ 50) (m ∷ ms)) where
    mapping-Raw :
        m.offset ≤ o
        → o < end m
        → m.offset < e
        → 0 < n
        → Raw (layered ms) (end m) (end m) e (n - 1) r
        → Raw (layered (m ∷ ms)) lo o e n (m ∷ r)
    unfolding Chain find
    mapping-Raw a b d pos w =
        cons-Raw (layered (m ∷ ms)) (layered ms) lo o e n m r c.1 c.0 a b d pos
          (λ x p q. ground arith) (λ x p. ground arith) w

  -- In front of the mapping at the iterator only the back layer has blocks.
  only_behind :
      (m : SegmentMapping) (ms : List SegmentMapping) (lo x : ℕ)
      → Chain lo (2 ^ 50) (m ∷ ms)
      → x < m.offset
      → find (m ∷ ms) x ≡ none
  unfolding Chain
  only_behind m ms lo x c h = find-below m.offset (2 ^ 50) x (m ∷ ms) (omega arith, c.1, c.2) h

  full : (a b : ℕ) → a ≤ b → (a - b == 0) ≡ true
  full a b h = ground arith

  -- The back layer up to the mapping at the iterator, and the rest unless the room is full.
  passed-Raw :
      (m : SegmentMapping) (ms : List SegmentMapping) (lo o n : ℕ)
      → Chain lo (2 ^ 50) (m ∷ ms)
      → o < m.offset
      → m.offset < e
      → 0 < n
      → e ≤ 2 ^ 50
      → Between idx.view n o m.offset (behind idx.lookup o m.offset n)
      → (r : List SegmentMapping)
      → Raw (layered ms) (end m) (end m) e (n - length (behind idx.lookup o m.offset n) - 1) r
      → Raw (layered (m ∷ ms)) o o e n (
          if n - length (behind idx.lookup o m.offset n) == 0
          then behind idx.lookup o m.offset n
          else behind idx.lookup o m.offset n ++ (m ∷ r))
  unfolding Chain
  passed-Raw m ms lo o n c i k j f w r rest =
      let found = behind idx.lookup o m.offset n in
      let same : (x : ℕ) → o ≤ x → x < m.offset → layered (m ∷ ms) x ≡ idx.view x =
        λ x p q. ap (λ y. over y (idx.view x)) (only_behind m ms lo x c q) in
      elim (le-cases n (length found)) [
        | inl h ↦ rw (full n (length found) h) (
            Between-Raw idx.view o e n (layered (m ∷ ms)) m.offset found (omega arith) f w same
              (inr h))
        | inr h ↦ rw (ne→== (n - length found) 0 (omega arith)) (
            append-Raw idx.view o e n (layered (m ∷ ms)) m found r (omega arith) k w h same (
              mapping-Raw m ms r m.offset m.offset (n - length found) (omega arith, c.1, c.2)
                (omega arith) (omega arith) k (omega arith) rest))
      ]

  look_through-Raw :
      (ms : List SegmentMapping) (lo o n : ℕ)
      → Chain lo (2 ^ 50) ms
      → HeadEnds o ms
      → lo ≤ o
      → o ≤ 2 ^ 50
      → e < o + 2 ^ 14
      → Raw (layered ms) lo o e n (look_through idx.lookup ms o e n)
  unfolding look_through Chain find
  look_through-Raw [] lo o n c t a b l =
      Raw-weaken (layered []) lo o n _ a (look_behind-Raw [] o n b l (λ x p q. refl))
  look_through-Raw (m ∷ ms) lo o n c t a b l =
      let inside = Chain-le (end m) (2 ^ 50) ms c.2 in
      let ends = Chain-HeadEnds (end m) (2 ^ 50) ms c.2 in
      elim (le-cases e m.offset) [
        | inl k ↦ rw (le→ltb m.offset e k) (
            Raw-weaken (layered (m ∷ ms)) lo o n _ a
              (look_behind-Raw (m ∷ ms) o n b l (λ x p q. only_behind m ms lo x c (omega arith))))
        | inr k ↦ elim (le-cases n 0) [
          | inl j ↦
              rw (lt→ltb m.offset e k, le→ltb 0 n j)
                (Raw-weaken (layered (m ∷ ms)) lo o n _ a (no_room-Raw (layered (m ∷ ms)) o n b j))
          | inr j ↦ elim (le-cases m.offset o) [
            | inl i ↦
                rw (lt→ltb m.offset e k, lt→ltb 0 n j, le→ltb o m.offset i)
                  (mapping-Raw m ms _ lo o n c i t k j (
                    look_through-Raw ms (end m) (end m) (n - 1) c.2 ends (omega arith) inside
                      (omega arith)))
            | inr i ↦
                rw (lt→ltb m.offset e k, lt→ltb 0 n j, lt→ltb o m.offset i)
                  (Raw-weaken (layered (m ∷ ms)) lo o n _ a (
                    passed-Raw m ms lo o n c i k j (omega arith)
                      (behind-Between idx o e n m.offset i (omega arith) (omega arith) j) _
                      (look_through-Raw ms (end m) (end m)
                        (n - length (behind idx.lookup o m.offset n) - 1) c.2 ends (omega arith)
                        inside (omega arith))))
          ]
        ]
      ]

lookup_over_some :
    (idx : MemoryIndex) (ms : List SegmentMapping) (s : Segment) (n : ℕ)
    → IsIndex ms
    → segment_end s ≤ 2 ^ 50
    → s.length < 2 ^ 14
    → 0 < s.length
    → Answers (λ x. over (find ms x) (idx.view x)) s n (lookup_over idx.lookup ms s n)
unfolding lookup_over
lookup_over_some idx ms s n c f l h =
    let lb = lower_bound ms s.offset in
    let raw =
      look_through-Raw idx (segment_end s) f lb 0 s.offset n
        (lower_bound-Chain 0 (2 ^ 50) s.offset ms c) (lower_bound-HeadEnds s.offset ms)
        (omega arith) (omega arith) (omega arith) in
    let t =
      trim_edge_mappings_lem s h f (look_through idx.lookup lb s.offset (segment_end s) n) raw.0
        raw.1 raw.2 in
    rw (ne→== s.length 0 (omega arith)) (
      t.0,
      omega (arith, t.2, raw.3),
      λ x a b k.
          t.1 x a b
          ∙ raw.4 x a b (elim k [
            | inl y ↦ inl (omega (arith, t.2))
            | inr y ↦ inr (omega (arith, t.3 s.offset))
          ])
          ∙ ap (λ y. over y (idx.view x)) (find-lower_bound s.offset x ms c a),
    )

lookup_over_none :
    (back : Segment → ℕ → List SegmentMapping) (ms : List SegmentMapping) (s : Segment) (n : ℕ)
    → s.length ≡ 0
    → lookup_over back ms s n ≡ []
unfolding lookup_over
lookup_over_none back ms s n e = ground (arith, e)

-- A look-up in a set over an index that answers for its view says of each block of the segment what the set
-- maps it to, or else the index.
pub lookup_over-Answers :
    (idx : MemoryIndex) (ms : List SegmentMapping) (s : Segment) (n : ℕ)
    → IsIndex ms
    → segment_end s ≤ 2 ^ 50
    → s.length < 2 ^ 14
    → Answers (λ x. over (find ms x) (idx.view x)) s n (lookup_over idx.lookup ms s n)
lookup_over-Answers idx ms s n c f l = elim (le-cases s.length 0) [
  | inl h ↦
      subst (Answers (λ x. over (find ms x) (idx.view x)) s n)
        (sym (lookup_over_none idx.lookup ms s n (omega arith)))
        (nothing s n (λ x. over (find ms x) (idx.view x)) h)
  | inr h ↦ lookup_over_some idx ms s n c f l h
]
