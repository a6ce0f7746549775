-- ===== src/Lsmt/Merge/Layers.antt =====
-- `merge_indexes` of lsmt/index.cpp against layers of indexes: an index hides those behind it.
use cora.Base.{
  ℕ, ◌+◌, ◌%◌, ◌^◌, ◌≤◌, ◌<◌, ◌≡◌, refl, ap, subst, ◌∙◌, inl, inr, List, [], ◌∷◌, map, Option, none,
  arith, length, le-cases, le→ltb, lt→ltb, lt→leb, le→leb, length-append, if◌then◌else◌, ltb,
}
use cora.Lsmt.Segment.{SegmentMapping, end}
use cora.Lsmt.Layout.{Block, find, Chain, IsIndex, Chain-weaken, Chain-le, find-below}
use cora.Lsmt.Lookup.{lower_bound}
use cora.Lsmt.Lookup.Bound.{HeadEnds, lower_bound-Chain, lower_bound-HeadEnds}
use cora.Lsmt.Lookup.Trim.{trim_edges_lem}
use cora.Lsmt.Lookup.Answer.{find-lower_bound}
use cora.Lsmt.Combo.Layers.{
  over, Raw, Between, Chain-HeadEnds, cons-Raw, Between-Raw, append-Raw, Raw-room,
}
use cora.Lsmt.Merge.{put, merge_through, merge_one}

-- What is appended says of all the blocks up to `e`.
abbrev pub Whole : (ℕ → Option Block) → ℕ → ℕ → List SegmentMapping → Type 0
Whole view o e r = Chain o e r × ((x : ℕ) → o ≤ x → x < e → find r x ≡ view x)

-- The same before the edges are trimmed.
abbrev Full : (ℕ → Option Block) → ℕ → ℕ → ℕ → List SegmentMapping → Type 0
Full view lo o e r = Raw view lo o e (length r + 1) r

Full-weaken :
    (view : ℕ → Option Block) (lo o e : ℕ) (r : List SegmentMapping)
    → lo ≤ o
    → Full view o o e r
    → Full view lo o e r
Full-weaken view lo o e r a w =
    (Chain-weaken o lo (2 ^ 50) (2 ^ 50) r a (omega arith) w.0, w.1, w.2, w.3, w.4)

module _ (next : ℕ → ℕ → List SegmentMapping) (behind : ℕ → Option Block)
    (merged : (a b : ℕ) → a < b → b ≤ 2 ^ 50 → Whole behind a b (next a b)) (t : Option ℕ) (e : ℕ)
    (fits : e ≤ 2 ^ 50) where
  abbrev pub layered : List SegmentMapping → ℕ → Option Block
  layered ms x = over (find (map (put t) ms) x) (behind x)

  next-Between :
      (a b : ℕ) → a < b → b ≤ 2 ^ 50 → Between behind (length (next a b) + 1) a b (next a b)
  next-Between a b h f = let w = merged a b h f in (w.0, omega arith, λ x p q k. w.1 x p q)

  -- Where nothing is left of the index.
  rest-Full :
      (ms : List SegmentMapping) (o : ℕ)
      → o ≤ 2 ^ 50
      → ((x : ℕ) → o ≤ x → x < e → find (map (put t) ms) x ≡ none)
      → Full (layered ms) o o e (if ltb o e then next o e else [])
  unfolding Chain
  rest-Full ms o b h = elim (le-cases e o) [
    | inl k ↦ rw (le→ltb o e k) (b, tt, tt, omega arith, λ x p q r. absurd (omega arith))
    | inr k ↦ rw (lt→ltb o e k) (
        Between-Raw behind o e (length (next o e) + 1) (layered ms) e (next o e) (omega arith) fits
          (next-Between o e k fits) (λ x p q. ap (λ y. over y (behind x)) (h x p q)) (inl refl))
  ]

  map-Chain : (lo hi : ℕ) (ms : List SegmentMapping) → Chain lo hi ms → Chain lo hi (map (put t) ms)
  unfolding Chain
  map-Chain lo hi [] c = c
  map-Chain lo hi (m ∷ ms) c = (c.0, c.1, map-Chain (end m) hi ms c.2)

  map-lower_bound :
      (ms : List SegmentMapping) (o : ℕ)
      → map (put t) (lower_bound ms o) ≡ lower_bound (map (put t) ms) o
  unfolding lower_bound
  map-lower_bound [] o = refl
  map-lower_bound (m ∷ ms) o = elim (le-cases (end m) o) [
    | inl h ↦ rw (le→leb (end m) o h) (map-lower_bound ms o)
    | inr h ↦ rw (lt→leb (end m) o h) refl
  ]

  mapping-Full :
      (m : SegmentMapping) (ms r : List SegmentMapping) (lo o : ℕ)
      → Chain lo (2 ^ 50) (m ∷ ms)
      → m.offset ≤ o
      → o < end m
      → m.offset < e
      → Full (layered ms) (end m) (end m) e r
      → Full (layered (m ∷ ms)) lo o e (put t m ∷ r)
  unfolding Chain find
  mapping-Full m ms r lo o c a b d w =
      cons-Raw (layered (m ∷ ms)) (layered ms) lo o e _ (put t m) r c.1 c.0 a b d (omega arith)
        (λ x p q. ground arith) (λ x p. ground arith)
        (Raw-room (layered ms) (end m) (end m) e _ _ r (omega arith) (omega arith) w)

  only_behind :
      (m : SegmentMapping) (ms : List SegmentMapping) (lo x : ℕ)
      → Chain lo (2 ^ 50) (m ∷ ms)
      → x < m.offset
      → find (map (put t) (m ∷ ms)) x ≡ none
  unfolding Chain
  only_behind m ms lo x c h =
      find-below m.offset (2 ^ 50) x (map (put t) (m ∷ ms))
        (omega arith, c.1, map-Chain (end m) (2 ^ 50) ms c.2) h

  pub merge_through-Full :
      (ms : List SegmentMapping) (lo o : ℕ)
      → Chain lo (2 ^ 50) ms
      → HeadEnds o ms
      → lo ≤ o
      → o ≤ 2 ^ 50
      → Full (layered ms) lo o e (merge_through next t ms o e)
  unfolding merge_through Chain find
  merge_through-Full [] lo o c h a b =
      Full-weaken (layered []) lo o e _ a (rest-Full [] o b (λ x p q. refl))
  merge_through-Full (m ∷ ms) lo o c h a b =
      let longer = length-append (next o m.offset) (put t m ∷ merge_through next t ms (end m) e) in
      let inside = Chain-le (end m) (2 ^ 50) ms c.2 in
      let rest = merge_through next t ms (end m) e in
      let w =
        merge_through-Full ms (end m) (end m) c.2 (Chain-HeadEnds (end m) (2 ^ 50) ms c.2)
          (omega arith) inside in
      elim (le-cases e m.offset) [
        | inl k ↦ rw (le→ltb m.offset e k) (
            Full-weaken (layered (m ∷ ms)) lo o e _ a
              (rest-Full (m ∷ ms) o b (λ x p q. only_behind m ms lo x c (omega arith))))
        | inr k ↦ elim (le-cases m.offset o) [
          | inl i ↦
              rw (lt→ltb m.offset e k, le→ltb o m.offset i) (mapping-Full m ms rest lo o c i h k w)
          | inr i ↦
              rw (lt→ltb m.offset e k, lt→ltb o m.offset i)
                (Full-weaken (layered (m ∷ ms)) lo o e _ a (
                  append-Raw behind o e _ (layered (m ∷ ms)) (put t m) (next o m.offset) rest
                    (omega arith) k
                    (
                      (merged o m.offset i (omega arith)).0,
                      omega (arith, longer),
                      λ x p q j. (merged o m.offset i (omega arith)).1 x p q,
                    )
                    (omega (arith, longer))
                    (λ x p q. ap (λ y. over y (behind x)) (only_behind m ms lo x c q))
                    (Raw-room (layered (m ∷ ms)) m.offset m.offset e _ _ (put t m ∷ rest)
                      (omega arith) (omega (arith, longer))
                      (mapping-Full m ms rest m.offset m.offset (omega arith, c.1, c.2)
                        (omega arith) (omega arith) k w))))
        ]
      ]

  -- One index over those behind it, between any bounds on the device.
  pub merge_one-Whole :
      (index : List SegmentMapping) (o : ℕ)
      → IsIndex index
      → o < e
      → Whole (layered index) o e (merge_one next t index o e)
  unfolding merge_one
  merge_one-Whole index o c h =
      let lb = lower_bound index (o % 2 ^ 50) in
      let cut : o % 2 ^ 50 ≡ o = omega arith in
      let w =
        merge_through-Full lb 0 o (lower_bound-Chain 0 (2 ^ 50) (o % 2 ^ 50) index c)
          (subst (λ y. HeadEnds y lb) cut (lower_bound-HeadEnds (o % 2 ^ 50) index)) (omega arith)
          (omega arith) in
      let trimmed = trim_edges_lem o e h fits (merge_through next t lb o e) w.0 w.1 w.2 in
      rw (lt→leb e o h) (
        trimmed.0,
        λ x p q.
            trimmed.1 x p q
            ∙ w.4 x p q (inl (omega arith))
            ∙ ap (λ y. over y (behind x))
                (ap (λ ms. find ms x) (map-lower_bound index (o % 2 ^ 50))
                  ∙ find-lower_bound (o % 2 ^ 50) x (map (put t) index)
                      (map-Chain 0 (2 ^ 50) index c) (omega arith)),
      )
