-- ===== src/Lsmt/Lookup/Answer.antt =====
-- `lookup` of lsmt/index.cpp, by what its answer says of the blocks of the segment.
use cora.Base.{
  ℕ, ◌^◌, ◌≤◌, ◌<◌, ◌≡◌, ap, subst, sym, ◌∙◌, ◌⊎◌, inl, inr, List, [], Option, arith, length,
  le-cases, ne→==,
}
use cora.Lsmt.Segment.{Segment, SegmentMapping, segment_end}
use cora.Lsmt.Layout.{Block, find, Chain, IsIndex, last_end, find-append_above}
use cora.Lsmt.Lookup.{lower_bound, copy_n, lookup, before}
use cora.Lsmt.Lookup.Bound.{lower_bound-Chain, lower_bound-HeadEnds, before-whole, before-Chain}
use cora.Lsmt.Lookup.Trim.{
  copy_n-Chain, copy_n-length, copy_n-find, copy_n-HeadEnds, trim_edge_mappings_lem,
}

-- At most `n` mappings, in order and disjoint and within the segment, which say of its blocks what
-- `view` does: of all of them if there are fewer than `n`, else of those up to the last one.
abbrev pub Answers : (ℕ → Option Block) → Segment → ℕ → List SegmentMapping → Type 0
Answers view s n r =
    Chain s.offset (segment_end s) r
    × (length r ≤ n)
    × ((x : ℕ)
        → s.offset ≤ x
        → x < segment_end s
        → (length r < n) ⊎ (x < last_end s.offset r)
        → find r x ≡ view x)

pub find-lower_bound :
    (o x : ℕ) (ms : List SegmentMapping)
    → IsIndex ms
    → o ≤ x
    → find (lower_bound ms o) x ≡ find ms x
find-lower_bound o x ms c h = sym (
    ap (λ ys. find ys x) (before-whole ms o)
    ∙ find-append_above 0 o x (before ms o) (lower_bound ms o)
        (before-Chain 0 (2 ^ 50) o ms (omega arith) c) h)

lookup_some :
    (ms : List SegmentMapping) (s : Segment) (n : ℕ)
    → IsIndex ms
    → segment_end s ≤ 2 ^ 50
    → 0 < n
    → 0 < s.length
    → Answers (find ms) s n (lookup ms s n)
unfolding lookup
lookup_some ms s n c f pos h =
    let lb = lower_bound ms s.offset in
    let cb = lower_bound-Chain 0 (2 ^ 50) s.offset ms c in
    let copied = copy_n-Chain 0 (2 ^ 50) (segment_end s) n lb cb in
    let t =
      trim_edge_mappings_lem s h f (copy_n lb (segment_end s) n) copied.0
        (copy_n-HeadEnds (segment_end s) n s.offset lb (lower_bound-HeadEnds s.offset ms))
        copied.1 in
    rw (ne→== s.length 0 (omega arith)) (
      t.0,
      omega (arith, t.2, copy_n-length (segment_end s) n lb pos),
      λ x a b k.
          t.1 x a b
          ∙ copy_n-find s.offset 0 (2 ^ 50) (segment_end s) n x lb cb pos b (elim k [
            | inl y ↦ inl (omega (arith, t.2))
            | inr y ↦ inr (omega (arith, t.3 s.offset))
          ])
          ∙ find-lower_bound s.offset x ms c a,
    )

lookup_none : (ms : List SegmentMapping) (s : Segment) (n : ℕ) → s.length ≡ 0 → lookup ms s n ≡ []
unfolding lookup
lookup_none ms s n e = ground (arith, e)

pub nothing : (s : Segment) (n : ℕ) (view : ℕ → Option Block) → s.length ≤ 0 → Answers view s n []
unfolding Chain
nothing s n view h = (omega arith, omega arith, λ x a b k. absurd (omega arith))

-- A look-up in an index that is in order and disjoint says of the blocks of the segment what the index maps them to.
pub lookup-Answers :
    (ms : List SegmentMapping) (s : Segment) (n : ℕ)
    → IsIndex ms
    → segment_end s ≤ 2 ^ 50
    → 0 < n
    → Answers (find ms) s n (lookup ms s n)
lookup-Answers ms s n c f pos = elim (le-cases s.length 0) [
  | inl h ↦
      subst (Answers (find ms) s n) (sym (lookup_none ms s n (omega arith)))
        (nothing s n (find ms) h)
  | inr h ↦ lookup_some ms s n c f pos h
]
