-- ===== src/Lsmt/Foreach.antt =====
-- `foreach_segments` of lsmt/index.h, which looks an index up and calls back for every piece of a
-- segment.
pub mod Pieces
pub mod Tiling
pub mod Walk
use cora.Base.{
  ℕ, zero, suc, ◌+◌, ◌-◌, ◌^◌, ◌≤◌, ◌<◌, List, [], ◌∷◌, Bool, Option, if◌then◌else◌, ltb, length,
}
use cora.Lsmt.Segment.{
  Segment, SegmentMapping, segment, end, segment_end, segment_forward_offset_to,
}
use cora.Lsmt.MemoryIndex.{MemoryIndex}

-- What a call leaves: a state, or a state with an error that ends the walk.
pub data Outcome (S : Type 0) : Type 0 where
  ok : S → Outcome S
  failed : ℕ → S → Outcome S
  out_of_fuel : Outcome S

infixl 5 ◌>>=◌
abbrev pub ◌>>=◌ : {S : Type 0} → Outcome S → (S → Outcome S) → Outcome S
ok s >>= f = f s
failed e s >>= f = failed e s
out_of_fuel >>= f = out_of_fuel

abbrev pub nmapping : ℕ
nmapping = 16

-- The state that a call leaves, whatever it returned.
abbrev pub ignoring : {S : Type 0} → Outcome S → Outcome S
ignoring (ok s) = ok s
ignoring (failed e s) = ok s
ignoring out_of_fuel = out_of_fuel

-- A mapping as the segment that `cb_zero` takes.
abbrev pub sliced : SegmentMapping → Segment
sliced m = record { offset = m.offset; length = m.length }

-- The segment `s` after the loop over what a look-up found.
unfoldable pub advance : List SegmentMapping → Segment → Segment
advance [] s = s
advance (m ∷ ms) s = advance ms (segment_forward_offset_to s (end m))

module _ {S : Type 0} (cb_zero : Segment → S → Outcome S)
    (cb_data : SegmentMapping → S → Outcome S) where
  -- The body of the `for` loop, but for the move of `s`.
  unfoldable pub visit_one : Segment → SegmentMapping → S → Outcome S
  visit_one s m state = do
    state' ←
        if ltb s.offset m.offset
        then cb_zero (segment s.offset (m.offset - s.offset)) state
        else ok state
    if m.zeroed then cb_zero (sliced m) state' else cb_data m state'

  -- The `for` loop over what a look-up found.
  unfoldable pub visit : List SegmentMapping → Segment → S → Outcome S
  visit [] s state = ok state
  visit (m ∷ ms) s state = do
    state' ← visit_one s m state
    visit ms (segment_forward_offset_to s (end m)) state'

  -- After the loop; what the last call returns is not looked at.
  unfoldable pub finish : Segment → S → Outcome S
  finish s state = if ltb 0 s.length then ignoring (cb_zero s state) else ok state

  unfoldable pub foreach_segments : MemoryIndex → ℕ → Segment → S → Outcome S
  foreach_segments idx zero s state = out_of_fuel
  foreach_segments idx (suc fuel) s state = do
    let found = idx.lookup s nmapping
    let s' = advance found s
    state' ← visit found s state
    let next = foreach_segments idx fuel s' state'
    if ltb (length found) nmapping then finish s' state' else next
