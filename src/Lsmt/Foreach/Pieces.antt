-- ===== src/Lsmt/Foreach/Pieces.antt =====
-- `foreach_segments` of lsmt/index.h as calls for a list of pieces.
use cora.Base.{
  ℕ, ◌-◌, ◌≤◌, ◌<◌, ◌≡◌, refl, ap, sym, fun_ext, ◌∙◌, List, [], ◌∷◌, ◌++◌, true, false, Option,
  none, some, if◌then◌else◌, ltb,
}
use cora.Lsmt.Segment.{
  Segment, SegmentMapping, segment, end, segment_end, segment_forward_offset_to,
}
use cora.Lsmt.Layout.{Block, block}
use cora.Lsmt.Foreach.{Outcome, ok, failed, out_of_fuel, ◌>>=◌, sliced}

pub data Piece : Type 0 where
  zeroes : Segment → Piece
  mapped : SegmentMapping → Piece

abbrev pub start : Piece → ℕ
start (zeroes g) = g.offset
start (mapped m) = m.offset

abbrev pub stop : Piece → ℕ
stop (zeroes g) = segment_end g
stop (mapped m) = end m

-- A block that reads as zeroes.
abbrev pub IsZero : Option Block → Type 0
IsZero none = Unit
IsZero (some b) = b.zeroed ≡ true

-- What a piece says of its blocks.
abbrev pub Shows : (ℕ → Option Block) → Piece → Type 0
Shows view (zeroes g) = (x : ℕ) → g.offset ≤ x → x < segment_end g → IsZero (view x)
Shows view (mapped m) =
    (m.zeroed ≡ false) × ((x : ℕ) → m.offset ≤ x → x < end m → view x ≡ some (block m x))

-- The pieces lie one after the other, none is empty, and each is right.
unfoldable pub Tiles : (ℕ → Option Block) → ℕ → ℕ → List Piece → Type 0
Tiles view lo hi [] = lo ≡ hi
Tiles view lo hi (p ∷ ps) =
    (start p ≡ lo) × (start p < stop p) × Shows view p × Tiles view (stop p) hi ps

pub Tiles-append :
    (view : ℕ → Option Block) (lo mid hi : ℕ) (ps qs : List Piece)
    → Tiles view lo mid ps
    → Tiles view mid hi qs
    → Tiles view lo hi (ps ++ qs)
unfolding Tiles
Tiles-append view lo mid hi [] qs e t = rw e t
Tiles-append view lo mid hi (p ∷ ps) qs e t =
    (e.0, e.1, e.2, Tiles-append view (stop p) mid hi ps qs e.3 t)

-- The pieces of what a look-up found in `s`.
abbrev pub piece : SegmentMapping → Piece
piece m = if m.zeroed then zeroes (sliced m) else mapped m

abbrev pub hole : Segment → SegmentMapping → List Piece
hole s m =
    if ltb s.offset m.offset then zeroes (segment s.offset (m.offset - s.offset)) ∷ [] else []

unfoldable pub pieces : List SegmentMapping → Segment → List Piece
pieces [] s = []
pieces (m ∷ ms) s = hole s m ++ (piece m ∷ pieces ms (segment_forward_offset_to s (end m)))

module _ {S : Type 0} (cb_zero : Segment → S → Outcome S)
    (cb_data : SegmentMapping → S → Outcome S) where
  abbrev pub call : Piece → S → Outcome S
  call (zeroes g) state = cb_zero g state
  call (mapped m) state = cb_data m state

  -- One call after the other, up to the first error.
  unfoldable pub run : List Piece → S → Outcome S
  run [] state = ok state
  run (p ∷ ps) state = call p state >>= run ps

  pub bind_assoc :
      (o : Outcome S) (f g : S → Outcome S) → (o >>= f >>= g) ≡ (o >>= (λ s. f s >>= g))
  bind_assoc (ok s) f g = refl
  bind_assoc (failed e s) f g = refl
  bind_assoc out_of_fuel f g = refl

  pub run-append :
      (ps qs : List Piece) (state : S) → run (ps ++ qs) state ≡ (run ps state >>= run qs)
  unfolding run
  run-append [] qs state = refl
  run-append (p ∷ ps) qs state =
      ap (λ f. call p state >>= f) (fun_ext (λ s. run-append ps qs s))
      ∙ sym (bind_assoc (call p state) (run ps) (run qs))

  pub bind_ok : (o : Outcome S) (f : S → Outcome S) → (o >>= (λ s. ok s) >>= f) ≡ (o >>= f)
  bind_ok (ok s) f = refl
  bind_ok (failed e s) f = refl
  bind_ok out_of_fuel f = refl
