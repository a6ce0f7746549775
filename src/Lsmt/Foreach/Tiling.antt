-- ===== src/Lsmt/Foreach/Tiling.antt =====
-- One round of `foreach_segments` of lsmt/index.h: its calls by the pieces of what was found.
use cora.Base.{
  ℕ, ◌+◌, ◌-◌, ◌^◌, ◌≤◌, ◌<◌, ◌≡◌, refl, ap, sym, subst, fun_ext, ◌∙◌, List, [], ◌∷◌, Bool,
  Bool-cases, true, false, Option, none, some, arith, if◌then◌else◌, ltb, le-cases, inl, inr,
  le→ltb, lt→ltb, length,
}
use cora.Lsmt.Segment.{Segment, SegmentMapping, segment, end, segment_forward_offset_to}
use cora.Lsmt.Layout.{Block, block, find, Chain, last_end, find-below, Chain-le}
use cora.Lsmt.Foreach.{Outcome, ◌>>=◌, sliced, visit_one, visit, advance}
use cora.Lsmt.Foreach.Pieces.{
  Piece, zeroes, mapped, IsZero, Tiles, Tiles-append, piece, hole, pieces, call, run, bind_assoc,
  bind_ok, run-append,
}

module _ {S : Type 0} (cb_zero : Segment → S → Outcome S)
    (cb_data : SegmentMapping → S → Outcome S) where
  visit_one-run :
      (s : Segment) (m : SegmentMapping) (state : S)
      → visit_one cb_zero cb_data s m state
        ≡ (run cb_zero cb_data (hole s m) state >>= call cb_zero cb_data (piece m))
  unfolding visit_one run
  visit_one-run s m state = elim (Bool-cases (ltb s.offset m.offset)) [
    | inl h ↦ rw h (
        ap (λ f. cb_zero (segment s.offset (m.offset - s.offset)) state >>= f) called
        ∙ sym (
            bind_ok cb_zero cb_data (cb_zero (segment s.offset (m.offset - s.offset)) state)
              (call cb_zero cb_data (piece m))))
    | inr h ↦ rw h (ap (λ f. f state) called)
  ]
    where
      called :
          (λ st. if m.zeroed then cb_zero (sliced m) st else cb_data m st)
          ≡ call cb_zero cb_data (piece m)
      called = fun_ext (λ st. elim (Bool-cases m.zeroed) [ inl z ↦ rw z refl | inr z ↦ rw z refl ])

  pub visit-run :
      (ms : List SegmentMapping) (s : Segment) (state : S)
      → visit cb_zero cb_data ms s state ≡ run cb_zero cb_data (pieces ms s) state
  unfolding visit run pieces
  visit-run [] s state = refl
  visit-run (m ∷ ms) s state =
      let s' = segment_forward_offset_to s (end m) in
      ap (λ o. o >>= visit cb_zero cb_data ms s') (visit_one-run s m state)
      ∙ bind_assoc cb_zero cb_data (run cb_zero cb_data (hole s m) state)
          (call cb_zero cb_data (piece m)) (visit cb_zero cb_data ms s')
      ∙ ap
          (λ f.
            run cb_zero cb_data (hole s m) state
            >>= (λ st. call cb_zero cb_data (piece m) st >>= f))
          (fun_ext (λ st. visit-run ms s' st))
      ∙ sym (run-append cb_zero cb_data (hole s m) (piece m ∷ pieces ms s') state)

-- A segment by its ends.
abbrev pub span : ℕ → ℕ → Segment
span o e = record { offset = o; length = e - o }

forward-span :
    (o e x : ℕ)
    → o ≤ x
    → x ≤ e
    → e < 2 ^ 50
    → e < o + 2 ^ 14
    → segment_forward_offset_to (span o e) x ≡ span x e
forward-span o e x a b c d = ground arith

pub advance-span :
    (ms : List SegmentMapping) (o e : ℕ)
    → Chain o e ms
    → e < 2 ^ 50
    → e < o + 2 ^ 14
    → advance ms (span o e) ≡ span (last_end o ms) e
unfolding advance Chain
advance-span [] o e c f l = refl
advance-span (m ∷ ms) o e c f l =
    rw (forward-span o e (end m) (omega arith) (Chain-le (end m) e ms c.2) f l)
      (advance-span ms (end m) e c.2 f (omega arith))

pub last_end-Chain :
    (lo hi : ℕ) (ms : List SegmentMapping) → Chain lo hi ms → Chain lo (last_end lo ms) ms
unfolding Chain
last_end-Chain lo hi [] c = omega arith
last_end-Chain lo hi (m ∷ ms) c = (c.0, c.1, last_end-Chain (end m) hi ms c.2)

hole-Tiles :
    (view : ℕ → Option Block) (o e : ℕ) (m : SegmentMapping)
    → o ≤ m.offset
    → m.offset < e
    → e < 2 ^ 50
    → e < o + 2 ^ 14
    → ((x : ℕ) → o ≤ x → x < m.offset → view x ≡ none)
    → Tiles view o m.offset (hole (span o e) m)
unfolding Tiles
hole-Tiles view o e m a b f l h = elim (le-cases m.offset o) [
  | inl k ↦ rw (le→ltb o m.offset k) (omega arith)
  | inr k ↦ rw (lt→ltb o m.offset k) (
    omega arith,
    omega arith,
    λ x p q. subst IsZero (sym (h x (omega arith) (omega arith))) tt,
    omega arith,
  )
]

piece-Tiles :
    (view : ℕ → Option Block) (m : SegmentMapping) (hi : ℕ) (ps : List Piece)
    → 0 < m.length
    → ((x : ℕ) → m.offset ≤ x → x < end m → view x ≡ some (block m x))
    → Tiles view (end m) hi ps
    → Tiles view m.offset hi (piece m ∷ ps)
unfolding Tiles
piece-Tiles view m hi ps pos h t = elim (Bool-cases m.zeroed) [
  | inl z ↦ as_piece true z (refl, omega arith, λ x a b. subst IsZero (sym (h x a b)) z, t)
  | inr z ↦ as_piece false z (refl, omega arith, (z, h), t)
]
  where
    as_piece :
        (b : Bool)
        → m.zeroed ≡ b
        → Tiles view m.offset hi ((if b then zeroes (sliced m) else mapped m) ∷ ps)
        → Tiles view m.offset hi (piece m ∷ ps)
    as_piece b e =
        subst (λ b'. Tiles view m.offset hi ((if b' then zeroes (sliced m) else mapped m) ∷ ps))
          (sym e)

pub pieces-Tiles :
    (view : ℕ → Option Block) (ms : List SegmentMapping) (o e : ℕ)
    → Chain o e ms
    → e < 2 ^ 50
    → e < o + 2 ^ 14
    → ((x : ℕ) → o ≤ x → x < last_end o ms → find ms x ≡ view x)
    → Tiles view o (last_end o ms) (pieces ms (span o e))
unfolding Chain pieces Tiles find
pieces-Tiles view [] o e c f l h = refl
pieces-Tiles view (m ∷ ms) o e c f l h =
    let last = last_end-Chain (end m) e ms c.2 in
    let below = Chain-le (end m) (last_end (end m) ms) ms last in
    let within = Chain-le (end m) e ms c.2 in
    rw (forward-span o e (end m) (omega arith) within f l) (
      Tiles-append view o m.offset (last_end (end m) ms) (hole (span o e) m)
        (piece m ∷ pieces ms (span (end m) e))
        (hole-Tiles view o e m c.0 (omega arith) f l
          (λ x a b. sym (h x a (omega arith)) ∙ ground (arith, find-below (end m) e x ms c.2)))
        (piece-Tiles view m (last_end (end m) ms) (pieces ms (span (end m) e)) c.1.0
          (λ x a b. sym (h x (omega arith) (omega arith)) ∙ ground arith)
          (pieces-Tiles view ms (end m) e c.2 f (omega arith)
            (λ x a b. ground (arith, h x (omega arith) b)))))

pub last_end-grows :
    (lo hi : ℕ) (ms : List SegmentMapping) → Chain lo hi ms → lo + length ms ≤ last_end lo ms
unfolding Chain
last_end-grows lo hi [] c = omega arith
last_end-grows lo hi (m ∷ ms) c = omega (arith, last_end-grows (end m) hi ms c.2)
