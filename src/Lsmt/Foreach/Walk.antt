-- ===== src/Lsmt/Foreach/Walk.antt =====
-- The rounds of `foreach_segments` of lsmt/index.h.
use cora.Base.{
  ℕ, zero, suc, ◌+◌, ◌-◌, ◌^◌, ◌≤◌, ◌<◌, ◌≡◌, ap, sym, subst, fun_ext, ◌∙◌, List, ◌++◌, arith,
  le-cases, inl, inr, le→ltb, lt→ltb, length, if◌then◌else◌, ltb,
}
use cora.Lsmt.Segment.{Segment, SegmentMapping, segment_end}
use cora.Lsmt.Layout.{find, Chain, last_end, find-above, last_end-le}
use cora.Lsmt.MemoryIndex.{MemoryIndex}
use cora.Lsmt.Foreach.{Outcome, ok, ignoring, ◌>>=◌, advance, finish, foreach_segments, nmapping}
use cora.Lsmt.Foreach.Pieces.{
  Piece, IsZero, Tiles, Tiles-append, pieces, run, bind_assoc, run-append,
}
use cora.Lsmt.Foreach.Tiling.{
  span, visit-run, advance-span, last_end-Chain, last_end-grows, pieces-Tiles,
}

module _ {S : Type 0} (cb_zero : Segment → S → Outcome S) (cb_data : SegmentMapping → S → Outcome S)
    (idx : MemoryIndex) where
  -- The call for the blocks from `rest` on, if there are any.
  abbrev pub closing : ℕ → ℕ → S → Outcome S
  closing rest e state = if ltb rest e then ignoring (cb_zero (span rest e) state) else ok state

  finish-closing : (rest e : ℕ) → finish cb_zero cb_data (span rest e) ≡ closing rest e
  unfolding finish
  finish-closing rest e = fun_ext (λ state.
      ap (λ t. if t then ignoring (cb_zero (span rest e) state) else ok state) (left rest e))
    where
      left : (a b : ℕ) → ltb 0 (b - a) ≡ ltb a b
      left a b = ground arith

  -- The calls are those for pieces that tile the segment up to `rest`, each right by the view of the
  -- index, then one for the blocks from `rest` on, all zeroes, of which the result is not looked at.
  pub record Walk (s : Segment) (fuel o e : ℕ) : Type 0 where
    pub tiles : List Piece
    pub rest : ℕ
    pub calls :
        (state : S)
        → foreach_segments cb_zero cb_data idx fuel s state
          ≡ (run cb_zero cb_data tiles state >>= closing rest e)
    pub right : Tiles idx.view o rest tiles
    pub within : rest ≤ e
    pub zeroes : (x : ℕ) → rest ≤ x → x < e → IsZero (idx.view x)

  found : ℕ → ℕ → List SegmentMapping
  found o e = idx.lookup (span o e) nmapping

  found-Answers :
      (o e : ℕ)
      → o ≤ e
      → e < 2 ^ 50
      → e < o + 2 ^ 14
      → Chain o e (found o e)
        × (length (found o e) ≤ nmapping)
        × ((x : ℕ) → o ≤ x → x < last_end o (found o e) → find (found o e) x ≡ idx.view x)
        × (length (found o e) < nmapping
            → (x : ℕ) → o ≤ x
            → x < e
            → find (found o e) x ≡ idx.view x)
  unfolding found
  found-Answers o e a b l =
      let h = idx.answers (span o e) nmapping (omega arith) (omega arith) (omega arith) in
      let c : Chain o e (found o e) = subst (λ y. Chain o y (found o e)) (omega arith) h.0 in
      (
        c,
        h.1,
        λ x k j. h.2 x k (omega (arith, last_end-le o e (found o e) c)) (inr j),
        λ i x k j. h.2 x k (omega arith) (inl i),
      )

  -- One round, and what the walk goes on with.
  round :
      (fuel o e : ℕ) (state : S) (next : S → Outcome S)
      → Chain o e (found o e)
      → e < 2 ^ 50
      → e < o + 2 ^ 14
      → ((st : S)
          → (if ltb (length (found o e)) nmapping
              then finish cb_zero cb_data (span (last_end o (found o e)) e) st
              else foreach_segments cb_zero cb_data idx fuel (span (last_end o (found o e)) e) st)
            ≡ next st)
      → foreach_segments cb_zero cb_data idx (suc fuel) (span o e) state
        ≡ (run cb_zero cb_data (pieces (found o e) (span o e)) state >>= next)
  unfolding foreach_segments found
  round fuel o e state next c b l h =
      let ms = idx.lookup (span o e) nmapping in
      ap (λ o'. o' >>= go (advance ms (span o e))) (visit-run cb_zero cb_data ms (span o e) state)
      ∙ ap (λ s'. run cb_zero cb_data (pieces ms (span o e)) state >>= go s')
          (advance-span ms o e c b l)
      ∙ ap (λ f. run cb_zero cb_data (pieces ms (span o e)) state >>= f) (fun_ext h)
    where
      go : Segment → S → Outcome S
      go s' st =
          if ltb (length (idx.lookup (span o e) nmapping)) nmapping
          then finish cb_zero cb_data s' st
          else foreach_segments cb_zero cb_data idx fuel s' st

  pub walk :
      (fuel o e : ℕ) → o ≤ e → e < 2 ^ 50 → e < o + 2 ^ 14 → e - o < fuel → Walk (span o e) fuel o e
  walk zero o e a b l f = absurd (omega arith)
  walk (suc fuel) o e a b l f =
      let h = found-Answers o e a b l in
      let last = last_end o (found o e) in
      let grows = last_end-grows o e (found o e) h.0 in
      let tiled = pieces-Tiles idx.view (found o e) o e h.0 b l h.2 in
      elim (le-cases nmapping (length (found o e))) [
        | inr k ↦ record {
          tiles = pieces (found o e) (span o e);
          rest = last;
          calls = λ state. round fuel o e state _ h.0 b l (λ st.
              rw (lt→ltb (length (found o e)) nmapping k) (ap (λ f. f st) (finish-closing last e)));
          right = tiled;
          within = last_end-le o e (found o e) h.0;
          zeroes = λ x p q.
              subst IsZero
                (sym (find-above o last x (found o e) (last_end-Chain o e (found o e) h.0) p)
                  ∙ h.3 k x (omega (arith, grows)) q)
                tt;
        }
        | inl k ↦
            let more =
              walk fuel last e (last_end-le o e (found o e) h.0) b (omega (arith, grows))
                (omega (arith, grows, last_end-le o e (found o e) h.0)) in
            record {
              tiles = pieces (found o e) (span o e) ++ more.tiles;
              rest = more.rest;
              calls = λ state.
                  round fuel o e state
                    (λ st. run cb_zero cb_data more.tiles st >>= closing more.rest e) h.0 b l
                    (λ st. rw (le→ltb (length (found o e)) nmapping k) (more.calls st))
                  ∙ sym (
                      bind_assoc cb_zero cb_data
                        (run cb_zero cb_data (pieces (found o e) (span o e)) state)
                        (run cb_zero cb_data more.tiles) (closing more.rest e))
                  ∙ ap (λ o'. o' >>= closing more.rest e)
                      (sym (
                        run-append cb_zero cb_data (pieces (found o e) (span o e)) more.tiles
                          state));
              right =
                  Tiles-append idx.view o last more.rest (pieces (found o e) (span o e)) more.tiles
                    tiled more.right;
              within = more.within;
              zeroes = more.zeroes;
            }
      ]

  -- For an index that answers for its view, on a segment below the last block of the device: with a round for
  -- each block and one more, the walk ends, and its calls tile the segment, each of them right by the view.
  pub foreach_segments-Walk :
      (s : Segment)
      → segment_end s < 2 ^ 50
      → s.length < 2 ^ 14
      → Walk s (s.length + 1) s.offset (segment_end s)
  foreach_segments-Walk s f l =
      let same : segment_end s - s.offset ≡ s.length = omega arith in
      subst (λ n. Walk (record s { length = n }) (n + 1) s.offset (segment_end s)) same
        (walk (segment_end s - s.offset + 1) s.offset (segment_end s) (omega arith) f (omega arith)
          (omega arith))
