-- ===== src/Lsmt/File/Blocks.antt =====
-- A read of whole blocks by `foreach_segments` in `LSMTReadOnlyFile::pread` of lsmt/file.cpp.
use cora.Base.{
  ℕ, ◌+◌, ◌-◌, ◌*◌, ◌/◌, ◌%◌, ◌^◌, ◌≤◌, ◌<◌, ◌≡◌, refl, ap, sym, subst, ◌∙◌, List, [], ◌∷◌, Option,
  none, some, arith, false, le-cases, inl, inr, le→ltb, lt→ltb,
}
use cora.Lsmt.Segment.{SegmentMapping, segment_end}
use cora.Lsmt.Layout.{Block, block}
use cora.Lsmt.MemoryIndex.{MemoryIndex}
use cora.Lsmt.Foreach.{Outcome, ok, ◌>>=◌, foreach_segments, ignoring}
use cora.Lsmt.Foreach.Pieces.{Piece, zeroes, mapped, start, stop, IsZero, Shows, Tiles, call, run}
use cora.Lsmt.Foreach.Tiling.{span}
use cora.Lsmt.Foreach.Walk.{walk, closing}
use cora.Lsmt.File.{alignment, Copy, Reader, read_zeroes, read_data}
use cora.Lsmt.File.Bytes.{
  shown, device, Filled, Filled-then, IsReader, read_zeroes-Filled, read_data-Filled,
}

module _ {Byte : Type 0} (null : Byte) (read : Reader Byte) (sizes : ℕ → ℕ) (content : ℕ → ℕ → Byte)
    (r : IsReader null read sizes content) where
  pub Filled-congr :
      (f g : ℕ → Byte) (c c' : Copy Byte) (n k : ℕ)
      → n ≡ k
      → ((i : ℕ) → i < n → f i ≡ g i)
      → Filled null f c n c'
      → Filled null g c k c'
  Filled-congr f g c c' n k e h w = (omega (arith, w.0), λ a. ground (arith, w.1 a, h (a - c.buf)))

  zero-shown : (o : Option Block) (i : ℕ) → IsZero o → shown null content o i ≡ null
  zero-shown none i h = refl
  zero-shown (some b) i h = rw h refl

  device-zero :
      (view : ℕ → Option Block) (lo hi i : ℕ)
      → ((x : ℕ) → lo ≤ x → x < hi → IsZero (view x))
      → i < (hi - lo) * alignment
      → null ≡ device null content view (lo * alignment + i)
  device-zero view lo hi i h k = sym (
      zero-shown (view ((lo * alignment + i) / alignment)) _
        (h ((lo * alignment + i) / alignment) (omega arith) (omega arith)))

  mapped-shown :
      (m : SegmentMapping) (i : ℕ)
      → m.zeroed ≡ false
      → shown null content
          (some (block m ((m.offset * alignment + i) / alignment)))
          ((m.offset * alignment + i) % alignment)
        ≡ content m.tag (m.moffset * alignment + i)
  mapped-shown m i h =
      let at : (m.moffset + ((m.offset * alignment + i) / alignment - m.offset)) * alignment
            + (m.offset * alignment + i) % alignment
          ≡ m.moffset * alignment + i =
        omega arith in
      rw h (ap (content m.tag) at)

  -- The bytes of the device from the block `lo` on.
  abbrev pub blocks : (ℕ → Option Block) → ℕ → ℕ → Byte
  blocks view lo i = device null content view (lo * alignment + i)

  abbrev pub Reads : (ℕ → Option Block) → ℕ → ℕ → Outcome (Copy Byte) → Copy Byte → Type 0
  Reads view lo hi o c =
      (c' : Copy Byte) × (o ≡ ok c') × Filled null (blocks view lo) c ((hi - lo) * alignment) c'

  piece-Reads :
      (view : ℕ → Option Block) (p : Piece) (c : Copy Byte)
      → Shows view p
      → Reads view (start p) (stop p) (call (read_zeroes null read) (read_data null read) p c) c
  piece-Reads view (zeroes g) c h =
      let w = read_zeroes-Filled null read sizes content r g c in
      (
        w.0,
        w.1,
        Filled-congr (λ i. null) (blocks view g.offset) c w.0 _ _ (omega arith)
            (λ i k. device-zero view g.offset (segment_end g) i h (omega arith)) w.2,
      )
  piece-Reads view (mapped m) c h =
      let w = read_data-Filled null read sizes content r m c in
      (
        w.0,
        w.1,
        Filled-congr (λ i. content m.tag (m.moffset * alignment + i)) (blocks view m.offset) c w.0 _
            _ (omega arith)
            (λ i k.
              let x = (m.offset * alignment + i) / alignment in
              sym (
                ap (λ o. shown null content o ((m.offset * alignment + i) % alignment))
                  (h.1 x (omega arith) (omega arith))
                ∙ mapped-shown m i h.0))
            w.2,
      )

  -- One read after another.
  then-Reads :
      (view : ℕ → Option Block) (lo mid hi : ℕ) (o : Outcome (Copy Byte))
      (f : Copy Byte → Outcome (Copy Byte)) (c : Copy Byte)
      → lo ≤ mid
      → mid ≤ hi
      → Reads view lo mid o c
      → ((c' : Copy Byte) → Reads view mid hi (f c') c')
      → Reads view lo hi (o >>= f) c
  then-Reads view lo mid hi o f c a b w next =
      let w' = next w.0 in
      (
        w'.0,
        ap (λ o'. o' >>= f) w.1 ∙ w'.1,
        Filled-congr (blocks view lo) (blocks view lo) c w'.0 _ _ (omega arith) (λ i k. refl)
            (Filled-then null (blocks view lo) (blocks view mid) (blocks view lo) c w.0 w'.0
              ((mid - lo) * alignment) ((hi - mid) * alignment) (λ i k. refl)
              (λ i. ap (device null content view) (omega arith)) w.2 w'.2),
      )

  Tiles-le : (view : ℕ → Option Block) (lo hi : ℕ) (ps : List Piece) → Tiles view lo hi ps → lo ≤ hi
  unfolding Tiles
  Tiles-le view lo hi [] t = omega arith
  Tiles-le view lo hi (p ∷ ps) t = omega (arith, Tiles-le view (stop p) hi ps t.3)

  run-Reads :
      (view : ℕ → Option Block) (lo hi : ℕ) (ps : List Piece) (c : Copy Byte)
      → Tiles view lo hi ps
      → Reads view lo hi (run (read_zeroes null read) (read_data null read) ps c) c
  unfolding run Tiles
  run-Reads view lo hi [] c t = (c, refl, (omega arith, λ a. ground arith))
  run-Reads view lo hi (p ∷ ps) c t =
      then-Reads view lo (stop p) hi _ (run (read_zeroes null read) (read_data null read) ps) c
        (omega arith) (Tiles-le view (stop p) hi ps t.3)
        (subst
          (λ y. Reads view y (stop p) (call (read_zeroes null read) (read_data null read) p c) c)
          t.0 (piece-Reads view p c t.2))
        (λ c'. run-Reads view (stop p) hi ps c' t.3)

  closing-Reads :
      (idx : MemoryIndex) (view : ℕ → Option Block) (lo hi : ℕ) (c : Copy Byte)
      → lo ≤ hi
      → ((x : ℕ) → lo ≤ x → x < hi → IsZero (view x))
      → Reads view lo hi (closing (read_zeroes null read) (read_data null read) idx lo hi c) c
  closing-Reads idx view lo hi c a h = elim (le-cases hi lo) [
    | inl k ↦ rw (le→ltb lo hi k) (c, refl, (omega arith, λ x. ground arith))
    | inr k ↦
        let w = read_zeroes-Filled null read sizes content r (span lo hi) c in
        rw (lt→ltb lo hi k) (
          w.0,
          ap ignoring w.1,
          Filled-congr (λ i. null) (blocks view lo) c w.0 _ _ (omega arith)
              (λ i j. device-zero view lo hi i h j) w.2,
        )
  ]

  -- A read of whole blocks, of less than `2 ^ 14` of them.
  pub pread_once-Reads :
      (idx : MemoryIndex) (lo hi : ℕ) (c : Copy Byte)
      → lo ≤ hi
      → hi < 2 ^ 50
      → hi < lo + 2 ^ 14
      → Reads idx.view lo hi
          (foreach_segments
            (read_zeroes null read)
            (read_data null read)
            idx
            (hi - lo + 1)
            (span lo hi)
            c)
          c
  pread_once-Reads idx lo hi c a b d =
      let zero = read_zeroes null read in
      let full = read_data null read in
      let w = walk zero full idx (hi - lo + 1) lo hi a b d (omega arith) in
      subst (λ o. Reads idx.view lo hi o c) (sym (w.calls c))
        (then-Reads idx.view lo w.rest hi _ (closing zero full idx w.rest hi) c
          (Tiles-le idx.view lo w.rest w.tiles w.right) w.within
          (run-Reads idx.view lo w.rest w.tiles c w.right)
          (λ c'. closing-Reads idx idx.view w.rest hi c' w.within w.zeroes))
