-- ===== src/Lsmt/File/Bytes.antt =====
-- The callbacks of `LSMTReadOnlyFile::pread` in lsmt/file.cpp, by the bytes that they leave in memory.
use cora.Base.{
  ℕ, ◌+◌, ◌-◌, ◌*◌, ◌/◌, ◌%◌, ◌≤◌, ◌<◌, ◌≡◌, refl, ap, ◌∙◌, List, [], ◌∷◌, Option, none, some,
  arith, if◌then◌else◌, ltb, leb, ◌&&◌, length, get_or, min, le-cases, inl, inr, le→ltb, lt→ltb,
}
use cora.Lsmt.Segment.{Segment, SegmentMapping}
use cora.Lsmt.Layout.{Block}
use cora.Lsmt.Foreach.{ok}
use cora.Lsmt.File.{
  alignment, store, set_bytes, Copy, Reader, read_zeroes, counted, read_rest, read_first, read_data,
}

module _ {Byte : Type 0} (null : Byte) where
  -- The byte of the device at an address.
  abbrev pub shown : (ℕ → ℕ → Byte) → Option Block → ℕ → Byte
  shown content none i = null
  shown content (some b) i = if b.zeroed then null else content b.tag (b.moffset * alignment + i)

  abbrev pub device : (ℕ → ℕ → Byte) → (ℕ → Option Block) → ℕ → Byte
  device content view a = shown content (view (a / alignment)) (a % alignment)

  -- `n` bytes more in memory, those of `f`.
  abbrev pub Filled : (ℕ → Byte) → Copy Byte → ℕ → Copy Byte → Type 0
  Filled f c n c' =
      (c'.buf ≡ c.buf + n)
      × ((a : ℕ)
          → c'.memory a ≡ (if leb c.buf a && ltb a (c.buf + n) then f (a - c.buf) else c.memory a))

  pub Filled-then :
      (f g h : ℕ → Byte) (c c' c'' : Copy Byte) (n k : ℕ)
      → ((i : ℕ) → i < n → h i ≡ f i)
      → ((i : ℕ) → h (n + i) ≡ g i)
      → Filled f c n c'
      → Filled g c' k c''
      → Filled h c (n + k) c''
  Filled-then f g h c c' c'' n k a b w w' = (
    omega (arith, w.0, w'.0),
    λ x. w'.1 x ∙ elim (le-cases (c.buf + n) x) [
      | inl j ↦ ground (arith, w.0, w.1 x, ap h (split x j), b (x - c'.buf))
      | inr j ↦ ground (arith, w.0, w.1 x, a (x - c.buf))
    ],
  )
    where
      split : (x : ℕ) → c.buf + n ≤ x → x - c.buf ≡ n + (x - c'.buf)
      split x j = omega (arith, w.0)

  -- Reads of files as documented: `read` gives the bytes up to the end of the file, and what lies beyond the
  -- end counts as null.
  pub record IsReader (read : Reader Byte) (sizes : ℕ → ℕ) (content : ℕ → ℕ → Byte) : Type 0 where
    pub bytes : ℕ → ℕ → ℕ → List Byte
    pub reads : (tag offset size : ℕ) → read tag offset size ≡ some (bytes tag offset size)
    pub count :
        (tag offset size : ℕ) → length (bytes tag offset size) ≡ min size (sizes tag - offset)
    pub right :
        (tag offset size i : ℕ) (d : Byte)
        → i < length (bytes tag offset size)
        → get_or (bytes tag offset size) i d ≡ content tag (offset + i)
    pub beyond : (tag a : ℕ) → sizes tag ≤ a → content tag a ≡ null

  module _ (read : Reader Byte) (sizes : ℕ → ℕ) (content : ℕ → ℕ → Byte)
      (r : IsReader read sizes content) where
    nothing_read : (xs : List Byte) → length xs ≡ 0 → xs ≡ []
    nothing_read [] h = refl
    nothing_read (x ∷ xs) h = absurd (omega arith)

    pub read_zeroes-Filled :
        (m : Segment) (c : Copy Byte)
        → (c' : Copy Byte) × (read_zeroes null read m c ≡ ok c')
          × Filled (λ i. null) c (m.length * alignment) c'
    unfolding read_zeroes
    read_zeroes-Filled m c = (_, refl, (refl, λ a. ground arith))

    pub read_data-Filled :
        (m : SegmentMapping) (c : Copy Byte)
        → (c' : Copy Byte) × (read_data null read m c ≡ ok c')
          × Filled (λ i. content m.tag (m.moffset * alignment + i)) c (m.length * alignment) c'
    unfolding read_data read_first read_rest
    read_data-Filled m c =
        let off = m.moffset * alignment in
        let size = m.length * alignment in
        let got = r.bytes m.tag off size in
        elim (le-cases size (length got)) [
          | inl k ↦ (
            counted null read c (store c.memory c.buf got) (length got) size,
            rw (r.reads m.tag off size, le→ltb (length got) size k) refl,
            (
              refl,
              λ a.
                  ground (
                    arith,
                    r.count m.tag off size,
                    r.right m.tag off size (a - c.buf) (c.memory a),
                  ),
            ),
          )
          | inr k ↦
              let ret = length got in
              let memory = store c.memory c.buf got in
              let n = r.count m.tag off size in
              let at_end =
                nothing_read (r.bytes m.tag (off + ret) (size - ret))
                  (r.count m.tag (off + ret) (size - ret) ∙ omega (arith, n)) in
              (
                counted null read c (set_bytes memory (c.buf + ret) (size - ret) null) ret size,
                rw (r.reads m.tag off size, lt→ltb ret size k)
                    (ap (read_rest null read c memory ret size)
                      (r.reads m.tag (off + ret) (size - ret) ∙ ap some at_end)),
                (
                  refl,
                  λ a. ground (
                    arith,
                    n,
                    r.right m.tag off size (a - c.buf) (c.memory a),
                    r.beyond m.tag (off + (a - c.buf)),
                  ),
                ),
              )
        ]
