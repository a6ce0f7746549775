-- ===== src/Zfile/Tiles.antt =====
-- The batches that the chunk loop of zfile_compress makes of a read.
use mathlib.Core.Option
use cora.Base.{
  ℕ, zero, suc, ◌+◌, ◌-◌, ◌≤◌, ◌<◌, ◌≡◌, refl, ap, subst, inl, inr, List, [], ◌∷◌, ◌++◌, false,
  Option, some, arith, ltb, leb, length, length-append, Bool-cases, ltb→lt,
}
use cora.Chunking.{Memory, Globals, set_min_size}
use cora.Zfile.{
  FastCdcChunker, Batch, next_chunk, last_batch, clamp_chunk, chunk_loop, chunk_buffer,
}
use cora.Zfile.Progress.{IsOwned, IsChunk, next_chunk-IsChunk}

abbrev pub sum : List ℕ → ℕ
sum [] = 0
sum (x ∷ xs) = x + sum xs

-- `lens` are chunks of the data from `at` up to `readn`, one after the other.
abbrev pub Chunks : FastCdcChunker → ℕ → ℕ → List ℕ → Type 0
Chunks c readn at [] = Unit {0}
Chunks c readn at (x ∷ xs) = IsChunk c (readn - at) x × Chunks c readn (at + x) xs

-- Batches of at most `nbatch` chunks, none empty, that follow one another from `at` to `readn`.
abbrev pub Tiles : FastCdcChunker → ℕ → ℕ → ℕ → List Batch → Type 0
Tiles c readn nbatch at [] = at ≡ readn
Tiles c readn nbatch at (b ∷ bs) =
    (b.start ≡ at)
    × Chunks c readn at b.lens
    × (0 < length b.lens)
    × (length b.lens ≤ nbatch)
    × Tiles c readn nbatch (at + sum b.lens) bs

Chunks-append :
    (c : FastCdcChunker) (readn at x : ℕ) (xs : List ℕ)
    → Chunks c readn at xs
    → IsChunk c (readn - (at + sum xs)) x
    → Chunks c readn at (xs ++ x ∷ [])
Chunks-append c readn at x [] h k =
    (subst (λ a. IsChunk c (readn - a) x) {x = at + 0} {y = at} (omega arith) k, tt)
Chunks-append c readn at x (y ∷ ys) h k = (
  h.0,
  Chunks-append c readn (at + y) x ys h.1 (
      subst (λ a. IsChunk c (readn - a) x) {x = at + (y + sum ys)} {y = at + y + sum ys}
        (omega arith) k),
)

sum-append : (xs : List ℕ) (x : ℕ) → sum (xs ++ x ∷ []) ≡ sum xs + x
sum-append [] x = omega arith
sum-append (y ∷ ys) x = omega (arith, sum-append ys x)

last_batch-Tiles :
    (c : FastCdcChunker) (readn nbatch start : ℕ) (lens : List ℕ)
    → Chunks c readn start lens
    → length lens ≤ nbatch
    → start + sum lens ≡ readn
    → Tiles c readn nbatch start (last_batch start lens)
last_batch-Tiles c readn nbatch start [] h n e = omega arith
last_batch-Tiles c readn nbatch start (x ∷ xs) h n e = (refl, h, omega arith, n, e)

clamp_chunk-id :
    (size remaining : ℕ) → 0 < size → size ≤ remaining → clamp_chunk size remaining ≡ size
clamp_chunk-id size remaining a b = ground arith

module _ (c : FastCdcChunker) (p : Memory) (readn nbatch : ℕ) (some_room : 0 < nbatch) where
  -- What the loop promises from any point of its run.
  abbrev Done : Option (List Batch) → ℕ → Type 0
  Done r start = (bs : List Batch) × (r ≡ some bs) × Tiles c readn nbatch start bs

  flushed-Done :
      (r : Option (List Batch)) (start : ℕ) (lens : List ℕ)
      → Chunks c readn start lens
      → 0 < length lens
      → length lens ≤ nbatch
      → Done r (start + sum lens)
      → Done (Option.map (λ bs. record { start = start; lens = lens } ∷ bs) r) start
  flushed-Done r start lens h a b (bs, e, t) = (
    record { start = start; lens = lens } ∷ bs,
    ap (Option.map (λ bs. record { start = start; lens = lens } ∷ bs)) e,
    (refl, h, a, b, t),
  )

  chunk_loop-Done :
      (fuel : ℕ) (g : Globals) (offset start : ℕ) (lens : List ℕ)
      → IsOwned c g
      → readn - offset < fuel
      → offset ≤ readn
      → start + sum lens ≡ offset
      → length lens < nbatch
      → Chunks c readn start lens
      → Done (chunk_loop c p readn nbatch fuel g offset start lens) start
  unfolding chunk_loop
  chunk_loop-Done zero g offset start lens o f le e n h = absurd (omega arith)
  chunk_loop-Done (suc fuel) g offset start lens o f le e n h =
      elim (Bool-cases (ltb offset readn)) [
        | inr stop ↦ rw stop (
          last_batch start lens,
          refl,
          last_batch-Tiles c readn nbatch start lens h (omega arith) (ground arith),
        )
        | inl more ↦
            let lt = ltb→lt offset readn more in
            let next = step lt in
            rw (more, clamp_chunk-id x (readn - offset) next.0.nonempty next.0.inside)
              (elim (Bool-cases (leb nbatch (length lens'))) [
                | inl full ↦ rw full (
                    flushed-Done _ start lens' (chunks' lt) (omega (arith, size'))
                      (omega (arith, size'))
                      (subst (λ a. Done (chunk_loop c p readn nbatch fuel g' offset' offset' []) a)
                        {x = offset'} {y = start + sum lens'} (omega (arith, sum'))
                        (chunk_loop-Done fuel g' offset' offset' [] (next.2)
                          (omega (arith, next.0.nonempty)) (omega (arith, next.0.inside))
                          (omega arith) some_room tt)))
                | inr room ↦ rw room (
                    chunk_loop-Done fuel g' offset' start lens' (next.2)
                      (omega (arith, next.0.nonempty)) (omega (arith, next.0.inside))
                      (omega (arith, sum')) (omega (arith, leb-false room)) (chunks' lt))
              ])
      ]
    where
      x : ℕ
      x = (next_chunk c (some (λ i. p (offset + i))) (readn - offset) g).1

      g' : Globals
      g' = (next_chunk c (some (λ i. p (offset + i))) (readn - offset) g).0

      offset' : ℕ
      offset' = offset + x

      lens' : List ℕ
      lens' = lens ++ x ∷ []

      step : offset < readn → IsChunk c (readn - offset) x × (g' ≡ set_min_size g) × IsOwned c g'
      step lt = next_chunk-IsChunk c g (λ i. p (offset + i)) (readn - offset) o (omega arith)

      chunks' : offset < readn → Chunks c readn start lens'
      chunks' lt = Chunks-append c readn start x lens h (
          subst (λ a. IsChunk c (readn - a) x) {x = offset} {y = start + sum lens} (omega arith)
            (step lt).0)

      sum' : sum lens' ≡ sum lens + x
      sum' = sum-append lens x

      size' : length lens' ≡ length lens + 1
      size' = length-append lens (x ∷ [])

      leb-false : leb nbatch (length lens') ≡ false → length lens' < nbatch
      leb-false e = ground arith

-- The whole of a read, with a chunker that owns the globals: the loop ends, and its batches, each of
-- one to `nbatch` chunks and starting where the one before ended, tile the `readn` bytes.
pub chunk_buffer-Tiles :
    (c : FastCdcChunker) (g : Globals) (p : Memory) (readn nbatch : ℕ)
    → IsOwned c g
    → 0 < nbatch
    → (bs : List Batch) × (chunk_buffer c p readn nbatch g ≡ some bs) × Tiles c readn nbatch 0 bs
unfolding chunk_buffer
chunk_buffer-Tiles c g p readn nbatch o pos =
    chunk_loop-Done c p readn nbatch pos (suc readn) g 0 0 [] o (omega arith) (omega arith) refl pos
      tt
