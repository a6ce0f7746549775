-- ===== src/Chunking/Reads.antt =====
-- Which bytes decide a cut, and what happens where `MaxSize` is below the 8 KiB midpoint.
use cora.Base.{
  ℕ, suc, ◌+◌, ◌-◌, ◌%◌, ◌^◌, ◌≤◌, ◌<◌, min, bit_and, ◌≡◌, refl, ap, subst, sym, ◌∙◌, Bool, arith,
  ◌==◌, lt→leb, lt→ltb,
}
use cora.Chunking.{
  Memory, Globals, Scan, cut, rest, scan, after_loop, normalized_loops, normalized_chunking_64,
}
use cora.Chunking.Gear.{fing_gear_02kb_64, fing_gear_32kb_64}
use cora.Chunking.Hash.{hit, gear_sum_congr}
use cora.Chunking.Cut.{
  IsFirst, scan-start, one_loop, normalized_test, normalized_chunking_64-IsFirst,
}

pub IsFirst-unique :
    {f g : ℕ → Bool} {lo hi r r' : ℕ}
    → ((j : ℕ) → lo ≤ j → j < hi → f j ≡ g j)
    → IsFirst f lo hi r
    → IsFirst g lo hi r'
    → r ≡ r'
IsFirst-unique {f} {g} {lo} {hi} {r} {r'} same a b = ground (
  arith,
  same r a.from,
  same r' b.from,
  a.earlier r',
  b.earlier r,
  a.here,
  b.here,
  a.from,
  a.upto,
  b.from,
  b.upto,
)

-- The two memories hold the same bytes at the offsets from `lo` up to `hi`.
abbrev pub Agree : Memory → Memory → ℕ → ℕ → Type 0
Agree p q lo hi = (j : ℕ) → lo ≤ j → j < hi → p j ≡ q j

hit_congr :
    (mask : ℕ) (p q : Memory) (lo hi : ℕ)
    → Agree p q lo hi
    → (j : ℕ) → lo ≤ j
    → j < hi
    → hit mask p lo j ≡ hit mask q lo j
unfolding hit
hit_congr mask p q lo hi same j le lt =
    ap (λ x. bit_and (x % 2 ^ 64) mask == 0)
      (gear_sum_congr p q lo lo (suc (j - lo)) (λ i l. same (lo + i) (omega arith) (omega arith)))

normalized_test_congr :
    (p q : Memory) (lo mid hi : ℕ)
    → Agree p q lo hi
    → (j : ℕ) → lo ≤ j
    → j < hi
    → normalized_test p lo mid j ≡ normalized_test q lo mid j
normalized_test_congr p q lo mid hi same j le lt = ground (
  arith,
  hit_congr fing_gear_32kb_64 p q lo hi same j le lt,
  hit_congr fing_gear_02kb_64 p q lo hi same j le lt,
)

-- With `MaxSize` at 8 KiB or more, the normalized function's result rests on the bytes from 6 KiB up
-- to `min(n, MaxSize)` and on no other: two memories that agree there are cut alike.
pub normalized_chunking_64_congr :
    (g : Globals) (p q : Memory) (n : ℕ)
    → 8192 ≤ g.max_size
    → Agree p q 6144 (min n g.max_size)
    → normalized_chunking_64 g p n ≡ normalized_chunking_64 g q n
normalized_chunking_64_congr g p q n big same =
    let a = normalized_chunking_64-IsFirst g p n big in
    let b = normalized_chunking_64-IsFirst g q n big in
    let e =
      IsFirst-unique
        (λ j le lt.
          normalized_test_congr p q 6144 (min 8192 n) (min n g.max_size) same j (omega arith) lt)
        a.1 b.1 in
    λ i. ((a.0 ∙ sym b.0) i, e i)

strict_cut :
    (j : ℕ) (s : Scan) (k : ℕ → ℕ → ℕ)
    → j < 8192
    → after_loop s (λ _ _. 8192) ≡ j
    → after_loop s k ≡ j
strict_cut j (cut i) k lt e = e
strict_cut j (rest i fp) k lt e = absurd (omega arith)

-- With `MaxSize` below 8 KiB and a longer buffer of more than 6 KiB, `n` is clipped and `Mid` is not:
-- where the strict mask first passes at `j`, past the end of the buffer and before 8 KiB, the function
-- reads up to `j` and returns it, more than the buffer holds.
pub normalized_chunking_64_overrun :
    (g : Globals) (p : Memory) (n j : ℕ)
    → g.max_size < n
    → 6144 < n
    → n < j
    → j < 8192
    → IsFirst (hit fing_gear_32kb_64 p 6144) 6144 8192 j
    → ((normalized_chunking_64 g p n).1 ≡ j) × (n < (normalized_chunking_64 g p n).1)
unfolding normalized_chunking_64 normalized_loops
normalized_chunking_64_overrun g p n j clipped long past lt f =
    (returned, subst (λ r. n < r) (sym returned) past)
  where
    returned : (normalized_chunking_64 g p n).1 ≡ j
    returned =
        rw (lt→leb n 6144 long, lt→ltb g.max_size n clipped)
          (strict_cut j (scan fing_gear_32kb_64 p 2048 6144 0)
            (λ i fp.
              after_loop (scan fing_gear_02kb_64 p (g.max_size - i) i fp) (λ _ _. g.max_size))
            lt
            (IsFirst-unique (λ _ _ _. refl)
              (one_loop fing_gear_32kb_64 p 6144 8192 _ (omega arith)
                (scan-start fing_gear_32kb_64 p 6144 2048))
              f))
