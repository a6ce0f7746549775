-- ===== src/Chunking.antt =====
-- overlaybd/FastCDC-c/fastcdc.c: content-defined chunking over a rolling gear hash.
-- `p` is the memory from the pointer on, one byte for each offset. `n` is a C `int` that the callers
-- keep non-negative. A `while (i < e)` loop recurs on the rounds left, `e - i`.
pub mod Gear
pub mod Hash
pub mod Loops
pub mod Cut
pub mod Reads
pub mod Resync
pub mod TwoBytes
pub mod Tests
use cora.Base.{
  ℕ, zero, suc, ◌+◌, ◌-◌, ◌*◌, ◌/◌, ◌%◌, ◌^◌, bit_and, List, [], ◌∷◌, map, Bool, ltb, leb, ◌==◌,
  if◌then◌else◌, get_or, replicate, take,
}
use Gear.{
  gearv2, fing_gear_08kb_64, fing_gear_02kb_64, fing_gear_32kb_64, fing_gear_08kb_ls_64,
  fing_gear_02kb_ls_64, fing_gear_32kb_ls_64,
}

abbrev pub Memory : Type 0
Memory = ℕ → ℕ

-- The global variables that the functions read or write.
pub record Globals : Type 0 where
  pub learv2 : List ℕ
  pub global_matrix : List ℕ
  pub global_matrix_left : List ℕ
  pub min_size : ℕ
  pub max_size : ℕ
  pub min_size_divide_by_2 : ℕ
  pub mask_15 : ℕ
  pub mask_11 : ℕ
  pub mask_15_64 : ℕ
  pub mask_11_64 : ℕ
  pub expect_cs : ℕ

abbrev pub symbol_count : ℕ
symbol_count = 256

abbrev pub seed_length : ℕ
seed_length = 64

-- `memcpy` of the first four bytes of a digest into a little-endian `uint32_t`.
first_word : List ℕ → ℕ
first_word d = get_or d 0 0 + 256 * get_or d 1 0 + 256 ^ 2 * get_or d 2 0 + 256 ^ 3 * get_or d 3 0

-- `f 0 ∷ f 1 ∷ … ∷ f (n - 1) ∷ []`, from index `i` on: the loop that fills an array.
tabulate : ℕ → ℕ → (ℕ → ℕ) → List ℕ
tabulate zero i f = []
tabulate (suc n) i f = f i ∷ tabulate n (suc i) f

-- One entry of `g_global_matrix`: the digest of 64 copies of the symbol. `MD5` is openssl's.
matrix_entry : (List ℕ → List ℕ) → ℕ → ℕ
unfolding first_word
matrix_entry md5 i = first_word (md5 (replicate seed_length i))

-- `fastCDC_init`
unfoldable pub fast_cdc_init : (List ℕ → List ℕ) → Globals → Globals
unfolding matrix_entry tabulate
fast_cdc_init md5 g = record g {
  learv2 = map (λ x. (x * 2) % 2 ^ 64) gearv2;
  global_matrix = tabulate symbol_count 0 (matrix_entry md5);
  global_matrix_left = tabulate symbol_count 0 (λ i. (matrix_entry md5 i * 2) % 2 ^ 32);
  min_size = 8192 / 4;
  max_size = (8192 * 4);
  mask_15 = 0xf9070353;
  mask_11 = 0xd9000353;
  mask_11_64 = 0x0000d90003530000;
  mask_15_64 = 0x0000f90703530000;
  min_size_divide_by_2 = 8192 / 4 / 2;
}

-- `GEARv2[b]`
pub gear : ℕ → ℕ
gear b = get_or gearv2 b 0

-- What a scanning loop ends with: `return i`, or the loop variables after its last round.
pub data Scan : Type 0 where
  cut : ℕ → Scan
  rest : ℕ → ℕ → Scan

-- `(fingerprint << 1) + GEARv2[b]`, in 64 bits.
pub roll : ℕ → ℕ → ℕ
roll fp b = (fp * 2 + gear b) % 2 ^ 64

-- The loop of one byte a round.
pub scan : ℕ → Memory → ℕ → ℕ → ℕ → Scan
scan mask p zero i fp = rest i fp
scan mask p (suc k) i fp =
    let fp' = roll fp (p i) in
    let next = scan mask p k (suc i) fp' in if bit_and fp' mask == 0 then cut i else next

-- The loop of two bytes a round; `i` counts pairs.
pub scan_2 : List ℕ → ℕ → ℕ → Memory → ℕ → ℕ → ℕ → Scan
scan_2 lear mask_ls mask p zero i fp = rest i fp
scan_2 lear mask_ls mask p (suc k) i fp =
    let a = i * 2 in
    let fp' = (fp * 4 + get_or lear (p a) 0) % 2 ^ 64 in
    let fp'' = (fp' + gear (p (a + 1))) % 2 ^ 64 in
    let next = scan_2 lear mask_ls mask p k (suc i) fp'' in
    if bit_and fp' mask_ls == 0
    then cut a
    else (if bit_and fp'' mask == 0 then cut (a + 1) else next)

-- A loop's `return i`, or else the code after the loop.
abbrev pub after_loop : Scan → (ℕ → ℕ → ℕ) → ℕ
after_loop (cut i) k = i
after_loop (rest i fp) k = k i fp

-- `if (n > MaxSize) n = MaxSize;`
abbrev pub clip : ℕ → ℕ → ℕ
clip max_size n = if ltb max_size n then max_size else n

-- `if (n > MaxSize) n = MaxSize; else if (n < Mid) Mid = n;` as it leaves `Mid`, from 8 KiB.
abbrev pub clip_mid : ℕ → ℕ → ℕ
clip_mid max_size n = if ltb max_size n then 8192 else (if ltb n 8192 then n else 8192)

unfoldable pub cdc_origin_64 : Globals → Memory → ℕ → ℕ
cdc_origin_64 g p n =
    if leb n g.min_size
    then n
    else (let e = clip g.max_size n in
        after_loop (scan fing_gear_08kb_64 p (e - g.min_size) g.min_size 0) (λ _ _. e))

unfoldable pub rolling_data_2byes_64 : Globals → Memory → ℕ → ℕ
rolling_data_2byes_64 g p n =
    if leb n g.min_size
    then n
    else (let e = clip g.max_size n in
        let i = g.min_size_divide_by_2 in
        after_loop (scan_2 g.learv2 fing_gear_08kb_ls_64 fing_gear_08kb_64 p (e / 2 - i) i 0)
          (λ _ _. e))

-- Both normalized functions begin with `MinSize = 6 * 1024`.
abbrev pub set_min_size : Globals → Globals
set_min_size g = record g { min_size = 6 * 1024 }

-- The two loops of `normalized_chunking_64`, the strict mask up to `mid` and the lax one up to `e`.
pub normalized_loops : Memory → ℕ → ℕ → ℕ → ℕ
normalized_loops p i mid e =
    after_loop (scan fing_gear_32kb_64 p (mid - i) i 0)
      λ j fp. after_loop (scan fing_gear_02kb_64 p (e - j) j fp) (λ _ _. e)

unfoldable pub normalized_chunking_64 : Globals → Memory → ℕ → Globals × ℕ
normalized_chunking_64 g p n =
    let g' = set_min_size g in
    (
      g',
      if leb n g'.min_size
          then n
          else normalized_loops p g'.min_size (clip_mid g'.max_size n) (clip g'.max_size n),
    )

-- The two loops of `normalized_chunking_2byes_64`, over pairs.
pub normalized_loops_2 : List ℕ → Memory → ℕ → ℕ → ℕ → ℕ
normalized_loops_2 lear p i mid e =
    after_loop (scan_2 lear fing_gear_32kb_ls_64 fing_gear_32kb_64 p (mid / 2 - i) i 0) λ j fp.
      after_loop (scan_2 lear fing_gear_02kb_ls_64 fing_gear_02kb_64 p (e / 2 - j) j fp) (λ _ _. e)

unfoldable pub normalized_chunking_2byes_64 : Globals → Memory → ℕ → Globals × ℕ
normalized_chunking_2byes_64 g p n =
    let g' = set_min_size g in
    (
      g',
      if leb n g'.min_size
          then n
          else normalized_loops_2 g'.learv2 p (g'.min_size / 2) (clip_mid g'.max_size n)
              (clip g'.max_size n),
    )
