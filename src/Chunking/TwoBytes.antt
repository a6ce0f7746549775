-- ===== src/Chunking/TwoBytes.antt =====
-- The functions that take two bytes a round against those that take one.
use cora.Base.{
  ℕ, zero, suc, ◌+◌, ◌-◌, ◌*◌, ◌/◌, ◌%◌, ◌^◌, ◌≤◌, ◌<◌, min, bit_and, ◌≡◌, refl, ap, ◌∙◌, List, [],
  ◌∷◌, map, arith, ◌==◌, get_or,
}
use cora.Base.Bits.{bit_and_double}
use cora.Chunking.{
  Memory, Globals, Scan, cut, rest, roll, gear, scan, scan_2, after_loop, clip, cdc_origin_64,
  rolling_data_2byes_64, normalized_loops, normalized_loops_2, normalized_chunking_64,
  normalized_chunking_2byes_64, fast_cdc_init,
}
use cora.Chunking.Gear.{
  gearv2, fing_gear_08kb_64, fing_gear_02kb_64, fing_gear_32kb_64, fing_gear_08kb_ls_64,
}
use cora.Chunking.Cut.{clip-min, clip_mid-min}

-- What `fastCDC_init` puts in `LEARv2`: each gear word shifted left by one.
abbrev pub IsShifted : List ℕ → Type 0
IsShifted lear = (b : ℕ) → get_or lear b 0 ≡ (gear b * 2) % 2 ^ 64

get_or-shift :
    (xs : List ℕ) (b : ℕ)
    → get_or (map (λ x. (x * 2) % 2 ^ 64) xs) b 0 ≡ (get_or xs b 0 * 2) % 2 ^ 64
get_or-shift [] b = refl
get_or-shift (x ∷ xs) zero = refl
get_or-shift (x ∷ xs) (suc b) = get_or-shift xs b

-- After `fastCDC_init`, whatever the digest function, each entry of `LEARv2` is the gear word shifted
-- left by one, modulo 2 ^ 64.
pub fast_cdc_init-IsShifted :
    (md5 : List ℕ → List ℕ) (g : Globals) → IsShifted (fast_cdc_init md5 g).learv2
unfolding fast_cdc_init gear
fast_cdc_init-IsShifted md5 g b = get_or-shift gearv2 b

abbrev twice : ℕ → ℕ
twice zero = zero
twice (suc k) = suc (suc (twice k))

twice_lem : (k : ℕ) → twice k ≡ k * 2
twice_lem zero = refl
twice_lem (suc k) = omega (arith, twice_lem k)

-- A pair index back to a byte index.
abbrev double : Scan → Scan
double (cut a) = cut a
double (rest j fp) = rest (j * 2) fp

module _ (lear : List ℕ) (shifted : IsShifted lear) (mask : ℕ) (fits : mask < 2 ^ 63)
    (p : Memory) where
  first_test :
      (fp a : ℕ)
      → (bit_and ((fp * 4 + get_or lear (p a) 0) % 2 ^ 64) (mask * 2) == 0)
        ≡ (bit_and (roll fp (p a)) mask == 0)
  unfolding roll
  first_test fp a = ground (arith, word, bit_and_double (roll fp (p a)) mask fits)
    where
      word :
          bit_and ((fp * 4 + get_or lear (p a) 0) % 2 ^ 64) (mask * 2)
          ≡ bit_and ((roll fp (p a) * 2) % 2 ^ 64) (mask * 2)
      word = ap (λ x. bit_and x (mask * 2)) (omega (arith, shifted (p a)))

  second_word :
      (fp a : ℕ)
      → ((fp * 4 + get_or lear (p a) 0) % 2 ^ 64 + gear (p (a + 1))) % 2 ^ 64
        ≡ roll (roll fp (p a)) (p (suc a))
  unfolding roll
  second_word fp a =
      omega (arith, shifted (p a), ap (λ x. gear (p x)) {x = a + 1} {y = suc a} (omega arith))

  scan-scan_2 :
      (k i fp : ℕ)
      → scan mask p (twice k) (i * 2) fp ≡ double (scan_2 lear (mask * 2) mask p k i fp)
  unfolding scan scan_2
  scan-scan_2 zero i fp = refl
  scan-scan_2 (suc k) i fp =
      rw (first_test fp (i * 2), second_word fp (i * 2))
        (ground
          (arith, scan-scan_2 k (suc i) (roll (roll fp (p (i * 2))) (p (suc (i * 2)))), same, here))
    where
      same :
          scan mask p (twice k) (suc (suc (i * 2))) (roll (roll fp (p (i * 2))) (p (suc (i * 2))))
          ≡ scan mask p (twice k) (suc i * 2) (roll (roll fp (p (i * 2))) (p (suc (i * 2))))
      same =
          ap (λ x. scan mask p (twice k) x (roll (roll fp (p (i * 2))) (p (suc (i * 2)))))
            {x = suc (suc (i * 2))} {y = suc i * 2} (omega arith)

      here : suc (i * 2) ≡ i * 2 + 1
      here = omega arith

after_loop-double :
    (s : Scan) (f g : ℕ → ℕ → ℕ)
    → ((j fp : ℕ) → f (j * 2) fp ≡ g j fp)
    → after_loop (double s) f ≡ after_loop s g
after_loop-double (cut a) f g h = refl
after_loop-double (rest j fp) f g h = h j fp

module _ (lear : List ℕ) (shifted : IsShifted lear) (p : Memory) where
  -- A loop up to an even bound, with what follows it.
  loop_pairs :
      (mask e i fp : ℕ) (f g : ℕ → ℕ → ℕ)
      → mask < 2 ^ 63
      → e % 2 ≡ 0
      → ((j fp : ℕ) → f (j * 2) fp ≡ g j fp)
      → after_loop (scan mask p (e - i * 2) (i * 2) fp) f
        ≡ after_loop (scan_2 lear (mask * 2) mask p (e / 2 - i) i fp) g
  loop_pairs mask e i fp f g fits even h =
      ap (λ k. after_loop (scan mask p k (i * 2) fp) f) rounds
      ∙ ap (λ s. after_loop s f) (scan-scan_2 lear shifted mask fits p (e / 2 - i) i fp)
      ∙ after_loop-double (scan_2 lear (mask * 2) mask p (e / 2 - i) i fp) f g h
    where
      rounds : e - i * 2 ≡ twice (e / 2 - i)
      rounds = omega (arith, twice_lem (e / 2 - i))

  normalized_loops-pairs :
      (mid e : ℕ)
      → mid % 2 ≡ 0
      → e % 2 ≡ 0
      → normalized_loops p 6144 mid e ≡ normalized_loops_2 lear p 3072 mid e
  unfolding normalized_loops normalized_loops_2
  normalized_loops-pairs mid e a b =
      loop_pairs fing_gear_32kb_64 mid 3072 0 _ _ (omega arith) a (λ j fp.
        loop_pairs fing_gear_02kb_64 e j fp (λ _ _. e) (λ _ _. e) (omega arith) b (λ _ _. refl))

-- On the shifted table, with `MaxSize` at 8 KiB or more, and where the clipped length is even, the
-- normalized function that rolls two bytes a round cuts where the one-byte function does, and leaves
-- the same globals.
pub normalized_chunking_2byes_64-eq :
    (g : Globals) (p : Memory) (n : ℕ)
    → IsShifted g.learv2
    → 8192 ≤ g.max_size
    → min n g.max_size % 2 ≡ 0
    → normalized_chunking_2byes_64 g p n ≡ normalized_chunking_64 g p n
unfolding normalized_chunking_64 normalized_chunking_2byes_64
normalized_chunking_2byes_64-eq g p n shifted big even = ground (
  arith,
  clip-min g.max_size n,
  clip_mid-min g.max_size n big,
  normalized_loops-pairs g.learv2 shifted p (min 8192 n) (min n g.max_size),
)

-- On the shifted table, where `MinSize` is twice its half and the clipped length is even, the two-byte
-- form of the origin function cuts where the one-byte form does.
pub rolling_data_2byes_64-eq :
    (g : Globals) (p : Memory) (n : ℕ)
    → IsShifted g.learv2
    → g.min_size ≡ g.min_size_divide_by_2 * 2
    → min n g.max_size % 2 ≡ 0
    → rolling_data_2byes_64 g p n ≡ cdc_origin_64 g p n
unfolding rolling_data_2byes_64 cdc_origin_64
rolling_data_2byes_64-eq g p n shifted half even = ground (arith, pairs, start)
  where
    e : ℕ
    e = clip g.max_size n

    even_e : e % 2 ≡ 0
    even_e = ground (arith, clip-min g.max_size n)

    pairs :
        after_loop
          (scan fing_gear_08kb_64 p (e - g.min_size_divide_by_2 * 2) (g.min_size_divide_by_2 * 2) 0)
          (λ _ _. e)
        ≡ after_loop
            (scan_2 g.learv2 fing_gear_08kb_ls_64 fing_gear_08kb_64 p
              (e / 2 - g.min_size_divide_by_2)
              g.min_size_divide_by_2
              0)
            (λ _ _. e)
    pairs =
        loop_pairs g.learv2 shifted p fing_gear_08kb_64 e g.min_size_divide_by_2 0 (λ _ _. e)
          (λ _ _. e) (omega arith) even_e (λ _ _. refl)

    start :
        after_loop (scan fing_gear_08kb_64 p (e - g.min_size) g.min_size 0) (λ _ _. e)
        ≡ after_loop
            (scan fing_gear_08kb_64 p
              (e - g.min_size_divide_by_2 * 2)
              (g.min_size_divide_by_2 * 2)
              0)
            (λ _ _. e)
    start = ap (λ i. after_loop (scan fing_gear_08kb_64 p (e - i) i 0) (λ _ _. e)) half
