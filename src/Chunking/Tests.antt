-- ===== src/Chunking/Tests.antt =====
-- The chunking functions at concrete buffers.
use cora.Base.{
  ℕ, ltb, ◌+◌, ◌%◌, ◌^◌, ◌≤◌, ◌<◌, min, ◌≡◌, refl, subst, ◌⊎◌, inl, inr, List, [], ◌∷◌, true, false,
  arith, ◌==◌, if◌then◌else◌,
}
use cora.Chunking.{
  Memory, Globals, roll, gear, scan, cdc_origin_64, rolling_data_2byes_64, normalized_chunking_64,
  normalized_chunking_2byes_64, fast_cdc_init, set_min_size,
}
use cora.Chunking.Gear.{gearv2, fing_gear_08kb_64, fing_gear_32kb_64}
use cora.Chunking.Hash.{hit}
use cora.Chunking.Resync.{cdc_origin_64-resync}
use cora.Chunking.Cut.{
  IsFirst, normalized_test, cdc_origin_64-IsFirst, normalized_chunking_64-IsFirst,
}
use cora.Chunking.Reads.{normalized_chunking_64_congr, normalized_chunking_64_overrun}
use cora.Chunking.TwoBytes.{
  fast_cdc_init-IsShifted, normalized_chunking_2byes_64-eq, rolling_data_2byes_64-eq,
}

-- A digest that depends on the message's length alone.
abbrev digest : List ℕ → List ℕ
digest xs = 1 ∷ 2 ∷ 3 ∷ 4 ∷ []

abbrev no_globals : Globals
no_globals = record {
  learv2 = [];
  global_matrix = [];
  global_matrix_left = [];
  min_size = 0;
  max_size = 0;
  min_size_divide_by_2 = 0;
  mask_15 = 0;
  mask_11 = 0;
  mask_15_64 = 0;
  mask_11_64 = 0;
  expect_cs = 0;
}

-- The globals after `fastCDC_init`: `MinSize` 2 KiB and `MaxSize` 32 KiB.
abbrev init_globals : Globals
init_globals = fast_cdc_init digest no_globals

-- Bytes that count up, and the same but for the first.
abbrev counting : Memory
counting i = i % 256

abbrev counting_but_first : Memory
counting_but_first i = if i == 0 then 77 else i % 256

-- Three bytes on which the strict mask passes at the third.
abbrev late_cut : Memory
late_cut i = if i == 6145 then 66 else (if i == 6146 then 185 else 0)

roll_test : roll (2 ^ 63) 0 ≡ gear 0
unfolding roll gear gearv2
roll_test = refl

normalized_chunking_64-IsFirst_example :
    ((normalized_chunking_64 init_globals counting 10000).0 ≡ set_min_size init_globals)
    × IsFirst
        (normalized_test counting 6144 (min 8192 10000))
        (min 10000 6144)
        (min 10000 init_globals.max_size)
        (normalized_chunking_64 init_globals counting 10000).1
unfolding fast_cdc_init
normalized_chunking_64-IsFirst_example =
    normalized_chunking_64-IsFirst init_globals counting 10000 (omega arith)

cdc_origin_64-IsFirst_example :
    IsFirst
      (hit fing_gear_08kb_64 counting init_globals.min_size)
      (min 3000 init_globals.min_size)
      (min 3000 init_globals.max_size)
      (cdc_origin_64 init_globals counting 3000)
unfolding fast_cdc_init
cdc_origin_64-IsFirst_example = cdc_origin_64-IsFirst init_globals counting 3000 (omega arith)

normalized_chunking_2byes_64-eq_example :
    normalized_chunking_2byes_64 init_globals counting 10000
    ≡ normalized_chunking_64 init_globals counting 10000
unfolding fast_cdc_init
normalized_chunking_2byes_64-eq_example =
    normalized_chunking_2byes_64-eq init_globals counting 10000
      (fast_cdc_init-IsShifted digest no_globals) (omega arith) (omega arith)

rolling_data_2byes_64-eq_example :
    rolling_data_2byes_64 init_globals counting 3000 ≡ cdc_origin_64 init_globals counting 3000
unfolding fast_cdc_init
rolling_data_2byes_64-eq_example =
    rolling_data_2byes_64-eq init_globals counting 3000 (fast_cdc_init-IsShifted digest no_globals)
      (omega arith) (omega arith)

-- A small chunker, null bytes, and the same with three other bytes in front.
abbrev small : Globals
small = record init_globals { min_size = 10; max_size = 120 }

abbrev nulls : Memory
nulls i = 0

abbrev three_more : Memory
three_more i = if ltb i 3 then i + 7 else 0

nulls_test : cdc_origin_64 small nulls 90 ≡ 90
unfolding cdc_origin_64 scan roll gear gearv2
nulls_test = refl

three_more_test : cdc_origin_64 small three_more 93 ≡ 93
unfolding cdc_origin_64 scan roll gear gearv2
three_more_test = refl

cdc_origin_64-resync_example :
    cdc_origin_64 small nulls 90 + 79 ≡ cdc_origin_64 small three_more 93 + 76
cdc_origin_64-resync_example =
    cdc_origin_64-resync small nulls three_more 90 93 76 79 (omega arith) (omega arith)
      (omega arith) refl (λ k lt. ground arith) (omega (arith, nulls_test))
      (omega (arith, three_more_test))

normalized_chunking_64_congr_example :
    normalized_chunking_64 init_globals counting 10000
    ≡ normalized_chunking_64 init_globals counting_but_first 10000
unfolding fast_cdc_init
normalized_chunking_64_congr_example =
    normalized_chunking_64_congr init_globals counting counting_but_first 10000 (omega arith)
      (λ j le lt. ground arith)

late_cut-first : hit fing_gear_32kb_64 late_cut 6144 6144 ≡ false
unfolding hit gear gearv2
late_cut-first = refl

late_cut-second : hit fing_gear_32kb_64 late_cut 6144 6145 ≡ false
unfolding hit gear gearv2
late_cut-second = refl

late_cut-third : hit fing_gear_32kb_64 late_cut 6144 6146 ≡ true
unfolding hit gear gearv2
late_cut-third = refl

one_of_two : (j : ℕ) → 6144 ≤ j → j < 6146 → (6144 ≡ j) ⊎ (6145 ≡ j)
one_of_two j le lt = ground arith

late_cut-IsFirst : IsFirst (hit fing_gear_32kb_64 late_cut 6144) 6144 8192 6146
late_cut-IsFirst = record {
  from = omega arith;
  upto = omega arith;
  earlier = λ j le lt. elim (one_of_two j le lt) [
    | inl e ↦ subst (λ i. hit fing_gear_32kb_64 late_cut 6144 i ≡ false) e late_cut-first
    | inr e ↦ subst (λ i. hit fing_gear_32kb_64 late_cut 6144 i ≡ false) e late_cut-second
  ];
  here = inr late_cut-third;
}

-- A buffer of 6145 bytes in a memory that goes on, with `MaxSize` at 6144: the cut is at 6146.
abbrev narrowest : Globals
narrowest = record init_globals { max_size = 6144 }

normalized_chunking_64_overrun_example :
    ((normalized_chunking_64 narrowest late_cut 6145).1 ≡ 6146)
    × (6145 < (normalized_chunking_64 narrowest late_cut 6145).1)
normalized_chunking_64_overrun_example =
    normalized_chunking_64_overrun narrowest late_cut 6145 6146 (omega arith) (omega arith)
      (omega arith) (omega arith) late_cut-IsFirst
