-- ===== src/Ocf/Space/Tests.antt =====
-- A cache of 100 lines with two partitions, whose lists are counts.
use cora.Base.{ℕ, ◌+◌, ◌-◌, min, [], ◌∷◌, true, false, ◌==◌, if◌then◌else◌, update}
use cora.Ocf.Space.{Parts, Lines, partition_freelist, space_managment_remap_do}
use cora.Ocf.Space.Shares.{IsShare, watched, space_managment_remap_do-IsShare}

-- The sizes of the partitions; the request's is number 9.
abbrev Sizes : Type 0
Sizes = ℕ → ℕ

abbrev moved : Sizes → ℕ → ℕ → Sizes
moved s id k = update (update s id (s id - k)) 9 (update s id (s id - k) 9 + k)

abbrev counts : Lines Sizes
counts = record {
  occupancy = λ s q. s q;
  num_free = λ s. s partition_freelist;
  req_clines = λ s id n. (min n (s id), moved s id (min n (s id)));
}

abbrev two_parts : Parts
two_parts = record {
  cachelines = 100;
  user_parts = λ i. record { priority = 256; eviction = true; min_size = 10; max_size = 50 };
  user_part_list = 1 ∷ 2 ∷ [];
}

abbrev sizes : Sizes
sizes i =
    if i == 1 then 60 else (if i == 2 then 30 else (if i == partition_freelist then 10 else 0))

space_managment_remap_do-IsShare_example :
    IsShare two_parts 25
      (space_managment_remap_do (watched counts) two_parts (sizes, []) 9 false 25)
space_managment_remap_do-IsShare_example =
    space_managment_remap_do-IsShare counts two_parts sizes 9 false 25
