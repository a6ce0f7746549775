-- ===== src/Ocf/Space.antt =====
-- overlaybd/src/overlaybd/cache/ocf_cache/ocf/src/ocf_space.c: where the cache lines for a request come
-- from, the free list and then the partitions, and how many each of them gives up.
pub mod Bounds
pub mod Shares
pub mod Tests
use cora.Base.{
  ℕ, zero, suc, ◌+◌, ◌-◌, ◌*◌, ◌/◌, ◌%◌, ◌^◌, min, List, [], ◌∷◌, Bool, true, false, not, ◌&&◌, ltb,
  leb, ◌==◌, if◌then◌else◌,
}

-- `struct ocf_user_part_config`. A priority is kept plus one, since OCF_IO_CLASS_PRIO_PINNED is -1.
pub record UserPart : Type 0 where
  pub priority : ℕ
  pub eviction : Bool
  pub min_size : ℕ
  pub max_size : ℕ

abbrev pub prio_pinned : ℕ
prio_pinned = 0

-- What the functions read of the cache: its size, its partitions, and the partitions that are valid, from
-- the lowest priority to the highest.
pub record Parts : Type 0 where
  pub cachelines : ℕ
  pub user_parts : ℕ → UserPart
  pub user_part_list : List ℕ

-- `ocf_user_part_get_min_size`
abbrev pub min_size_of : Parts → ℕ → ℕ
min_size_of c id = ((c.user_parts id).min_size * c.cachelines) % 2 ^ 64 / 100 % 2 ^ 32

-- `ocf_user_part_get_max_size`
abbrev pub max_size_of : Parts → ℕ → ℕ
max_size_of c id = ((c.user_parts id).max_size * c.cachelines + 99) % 2 ^ 64 / 100 % 2 ^ 32

-- `ocf_user_part_overflow_size`
abbrev pub overflow_size : ℕ → ℕ → ℕ
overflow_size occupancy limit = if ltb limit occupancy then occupancy - limit else 0

-- `ocf_evict_calculate`
unfoldable pub evict_calculate : ℕ → ℕ → ℕ → ℕ
evict_calculate curr_part_size min_part_size to_evict =
    if leb curr_part_size min_part_size
    then 0
    else (if ltb (curr_part_size - min_part_size) to_evict
        then curr_part_size - min_part_size
        else to_evict)

-- What the functions use of the LRU lists, whatever they are: how many lines a partition has, how many are free, and
-- `ocf_lru_req_clines`, which takes lines from a partition for the request.
pub record Lines (S : Type 0) : Type 0 where
  pub occupancy : S → ℕ → ℕ
  pub num_free : S → ℕ
  pub req_clines : S → ℕ → ℕ → ℕ × S

abbrev pub partition_freelist : ℕ
partition_freelist = 34

module _ {S : Type 0} (lru : Lines S) (c : Parts) where
  open lru use {occupancy, num_free, req_clines}

  -- `ocf_evict_part_do`
  abbrev pub evict_part_do : S → ℕ → ℕ → ℕ × S
  evict_part_do s id unmapped =
      let to_evict = evict_calculate (occupancy s id) (min_size_of c id) unmapped in
      if ltb to_evict unmapped then (0, s) else req_clines s id to_evict

  -- The loop of `ocf_evict_user_partitions`, over the partitions left.
  unfoldable pub evict_parts : ℕ → Bool → ℕ → List ℕ → S → ℕ → ℕ × S
  evict_parts evict_cline_no overflown_only max_priority [] s evicted = (evicted, s)
  evict_parts evict_cline_no overflown_only max_priority (id ∷ ids) s evicted =
      let p = c.user_parts id in
      let overflow = overflow_size (occupancy s id) (max_size_of c id) in
      let to_evict =
        evict_calculate (occupancy s id) (min_size_of c id) (evict_cline_no - evicted) in
      let taken = req_clines s id (if overflown_only then min to_evict overflow else to_evict) in
      let onward = evict_parts evict_cline_no overflown_only max_priority ids s evicted in
      let after =
        evict_parts evict_cline_no overflown_only max_priority ids taken.1 (evicted + taken.0) in
      if ltb p.priority max_priority
      then (evicted, s)
      else (if not overflown_only && not p.eviction
          then (evicted, s)
          else (if overflown_only && overflow == 0
              then onward
              else (if to_evict == 0
                  then onward
                  else (if leb evict_cline_no (evicted + taken.0)
                      then (evicted + taken.0, taken.1)
                      else after))))

  -- `ocf_evict_user_partitions`
  unfoldable pub evict_user_partitions : S → ℕ → Bool → ℕ → ℕ × S
  evict_user_partitions s evict_cline_no overflown_only max_priority =
      evict_parts evict_cline_no overflown_only max_priority c.user_part_list s 0

  -- The three sources of `ocf_remap_do`, each asked for what the ones before did not give.
  abbrev pub from_free : S → ℕ → ℕ × S
  from_free s n = if ltb 0 (num_free s) then req_clines s partition_freelist n else (0, s)

  abbrev pub then_evict : ℕ → Bool → ℕ → ℕ × S → ℕ × S
  then_evict n overflown_only max_priority (remapped, s) =
      let more = evict_user_partitions s (n - remapped) overflown_only max_priority in
      if leb n remapped then (remapped, s) else (remapped + more.0, more.1)

  -- `ocf_remap_do`
  unfoldable pub remap_do : S → ℕ → ℕ → ℕ × S
  remap_do s target n =
      then_evict n false (c.user_parts target).priority
        (then_evict n true prio_pinned (from_free s n))

  -- `ocf_space_managment_remap_do`: whether the request has been given all its lines, LOOKUP_REMAPPED, or
  -- not, LOOKUP_MISS; how many it has been given; and the lists after.
  unfoldable pub space_managment_remap_do : S → ℕ → Bool → ℕ → Bool × ℕ × S
  space_managment_remap_do s target part_evict needed =
      let r = if part_evict then evict_part_do s target needed else remap_do s target needed in
      (leb needed r.0, r.0, r.1)
