-- ===== src/Ocf/NhitHash.antt =====
-- overlaybd/src/overlaybd/cache/ocf_cache/ocf/src/promotion/nhit/nhit_hash.c: how often a core line has
-- been asked for. A ring buffer of counted lines, and a hash map of collision lists through it.
-- Calls run one at a time; the locks of the buckets are modelled as the order they are taken in. Slots
-- and buckets are 32-bit words: `hash_size`, the caller's 32-bit product, is one too.
pub mod Counting
pub mod LockOrder
pub mod Ring
pub mod Tests
use cora.Base.{
  ℕ, zero, suc, ◌+◌, ◌-◌, ◌*◌, ◌/◌, ◌%◌, ◌^◌, min, max, List, [], ◌∷◌, ◌++◌, Bool, true, false, not,
  ◌&&◌, Option, none, some, ltb, ◌==◌, if◌then◌else◌, update, inc_32,
}
use cora.Ocf.Err.{Status, ok, fail, no_mem, unknown}

abbrev pub hash_prime : ℕ
hash_prime = 4099

-- `OCF_CORE_ID_INVALID`, with the 4096 cores of the configuration.
abbrev pub core_id_invalid : ℕ
core_id_invalid = 4096

-- `struct nhit_list_elem`
pub record Elem : Type 0 where
  pub core_lba : ℕ  -- uint64_t
  pub counter : ℕ  -- 32 bits
  pub coll_prev : ℕ
  pub coll_next : ℕ
  pub core_id : ℕ
  pub valid : Bool

-- `struct nhit_hash`
pub record NhitHash : Type 0 where
  pub hash_entries : ℕ
  pub rb_entries : ℕ
  pub hash_map : ℕ → ℕ
  pub ring_buffer : ℕ → Elem
  pub rb_pointer : ℕ

-- `OCF_DIV_ROUND_UP`
abbrev pub div_round_up : ℕ → ℕ → ℕ
div_round_up x y = (x + y - 1) / y

-- `calculate_hash_buckets`, in 64 bits.
abbrev pub calculate_hash_buckets : ℕ → ℕ
calculate_hash_buckets hash_size =
    (div_round_up (hash_size / 4) hash_prime * hash_prime + (2 ^ 64 - 1)) % 2 ^ 64

-- What the allocator and the lock initialisers of the environment answer, in the order they are asked.
pub record Env : Type 0 where
  pub has_ctx : Bool
  pub has_map : Bool
  pub has_locks : Bool
  pub has_ring : Bool
  pub rwsems_ok : Bool
  pub spinlock : Status

-- `nhit_hash_init`. `none` for the context where it is not stored.
unfoldable pub nhit_hash_init : Env → ℕ → Status × Option NhitHash
nhit_hash_init e hash_size =
    let built : NhitHash = record {
      hash_entries = calculate_hash_buckets hash_size % 2 ^ 32;
      rb_entries = hash_size;
      hash_map = λ _. hash_size;
      ring_buffer = λ _. record {
        core_lba = 0;
        counter = 0;
        coll_prev = 0;
        coll_next = 0;
        core_id = core_id_invalid;
        valid = true;
      };
      rb_pointer = 0;
    } in
    if not e.has_ctx
    then (fail no_mem, none)
    else (if not e.has_map
        then (fail no_mem, none)
        else (if not e.has_locks
            then (fail no_mem, none)
            else (if not e.rwsems_ok
                then (fail unknown, none)
                else (if not e.has_ring
                    then (fail no_mem, none)
                    else elim e.spinlock [ ok ↦ (ok, some built) | fail x ↦ (fail x, none) ]))))

-- `hash_function`, with the cast to 32 bits.
unfoldable pub hash_function : ℕ → ℕ → ℕ → ℕ
hash_function core_id core_lba limit =
    if core_id == core_id_invalid
    then limit % 2 ^ 32
    else (core_lba * hash_prime + core_id) % 2 ^ 64 % limit % 2 ^ 32

-- The loop of `core_line_lookup` from `cur` on. `none`: out of fuel.
unfoldable pub walk : NhitHash → ℕ → ℕ → ℕ → ℕ → Option ℕ
walk h core_id core_lba zero cur = none
walk h core_id core_lba (suc fuel) cur =
    let e = h.ring_buffer cur in
    let onward = walk h core_id core_lba fuel e.coll_next in
    if cur == h.rb_entries
    then some h.rb_entries
    else (if (e.core_lba == core_lba) && (e.core_id == core_id) then some cur else onward)

-- `core_line_lookup`. A list of distinct slots has at most `rb_entries` rounds, and one that ends it.
unfoldable pub core_line_lookup : NhitHash → ℕ → ℕ → Option ℕ
core_line_lookup h core_id core_lba =
    walk h core_id core_lba (suc h.rb_entries)
      (h.hash_map (hash_function core_id core_lba h.hash_entries))

abbrev pub set_elem : NhitHash → ℕ → Elem → NhitHash
set_elem h i e = record h { ring_buffer = update h.ring_buffer i e }

-- `get_rb_slot`: whether the slot was free to take, the slot, and the state after.
unfoldable pub get_rb_slot : NhitHash → Bool × ℕ × NhitHash
get_rb_slot h =
    let slot = h.rb_pointer in
    (
      (h.ring_buffer slot).valid,
      slot,
      record (set_elem h slot (record (h.ring_buffer slot) { valid = false })) {
        rb_pointer = (slot + 1) % h.rb_entries;
      },
    )

-- `commit_rb_slot`
abbrev pub commit_rb_slot : NhitHash → ℕ → NhitHash
commit_rb_slot h slot = set_elem h slot (record (h.ring_buffer slot) { valid = true })

-- The writes of `collision_remove` behind the slot's `core_id`, each through the pointers that the ring
-- holds by then.
abbrev pub link_prev : NhitHash → ℕ → NhitHash
link_prev h s =
    let prev = (h.ring_buffer s).coll_prev in
    if not (prev == h.rb_entries)
    then set_elem h prev (record (h.ring_buffer prev) { coll_next = (h.ring_buffer s).coll_next })
    else h

abbrev pub link_next : NhitHash → ℕ → NhitHash
link_next h s =
    let next = (h.ring_buffer s).coll_next in
    if not (next == h.rb_entries)
    then set_elem h next (record (h.ring_buffer next) { coll_prev = (h.ring_buffer s).coll_prev })
    else h

abbrev pub link_head : NhitHash → ℕ → ℕ → NhitHash
link_head h s hash =
    if h.hash_map hash == s
    then record h { hash_map = update h.hash_map hash (h.ring_buffer s).coll_next }
    else h

abbrev pub forget_core : NhitHash → ℕ → NhitHash
forget_core h s = set_elem h s (record (h.ring_buffer s) { core_id = core_id_invalid })

-- `collision_remove`
unfoldable pub collision_remove : NhitHash → ℕ → NhitHash
collision_remove h s =
    let slot = h.ring_buffer s in
    let hash = hash_function slot.core_id slot.core_lba h.hash_entries in
    if slot.core_id == core_id_invalid
    then h
    else link_head (link_next (link_prev (forget_core h s) s) s) s hash

-- `collision_insert_new`
unfoldable pub collision_insert_new : NhitHash → ℕ → ℕ → ℕ → NhitHash
collision_insert_new h s core_id core_lba =
    let hash = hash_function core_id core_lba h.hash_entries in
    let first = h.hash_map hash in
    let a = set_elem h s (record (h.ring_buffer s) {
      core_id = core_id;
      core_lba = core_lba;
      coll_next = first;
      coll_prev = h.rb_entries;
      counter = 1;
    }) in
    let b =
      if not (first == h.rb_entries)
      then set_elem a first (record (a.ring_buffer first) { coll_prev = s })
      else a in
    record b { hash_map = update b.hash_map hash s }

-- `write_lock_hashes`: the buckets locked for writing, in order.
unfoldable pub write_lock_hashes : ℕ → ℕ → ℕ → ℕ → ℕ → List ℕ
write_lock_hashes entries core_id1 core_lba1 core_id2 core_lba2 =
    let hash1 = hash_function core_id1 core_lba1 entries in
    let hash2 = hash_function core_id2 core_lba2 entries in
    let first = min hash1 hash2 in
    let second = max hash1 hash2 in
    (if not (first == entries) then first ∷ [] else [])
    ++ (if not (second == entries) && not (first == second) then second ∷ [] else [])

-- `write_unlock_hashes`: the buckets unlocked, in order.
unfoldable pub write_unlock_hashes : ℕ → ℕ → ℕ → ℕ → ℕ → List ℕ
write_unlock_hashes entries core_id1 core_lba1 core_id2 core_lba2 =
    let hash1 = hash_function core_id1 core_lba1 entries in
    let hash2 = hash_function core_id2 core_lba2 entries in
    (if not (hash1 == entries) then hash1 ∷ [] else [])
    ++ (if not (hash2 == entries) && not (hash1 == hash2) then hash2 ∷ [] else [])

-- `nhit_hash_insert`
unfoldable pub nhit_hash_insert : NhitHash → ℕ → ℕ → NhitHash
nhit_hash_insert h core_id core_lba =
    let (free, slot, taken) = get_rb_slot h in
    if not free
    then taken
    else commit_rb_slot (collision_insert_new (collision_remove taken slot) slot core_id core_lba)
        slot

-- `nhit_hash_query` after the lookup: the counter where the line is found. The outer `none`: out of fuel.
abbrev pub count_found : NhitHash → Option ℕ → Option (Option ℕ × NhitHash)
count_found h none = none
count_found h (some i) =
    let e = h.ring_buffer i in
    if i == h.rb_entries
    then some (none, h)
    else some (some (inc_32 e.counter), set_elem h i (record e { counter = inc_32 e.counter }))

-- `nhit_hash_query`
unfoldable pub nhit_hash_query : NhitHash → ℕ → ℕ → Option (Option ℕ × NhitHash)
nhit_hash_query h core_id core_lba = count_found h (core_line_lookup h core_id core_lba)

-- `nhit_hash_set_occurences` after the lookup.
abbrev pub set_found : NhitHash → ℕ → Option ℕ → Option NhitHash
set_found h n none = none
set_found h n (some i) =
    if i == h.rb_entries
    then some h
    else some (set_elem h i (record (h.ring_buffer i) { counter = n }))

-- `nhit_hash_set_occurences`
unfoldable pub nhit_hash_set_occurences : NhitHash → ℕ → ℕ → ℕ → Option NhitHash
nhit_hash_set_occurences h core_id core_lba n = set_found h n (core_line_lookup h core_id core_lba)
