-- ===== src/Ocf/NhitHash/Tests.antt =====
-- A hash of eight slots, before and after insertions.
use cora.Base.{◌≡◌, refl, true, some, arith}
use cora.Ocf.NhitHash.{
  NhitHash, core_id_invalid, hash_function, walk, core_line_lookup, nhit_hash_insert,
  write_lock_hashes, write_unlock_hashes, calculate_hash_buckets,
}
use cora.Ocf.NhitHash.LockOrder.{bucket, IsSafeOrder, write_lock_hashes-IsSafeOrder}
use cora.Ocf.NhitHash.Ring.{IsRing, IsAdvance, insert-IsAdvance}

abbrev eight_slots : NhitHash
eight_slots = record {
  hash_entries = calculate_hash_buckets 8;
  rb_entries = 8;
  hash_map = λ _. 8;
  ring_buffer = λ _. record {
    core_lba = 0;
    counter = 0;
    coll_prev = 0;
    coll_next = 0;
    core_id = core_id_invalid;
    valid = true;
  };
  rb_pointer = 7;
}

buckets_test : eight_slots.hash_entries ≡ 4098
buckets_test = refl

lookup_test : core_line_lookup eight_slots 1 10 ≡ some 8
unfolding core_line_lookup walk hash_function
lookup_test = refl

eight_slots-IsRing : IsRing eight_slots
eight_slots-IsRing = record { inside = omega arith; free = λ j. refl }

insert-IsAdvance_example : IsAdvance eight_slots (nhit_hash_insert eight_slots 1 10)
insert-IsAdvance_example = insert-IsAdvance eight_slots 1 10 eight_slots-IsRing

write_lock_hashes-IsSafeOrder_example :
    IsSafeOrder 4098 3
      (bucket 4098 3 20)
      1
      (bucket 4098 1 10)
      (write_lock_hashes 4098 3 20 1 10)
      (write_unlock_hashes 4098 3 20 1 10)
write_lock_hashes-IsSafeOrder_example =
    write_lock_hashes-IsSafeOrder 4098 3 20 1 10 (omega arith) (omega arith)
