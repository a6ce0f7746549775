-- ===== src/Ocf/Promotion/Tests.antt =====
-- The N-hit policy on a full cache of 1000 lines, and a switch to it.
use cora.Base.{◌+◌, ◌≡◌, refl, true, false, some, none, arith, leb}
use cora.Ocf.Err.{ok}
use cora.Ocf.NhitHash.{
  NhitHash, core_id_invalid, hash_function, walk, core_line_lookup, calculate_hash_buckets,
}
use cora.Ocf.NhitHash.Ring.{IsRing}
use cora.Ocf.Promotion.{
  Occupancy, Policy, always, InitEnv, nhit_setup, nhit_set_param, ocf_promotion_set_policy,
}
use cora.Ocf.Promotion.Threshold.{ask, ask-threshold, IsValid, IsStored, nhit_set_param-IsStored}
use cora.Ocf.Promotion.Switching.{IsReady, IsSwitched, ocf_promotion_set_policy-IsSwitched}

abbrev fresh_hash : NhitHash
fresh_hash = record {
  hash_entries = calculate_hash_buckets 2000;
  rb_entries = 2000;
  hash_map = λ _. 2000;
  ring_buffer = λ _. record {
    core_lba = 0;
    counter = 0;
    coll_prev = 0;
    coll_next = 0;
    core_id = core_id_invalid;
    valid = true;
  };
  rb_pointer = 0;
}

abbrev full : Occupancy
full = record { cachelines = 1000; table_entries = 1000; num_free = 0 }

fresh_hash-IsRing : IsRing fresh_hash
fresh_hash-IsRing = record { inside = omega arith; free = λ j. refl }

fresh_hash-lookup : core_line_lookup fresh_hash 1 10 ≡ some 2000
unfolding core_line_lookup walk hash_function
fresh_hash-lookup = refl

ask-threshold_example :
    (t : NhitHash) × (ask nhit_setup full 1 10 4 fresh_hash
      ≡ some (leb nhit_setup.insertion_threshold (4 + 1), t))
ask-threshold_example =
    ask-threshold nhit_setup full fresh_hash 1 10 4 refl (omega arith) fresh_hash-IsRing
      fresh_hash-lookup (omega arith)

nhit_setup-IsValid : IsValid nhit_setup
nhit_setup-IsValid = record {
  insertion_least = omega arith;
  insertion_most = omega arith;
  trigger_most = omega arith;
}

nhit_set_param-IsStored_example : IsStored nhit_setup 1 50 (nhit_set_param nhit_setup 1 50)
nhit_set_param-IsStored_example = nhit_set_param-IsStored nhit_setup 1 50 nhit_setup-IsValid

abbrev admitting : Policy
admitting = record { kind = always; conf_kind = always; ctx = none }

-- Memory is short for the context.
abbrev short_of_memory : InitEnv
short_of_memory = record {
  size = 100;
  available = 1000;
  has_ctx = true;
  hash = record {
    has_ctx = true;
    has_map = true;
    has_locks = false;
    has_ring = true;
    rwsems_ok = true;
    spinlock = ok;
  };
}

admitting-IsReady : IsReady admitting
admitting-IsReady = record { agrees = refl; context = tt }

ocf_promotion_set_policy-IsSwitched_example :
    IsSwitched admitting 1 (ocf_promotion_set_policy short_of_memory 1000 admitting 1)
ocf_promotion_set_policy-IsSwitched_example =
    ocf_promotion_set_policy-IsSwitched short_of_memory 1000 admitting 1 admitting-IsReady
