-- ===== src/Ocf/NhitHash/Counting.antt =====
-- What an insertion, a query and a reset leave of the line that they are about.
use cora.Base.{ℕ, ◌<◌, ◌≡◌, refl, ap, ◌∙◌, true, some, arith, inc_32, ne→==}
use cora.Ocf.NhitHash.{
  NhitHash, hash_function, walk, core_line_lookup, set_elem, count_found, set_found, get_rb_slot,
  commit_rb_slot, collision_remove, collision_insert_new, nhit_hash_insert, nhit_hash_query,
  nhit_hash_set_occurences,
}

-- The line stands at slot `i`, first in its bucket, and has been counted `n` times.
pub record Recorded (h : NhitHash) (core_id core_lba i n : ℕ) : Type 0 where
  pub first : h.hash_map (hash_function core_id core_lba h.hash_entries) ≡ i
  pub inside : i < h.rb_entries
  pub lba : (h.ring_buffer i).core_lba ≡ core_lba
  pub id : (h.ring_buffer i).core_id ≡ core_id
  pub counted : (h.ring_buffer i).counter ≡ n

module _ (h : NhitHash) (core_id core_lba i n : ℕ) (r : Recorded h core_id core_lba i n) where
  lookup-Recorded : core_line_lookup h core_id core_lba ≡ some i
  unfolding core_line_lookup walk
  lookup-Recorded = ground (arith, r.first, r.inside, r.lba, r.id)

  -- The state with another count for the line.
  with_count : ℕ → NhitHash
  with_count m = set_elem h i (record (h.ring_buffer i) { counter = m })

  with_count-Recorded : (m : ℕ) → Recorded (with_count m) core_id core_lba i m
  unfolding with_count
  with_count-Recorded m = record {
    first = r.first;
    inside = r.inside;
    lba = ground (arith, r.lba);
    id = ground (arith, r.id);
    counted = ground arith;
  }

  query_eq : nhit_hash_query h core_id core_lba ≡ some (some (inc_32 n), with_count (inc_32 n))
  unfolding nhit_hash_query with_count
  query_eq = ap (count_found h) lookup-Recorded ∙ found
    where
      found : count_found h (some i) ≡ some (some (inc_32 n), with_count (inc_32 n))
      found = rw (ne→== i h.rb_entries (λ e. omega (arith, e, r.inside)), r.counted) refl

  set_eq : (m : ℕ) → nhit_hash_set_occurences h core_id core_lba m ≡ some (with_count m)
  unfolding nhit_hash_set_occurences with_count
  set_eq m = ap (set_found h m) lookup-Recorded ∙ found
    where
      found : set_found h m (some i) ≡ some (with_count m)
      found = rw (ne→== i h.rb_entries (λ e. omega (arith, e, r.inside))) refl

  -- A query of a line that is first in its bucket finds it, counts it, and leaves it there.
  pub query-Recorded :
      (t : NhitHash) × (nhit_hash_query h core_id core_lba ≡ some (some (inc_32 n), t))
      × Recorded t core_id core_lba i (inc_32 n)
  query-Recorded = (with_count (inc_32 n), query_eq, with_count-Recorded (inc_32 n))

  -- The count of a line that is first in its bucket can be set.
  pub set_occurences-Recorded :
      (m : ℕ)
      → (t : NhitHash) × (nhit_hash_set_occurences h core_id core_lba m ≡ some t)
        × Recorded t core_id core_lba i m
  set_occurences-Recorded m = (with_count m, set_eq m, with_count-Recorded m)

sizes_kept :
    (h : NhitHash) (s : ℕ)
    → ((collision_remove h s).hash_entries ≡ h.hash_entries)
      × ((collision_remove h s).rb_entries ≡ h.rb_entries)
unfolding collision_remove
sizes_kept h s = ground arith

insert_new-Recorded :
    (h : NhitHash) (s core_id core_lba : ℕ)
    → s < h.rb_entries
    → Recorded (commit_rb_slot (collision_insert_new h s core_id core_lba) s) core_id core_lba s 1
unfolding collision_insert_new
insert_new-Recorded h s core_id core_lba lt = record {
  first = ground arith;
  inside = ground arith;
  lba = ground arith;
  id = ground arith;
  counted = ground arith;
}

-- A line that is inserted, where the slot at the ring pointer is not being filled, is recorded there,
-- counted once.
pub insert-Recorded :
    (h : NhitHash) (core_id core_lba : ℕ)
    → h.rb_pointer < h.rb_entries
    → (h.ring_buffer h.rb_pointer).valid ≡ true
    → Recorded (nhit_hash_insert h core_id core_lba) core_id core_lba h.rb_pointer 1
unfolding nhit_hash_insert get_rb_slot
insert-Recorded h core_id core_lba lt free = rw free (
    insert_new-Recorded (collision_remove taken h.rb_pointer) h.rb_pointer core_id core_lba
      (omega (arith, (sizes_kept taken h.rb_pointer).1)))
  where
    taken : NhitHash
    taken = (get_rb_slot h).2
