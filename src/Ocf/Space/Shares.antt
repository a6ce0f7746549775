-- ===== src/Ocf/Space/Shares.antt =====
-- What the functions of ocf_space.c ask of the LRU lists for a request, whatever the lists answer.
use cora.Base.{
  ℕ, ◌+◌, ◌-◌, ◌≤◌, ◌≡◌, refl, ap, ◌⊎◌, inl, inr, List, [], ◌∷◌, Bool, true, false, not, ◌&&◌,
  arith, ltb, leb, ◌==◌, Bool-cases,
}
use cora.Ocf.Space.{
  Parts, Lines, prio_pinned, min_size_of, max_size_of, overflow_size, evict_calculate,
  partition_freelist, evict_part_do, evict_parts, evict_user_partitions, from_free, then_evict,
  remap_do, space_managment_remap_do,
}
use cora.Ocf.Space.Bounds.{calculate-bound, floor_of, choose, asked, asked-bound}

-- A call of `ocf_lru_req_clines`: the partition with its size at that time, how many lines it was asked for, and
-- how many it gave.
pub record Take : Type 0 where
  pub source : ℕ
  pub size : ℕ
  pub wanted : ℕ
  pub gave : ℕ

-- The lists with a record of the calls, the latest first.
abbrev pub watched : {S : Type 0} → Lines S → Lines (S × List Take)
watched lru = record {
  occupancy = λ s q. lru.occupancy s.0 q;
  num_free = λ s. lru.num_free s.0;
  req_clines = λ s id n.
      let r = lru.req_clines s.0 id n in
      (
        r.0,
        (r.1, record { source = id; size = lru.occupancy s.0 id; wanted = n; gave = r.0 } ∷ s.1),
      );
}

abbrev pub given : List Take → ℕ
given [] = 0
given (t ∷ ts) = t.gave + given ts

-- Each call asks for no more than the request then lacks, and a partition other than the free list for no more
-- than stands above its minimum.
abbrev pub AreFair : Parts → ℕ → List Take → Type 0
AreFair c needed [] = Unit {0}
AreFair c needed (t ∷ ts) =
    (t.wanted + given ts ≤ needed)
    × ((t.source ≡ partition_freelist)
        ⊎ (t.wanted ≡ 0)
        ⊎ (t.wanted + min_size_of c t.source ≤ t.size))
    × AreFair c needed ts

above :
    (c : Parts) (b : Bool) (id n occ : ℕ)
    → (n ≡ 0) ⊎ (n + floor_of c b id ≤ occ)
    → (n ≡ 0) ⊎ (n + min_size_of c id ≤ occ)
above c true id n occ h = ground (arith, h)
above c false id n occ h = h

module _ {S : Type 0} (lru : Lines S) (c : Parts) (needed : ℕ) where
  -- The calls so far gave `base` lines and `k` more.
  abbrev Fits : ℕ → ℕ → S × List Take → Type 0
  Fits base k s = (given s.1 ≡ base + k) × AreFair c needed s.1

  evict_parts-Fits :
      (base n : ℕ) (b : Bool) (prio : ℕ) (ids : List ℕ) (s : S × List Take) (evicted : ℕ)
      → base + n ≤ needed
      → evicted ≤ n
      → Fits base evicted s
      → Fits base
          (evict_parts (watched lru) c n b prio ids s evicted).0
          (evict_parts (watched lru) c n b prio ids s evicted).1
  unfolding evict_parts
  evict_parts-Fits base n b prio [] s evicted room le f = f
  evict_parts-Fits base n b prio (id ∷ ids) s evicted room le f =
      choose (λ r. Fits base r.0 r.1) (ltb (c.user_parts id).priority prio)
        (not b && not (c.user_parts id).eviction) (b && over == 0) (whole == 0)
        (leb n (evicted + taken.0)) (evicted, s)
        (evict_parts (watched lru) c n b prio ids s evicted) (evicted + taken.0, taken.1)
        (evict_parts (watched lru) c n b prio ids taken.1 (evicted + taken.0)) f
        (evict_parts-Fits base n b prio ids s evicted room le f) kept
        (λ e.
          evict_parts-Fits base n b prio ids taken.1 (evicted + taken.0) room (ground (arith, e))
            kept)
    where
      occ : ℕ
      occ = lru.occupancy s.0 id

      over : ℕ
      over = overflow_size occ (max_size_of c id)

      whole : ℕ
      whole = evict_calculate occ (min_size_of c id) (n - evicted)

      amount : ℕ
      amount = asked b occ (min_size_of c id) (max_size_of c id) (n - evicted)

      bound : (amount ≤ n - evicted) × ((amount ≡ 0) ⊎ (amount + floor_of c b id ≤ occ))
      bound = asked-bound b occ (min_size_of c id) (max_size_of c id) (n - evicted)

      taken : ℕ × (S × List Take)
      taken = (watched lru).req_clines s id amount

      kept : Fits base (evicted + taken.0) taken.1
      kept = (
        omega (arith, f.0),
        (omega (arith, bound.0, f.0), inr (above c b id amount occ bound.1), f.1),
      )

  then_evict-Fits :
      (b : Bool) (prio : ℕ) (r : ℕ × (S × List Take))
      → Fits 0 r.0 r.1
      → Fits 0
          (then_evict (watched lru) c needed b prio r).0
          (then_evict (watched lru) c needed b prio r).1
  unfolding evict_user_partitions
  then_evict-Fits b prio r f = elim (Bool-cases (leb needed r.0)) [
    | inl e ↦ rw e f
    | inr e ↦
        let more =
          evict_parts-Fits r.0 (needed - r.0) b prio c.user_part_list r.1 0 (ground (arith, e))
            (omega arith) (omega (arith, f.0), f.1) in
        rw e (omega (arith, more.0), more.1)
  ]

  from_free-Fits :
      (s : S)
      → Fits 0
          (from_free (watched lru) c (s, []) needed).0
          (from_free (watched lru) c (s, []) needed).1
  from_free-Fits s = elim (Bool-cases (ltb 0 (lru.num_free s))) [
    | inl e ↦ rw e (omega arith, (omega arith, inl refl, tt))
    | inr e ↦ rw e (refl, tt)
  ]

  remap_do-Fits :
      (s : S) (target : ℕ)
      → Fits 0
          (remap_do (watched lru) c (s, []) target needed).0
          (remap_do (watched lru) c (s, []) target needed).1
  unfolding remap_do
  remap_do-Fits s target =
      then_evict-Fits false (c.user_parts target).priority _
        (then_evict-Fits true prio_pinned _ (from_free-Fits s))

  evict_part_do-Fits :
      (s : S) (id : ℕ)
      → Fits 0
          (evict_part_do (watched lru) c (s, []) id needed).0
          (evict_part_do (watched lru) c (s, []) id needed).1
  evict_part_do-Fits s id =
      let occ = lru.occupancy s id in
      let bound = calculate-bound occ (min_size_of c id) needed in
      elim (Bool-cases (ltb (evict_calculate occ (min_size_of c id) needed) needed)) [
        | inl e ↦ rw e (refl, tt)
        | inr e ↦ rw e (omega arith, (omega (arith, bound.0), inr bound.1, tt))
      ]

-- What finding space owes, by its calls: they are fair, the request is given what they gave, and the answer is
-- whether that is enough.
pub record IsShare {S : Type 0} (c : Parts) (needed : ℕ) (r : Bool × ℕ × (S × List Take))
    : Type 0 where
  pub fair : AreFair c needed r.2.1
  pub count : r.1 ≡ given r.2.1
  pub answer : r.0 ≡ leb needed (given r.2.1)

Fits-IsShare :
    {S : Type 0} (lru : Lines S) (c : Parts) (needed : ℕ) (r : ℕ × (S × List Take))
    → Fits lru c needed 0 r.0 r.1
    → IsShare c needed (leb needed r.0, r.0, r.1)
Fits-IsShare lru c needed r f =
    let e : r.0 ≡ given r.1.1 = omega (arith, f.0) in
    record { fair = f.1; count = e; answer = ap (leb needed) e }

-- Whatever the LRU lists answer: finding space for a request, in its own partition or in the free list and the others,
-- never asks for more lines than the request lacks, nor a partition other than the free list for more than stands
-- above its minimum; the request is given what the lists gave, and the answer is whether that is all it needs.
pub space_managment_remap_do-IsShare :
    {S : Type 0} (lru : Lines S) (c : Parts) (s : S) (target : ℕ) (part_evict : Bool) (needed : ℕ)
    → IsShare c needed (space_managment_remap_do (watched lru) c (s, []) target part_evict needed)
unfolding space_managment_remap_do
space_managment_remap_do-IsShare lru c s target true needed =
    Fits-IsShare lru c needed _ (evict_part_do-Fits lru c needed s target)
space_managment_remap_do-IsShare lru c s target false needed =
    Fits-IsShare lru c needed _ (remap_do-Fits lru c needed s target)
