-- ===== src/Ocf/Promotion/Threshold.antt =====
-- The thresholds of nhit.c, as parameters and as numbers of requests.
use cora.Base.{
  ℕ, zero, suc, ◌+◌, ◌^◌, ◌≤◌, ◌<◌, ◌≡◌, refl, ap, sym, ◌∙◌, [], ◌∷◌, Bool, true, false, Option,
  some, arith, ◌>>=◌, if◌then◌else◌, leb, inc_32, ==_refl, lt→leb,
}
use cora.Ocf.Err.{Status, ok, fail}
use cora.Ocf.NhitHash.{NhitHash, core_line_lookup, count_found, nhit_hash_insert, nhit_hash_query}
use cora.Ocf.NhitHash.Counting.{Recorded, query-Recorded, insert-Recorded}
use cora.Ocf.NhitHash.Ring.{IsRing}
use cora.Ocf.Promotion.{
  Config, Occupancy, Request, nhit_set_param, nhit_get_param, decide_line, core_line_should_promote,
  promote_lines, or_mapped, below_trigger, nhit_req_should_promote,
}

-- The request for one line that the cache does not hold.
abbrev pub miss : ℕ → ℕ → Request
miss i l = record { lines = (i, l) ∷ []; hit_no = 0; invalid_no = 0 }

-- The answer to the last of `n + 1` such requests in a row, and the state after it.
pub ask : Config → Occupancy → ℕ → ℕ → ℕ → NhitHash → Option (Bool × NhitHash)
ask c o i l zero h = nhit_req_should_promote c o h (miss i l)
ask c o i l (suc n) h = do r ← nhit_req_should_promote c o h (miss i l); ask c o i l n r.1

module _ (c : Config) (o : Occupancy) (i l : ℕ) (above : below_trigger c o ≡ false) where
  one_line :
      (h t : NhitHash) (b : Bool)
      → core_line_should_promote c h i l ≡ some (b, t)
      → nhit_req_should_promote c o h (miss i l) ≡ some (b, t)
  unfolding nhit_req_should_promote promote_lines
  one_line h t b e = rw (above, e) (answer b)
    where
      answer : (b : Bool) → or_mapped (miss i l) (some (if b then true else false, t)) ≡ some (b, t)
      answer true = refl
      answer false = refl

  known_line :
      (h : NhitHash) (s n : ℕ)
      → Recorded h i l s n
      → (t : NhitHash) × (nhit_req_should_promote c o h (miss i l)
          ≡ some (leb c.insertion_threshold (inc_32 n), t))
        × Recorded t i l s (inc_32 n)
  unfolding core_line_should_promote
  known_line h s n r =
      let q = query-Recorded h i l s n r in
      (q.0, one_line h q.0 _ (ap (decide_line c i l) q.1), q.2)

  known_ask :
      (k : ℕ) (h : NhitHash) (s n : ℕ)
      → Recorded h i l s n
      → n + k + 1 < 2 ^ 32
      → (t : NhitHash) × (ask c o i l k h ≡ some (leb c.insertion_threshold (n + k + 1), t))
  unfolding ask
  known_ask zero h s n r fits =
      let q = known_line h s n r in
      (
        q.0,
        q.1
            ∙ ap (λ m. some (leb c.insertion_threshold m, q.0)) {x = inc_32 n} {y = n + 0 + 1}
                (omega arith),
      )
  known_ask (suc k) h s n r fits =
      let q = known_line h s n r in
      let rest = known_ask k q.0 s (inc_32 n) q.2 (omega arith) in
      (
        rest.0,
        ap (λ p. p >>= λ v. ask c o i l k v.1) q.1
            ∙ rest.1
            ∙ ap (λ m. some (leb c.insertion_threshold m, rest.0)) {x = inc_32 n + k + 1}
                {y = n + suc k + 1} (omega arith),
      )

  unknown_line :
      (h : NhitHash)
      → core_line_lookup h i l ≡ some h.rb_entries
      → nhit_req_should_promote c o h (miss i l) ≡ some (false, nhit_hash_insert h i l)
  unfolding core_line_should_promote nhit_hash_query
  unknown_line h e =
      one_line h (nhit_hash_insert h i l) false
        (ap (λ x. decide_line c i l (count_found h x)) e ∙ rw (==_refl h.rb_entries) refl)

-- Above the trigger, a line that is not in the hash and that the cache does not hold is asked for again
-- and again: the request number `k + 1` is let in exactly if the insertion threshold, which is 2 at
-- least, has been reached. The hash's ring is at rest before, and the count fits 32 bits.
pub ask-threshold :
    (c : Config) (o : Occupancy) (h : NhitHash) (i l k : ℕ)
    → below_trigger c o ≡ false
    → 2 ≤ c.insertion_threshold
    → IsRing h
    → core_line_lookup h i l ≡ some h.rb_entries
    → k + 1 < 2 ^ 32
    → (t : NhitHash) × (ask c o i l k h ≡ some (leb c.insertion_threshold (k + 1), t))
unfolding ask
ask-threshold c o h i l zero above two r e fits = (
  nhit_hash_insert h i l,
  unknown_line c o i l above h e
      ∙ ap (λ b. some (b, nhit_hash_insert h i l))
          (sym (lt→leb c.insertion_threshold (0 + 1) (omega arith))),
)
ask-threshold c o h i l (suc k) above two r e fits =
    let rec = insert-Recorded h i l r.inside (r.free h.rb_pointer) in
    let rest =
      known_ask c o i l above k (nhit_hash_insert h i l) h.rb_pointer 1 rec (omega arith) in
    (
      rest.0,
      ap (λ p. p >>= λ v. ask c o i l k v.1) (unknown_line c o i l above h e)
          ∙ rest.1
          ∙ ap (λ m. some (leb c.insertion_threshold m, rest.0)) {x = 1 + k + 1} {y = suc k + 1}
              (omega arith),
    )

-- The thresholds are in their ranges.
pub record IsValid (c : Config) : Type 0 where
  pub insertion_least : 2 ≤ c.insertion_threshold
  pub insertion_most : c.insertion_threshold ≤ 1000
  pub trigger_most : c.trigger_threshold ≤ 100

-- What setting a parameter owes: valid thresholds, and that reading the parameter gives the value back
-- where it was taken and what was read before where it was not.
abbrev pub IsStored : Config → ℕ → ℕ → Status × Config → Type 0
IsStored c param_id v (ok, d) = IsValid d × (nhit_get_param d param_id ≡ (ok, some v))
IsStored c param_id v (fail e, d) = d ≡ c

-- From valid thresholds, setting any parameter to any value leaves them valid and can be read back, or
-- is refused and changes nothing.
pub nhit_set_param-IsStored :
    (c : Config) (param_id v : ℕ) → IsValid c → IsStored c param_id v (nhit_set_param c param_id v)
unfolding nhit_set_param nhit_get_param
nhit_set_param-IsStored c param_id v w = ground arith
