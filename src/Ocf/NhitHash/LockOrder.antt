-- ===== src/Ocf/NhitHash/LockOrder.antt =====
-- The order in which an insertion of nhit_hash.c locks and unlocks the buckets of two lines.
use cora.Base.{
  ℕ, suc, Bool-cases, ◌+◌, ◌*◌, ◌%◌, ◌^◌, ◌≢◌, ◌⊎◌, inl, inr, ◌<◌, min, max, ◌≡◌, List, [], ◌∷◌,
  ◌++◌, not, ◌&&◌, arith, ◌==◌, if◌then◌else◌,
}
use cora.Ocf.NhitHash.{core_id_invalid, hash_function, write_lock_hashes, write_unlock_hashes}

-- Each bucket is above the ones before it.
abbrev pub Ascending : List ℕ → Type 0
Ascending [] = Unit {0}
Ascending (x ∷ []) = Unit {0}
Ascending (x ∷ y ∷ xs) = (x < y) × Ascending (y ∷ xs)

-- How often a bucket stands in a list.
abbrev pub count : ℕ → List ℕ → ℕ
count b [] = 0
count b (x ∷ xs) = if x == b then suc (count b xs) else count b xs

-- The bucket of a line of a core that there is, among `entries`.
abbrev pub bucket : ℕ → ℕ → ℕ → ℕ
bucket entries core_id core_lba = (core_lba * 4099 + core_id) % 2 ^ 64 % entries

-- What is locked for a line of the core `i` whose bucket is `x`, for one of `j` whose bucket is `y`, and
-- for nothing else.
pub record IsSafeOrder (entries i x j y : ℕ) (locked unlocked : List ℕ) : Type 0 where
  pub ascending : Ascending locked
  pub released : (b : ℕ) → count b locked ≡ count b unlocked
  pub real : (b : ℕ) → 0 < count b locked → b < entries
  pub first : i ≢ core_id_invalid → count x locked ≡ 1
  pub second : j ≢ core_id_invalid → count y locked ≡ 1
  pub only :
      (b : ℕ)
      → 0 < count b locked
      → ((i ≢ core_id_invalid) × (b ≡ x)) ⊎ ((j ≢ core_id_invalid) × (b ≡ y))

-- A line's bucket, or the number of buckets for the line of no core.
abbrev IsBucket : ℕ → ℕ → ℕ → ℕ → Type 0
IsBucket entries i x a =
    ((i ≡ core_id_invalid) × (a ≡ entries)) ⊎ ((i ≢ core_id_invalid) × (a ≡ x) × (a < entries))

hash_function-IsBucket :
    (entries i l : ℕ)
    → 0 < entries
    → entries < 2 ^ 32
    → IsBucket entries i (bucket entries i l) (hash_function i l entries)
unfolding hash_function
hash_function-IsBucket entries i l pos small = elim (Bool-cases (i == core_id_invalid)) [
  | inl e ↦ rw e (inl (ground (arith, e), omega arith))
  | inr e ↦ rw e (inr (ground (arith, e), omega arith, omega arith))
]

abbrev locked_of : ℕ → ℕ → ℕ → List ℕ
locked_of entries a b =
    (if not (min a b == entries) then min a b ∷ [] else [])
    ++ (if not (max a b == entries) && not (min a b == max a b) then max a b ∷ [] else [])

abbrev unlocked_of : ℕ → ℕ → ℕ → List ℕ
unlocked_of entries a b =
    (if not (a == entries) then a ∷ [] else [])
    ++ (if not (b == entries) && not (a == b) then b ∷ [] else [])

order :
    (entries i x j y a b : ℕ)
    → IsBucket entries i x a
    → IsBucket entries j y b
    → IsSafeOrder entries i x j y (locked_of entries a b) (unlocked_of entries a b)
order entries i x j y a b p q = record {
  ascending = ground arith;
  released = λ c. ground arith;
  real = λ c h. ground (arith, p, q, h);
  first = λ h. ground (arith, p, q);
  second = λ h. ground (arith, p, q);
  only = λ c h. ground (arith, p, q, h);
}

-- With at least one bucket and fewer than 2 ^ 32: of two lines, an insertion locks the buckets of those whose core
-- there is, each once, in ascending order, no other bucket and none that is not there, and unlocks exactly those.
pub write_lock_hashes-IsSafeOrder :
    (entries i l j m : ℕ)
    → 0 < entries
    → entries < 2 ^ 32
    → IsSafeOrder entries i
        (bucket entries i l)
        j
        (bucket entries j m)
        (write_lock_hashes entries i l j m)
        (write_unlock_hashes entries i l j m)
unfolding write_lock_hashes write_unlock_hashes
write_lock_hashes-IsSafeOrder entries i l j m pos small =
    order entries i (bucket entries i l) j (bucket entries j m) (hash_function i l entries)
      (hash_function j m entries) (hash_function-IsBucket entries i l pos small)
      (hash_function-IsBucket entries j m pos small)
