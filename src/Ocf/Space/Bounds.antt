-- ===== src/Ocf/Space/Bounds.antt =====
-- How many lines one round of ocf_space.c asks a partition for.
use cora.Base.{ℕ, ◌+◌, ◌≤◌, min, max, ◌≡◌, refl, ◌⊎◌, Bool, true, false, arith, if◌then◌else◌}
use cora.Ocf.Space.{Parts, min_size_of, max_size_of, overflow_size, evict_calculate}

pub calculate-bound :
    (occ floor n : ℕ)
    → (evict_calculate occ floor n ≤ n)
      × ((evict_calculate occ floor n ≡ 0) ⊎ (evict_calculate occ floor n + floor ≤ occ))
unfolding evict_calculate
calculate-bound occ floor n = ground arith

overflow-bound :
    (occ limit : ℕ) → (overflow_size occ limit ≡ 0) ⊎ (overflow_size occ limit + limit ≤ occ)
overflow-bound occ limit = ground arith

-- What a pass leaves a partition: its minimum, and in the pass over the overflown ones its maximum too.
abbrev pub floor_of : Parts → Bool → ℕ → ℕ
floor_of c b q = if b then max (min_size_of c q) (max_size_of c q) else min_size_of c q

-- One of the ways through the body of the loop of `ocf_evict_user_partitions`.
pub choose :
    {A : Type 0} (P : A → Type 0) (a b d e f : Bool) (x y z w : A)
    → P x
    → P y
    → P z
    → (f ≡ false → P w)
    → P (
        if a
        then x
        else (if b then x else (if d then y else (if e then y else (if f then z else w)))))
choose P true b d e f x y z w px py pz pw = px
choose P false true d e f x y z w px py pz pw = px
choose P false false true e f x y z w px py pz pw = py
choose P false false false true f x y z w px py pz pw = py
choose P false false false false true x y z w px py pz pw = pz
choose P false false false false false x y z w px py pz pw = pw refl

-- How much the body asks for.
abbrev pub asked : Bool → ℕ → ℕ → ℕ → ℕ → ℕ
asked b occ lo hi left =
    if b
    then min (evict_calculate occ lo left) (overflow_size occ hi)
    else evict_calculate occ lo left

pub asked-bound :
    (b : Bool) (occ lo hi left : ℕ)
    → (asked b occ lo hi left ≤ left)
      × ((asked b occ lo hi left ≡ 0)
          ⊎ (asked b occ lo hi left + (if b then max lo hi else lo) ≤ occ))
asked-bound true occ lo hi left = ground (arith, calculate-bound occ lo left, overflow-bound occ hi)
asked-bound false occ lo hi left = calculate-bound occ lo left
