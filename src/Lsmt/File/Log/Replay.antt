-- ===== src/Lsmt/File/Log/Replay.antt =====
-- The records of the index file of lsmt/file.cpp, played back one by one.
use cora.Base.{
  ℕ, zero, suc, ◌+◌, ◌≤◌, ◌≡◌, ◌≢◌, refl, ap, List, [], ◌∷◌, ◌++◌, Option, arith, Bool-cases, inl,
  inr, if◌then◌else◌, ◌==◌, replicate, length, take,
}
use cora.Lsmt.Segment.{SegmentMapping, invalid_mapping, invalid_offset}
use cora.Lsmt.Layout.{Block, block, contains}
use cora.Lsmt.Create.Checked.{AllFit, AreWithin, latest}
use cora.Lsmt.File.Log.{load_index}

pub load_index-append :
    (xs ys : List SegmentMapping) → load_index (xs ++ ys) ≡ load_index xs ++ load_index ys
unfolding load_index
load_index-append [] ys = refl
load_index-append (m ∷ xs) ys = elim (Bool-cases (m.offset == invalid_offset)) [
  | inl h ↦ rw h (load_index-append xs ys)
  | inr h ↦ rw h (ap (λ r. record m { tag = 0 } ∷ r) (load_index-append xs ys))
]

-- The padding is not a record.
pub load_index-padding : (n : ℕ) → load_index (replicate n invalid_mapping) ≡ []
unfolding load_index
load_index-padding zero = refl
load_index-padding (suc n) = load_index-padding n

pub load_index_one :
    (m : SegmentMapping) → m.offset ≢ invalid_offset → m.tag ≡ 0 → load_index (m ∷ []) ≡ m ∷ []
unfolding load_index
load_index_one m h t = ground (arith, t)

pub latest-append_one :
    (xs : List SegmentMapping) (m : SegmentMapping) (view : ℕ → Option Block) (x : ℕ)
    → latest (xs ++ (m ∷ [])) view x
      ≡ (if contains m x then Option.some (block m x) else latest xs view x)
unfolding latest
latest-append_one [] m view x = refl
latest-append_one (y ∷ xs) m view x = latest-append_one xs m _ x

pub AllFit-append : (xs ys : List SegmentMapping) → AllFit xs → AllFit ys → AllFit (xs ++ ys)
AllFit-append [] ys a b = b
AllFit-append (x ∷ xs) ys a b = (a.0, AllFit-append xs ys a.1 b)

pub AreWithin-append :
    (b e : ℕ) (xs ys : List SegmentMapping)
    → AreWithin b e xs
    → AreWithin b e ys
    → AreWithin b e (xs ++ ys)
AreWithin-append b e [] ys u v = v
AreWithin-append b e (x ∷ xs) ys u v = (u.0, u.1, u.2, AreWithin-append b e xs ys u.3 v)

pub AreWithin-grow :
    (b e e' : ℕ) (xs : List SegmentMapping) → e ≤ e' → AreWithin b e xs → AreWithin b e' xs
AreWithin-grow b e e' [] h u = tt
AreWithin-grow b e e' (x ∷ xs) h u = (
  u.0,
  omega arith,
  λ z. let w = u.2 z in (omega arith, w.1, omega arith),
  AreWithin-grow b e e' xs h u.3,
)

pub take_all : (xs : List SegmentMapping) → take (length xs) xs ≡ xs
take_all [] = refl
take_all (x ∷ xs) = ap (λ r. x ∷ r) (take_all xs)

pub length_zero : (xs : List SegmentMapping) → length xs ≡ 0 → xs ≡ []
length_zero [] h = refl
length_zero (x ∷ xs) h = absurd (omega (arith, h))

pub length-append_one :
    (xs : List SegmentMapping) (m : SegmentMapping) → length (xs ++ (m ∷ [])) ≡ length xs + 1
length-append_one [] m = refl
length-append_one (x ∷ xs) m = omega (arith, length-append_one xs m)
