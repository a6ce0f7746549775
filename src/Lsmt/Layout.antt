-- ===== src/Lsmt/Layout.antt =====
-- What an index of lsmt means: the block that every block of the device is mapped to. And the shape
-- of the arrays and sets of `SegmentMapping`: in order, disjoint, each mapping within its bit fields.
use cora.Base.{
  ℕ, ◌+◌, ◌-◌, ◌^◌, ◌≤◌, ◌<◌, ◌≡◌, refl, List, [], ◌∷◌, ◌++◌, Bool, ◌&&◌, Option, none, some, arith,
  if◌then◌else◌, leb, ltb,
}
use cora.Lsmt.Segment.{SegmentMapping, end, mend, forward_offset_to, backward_end_to}

pub record Block : Type 0 where
  pub zeroed : Bool
  pub moffset : ℕ
  pub tag : ℕ

abbrev pub contains : SegmentMapping → ℕ → Bool
contains m x = leb m.offset x && ltb x (end m)

-- The block that `x`, a block of the segment `m`, is mapped to.
abbrev pub block : SegmentMapping → ℕ → Block
block m x = record {
  zeroed = m.zeroed;
  moffset = if m.zeroed then m.moffset else m.moffset + (x - m.offset);
  tag = m.tag;
}

unfoldable pub find : List SegmentMapping → ℕ → Option Block
find [] x = none
find (m ∷ ms) x = if contains m x then some (block m x) else find ms x

abbrev pub IsMapping : SegmentMapping → Type 0
IsMapping m = (0 < m.length) × (m.length < 2 ^ 14) × (m.moffset < 2 ^ 55) × (mend m ≤ 2 ^ 55)

-- In order and disjoint, between `lo` and `hi`.
unfoldable pub Chain : ℕ → ℕ → List SegmentMapping → Type 0
Chain lo hi [] = lo ≤ hi
Chain lo hi (m ∷ ms) = (lo ≤ m.offset) × IsMapping m × Chain (end m) hi ms

-- The whole device.
abbrev pub IsIndex : List SegmentMapping → Type 0
IsIndex ms = Chain 0 (2 ^ 50) ms

pub Chain-le : (lo hi : ℕ) (ms : List SegmentMapping) → Chain lo hi ms → lo ≤ hi
unfolding Chain
Chain-le lo hi [] c = c
Chain-le lo hi (m ∷ ms) c = omega (arith, Chain-le (end m) hi ms c.2)

pub Chain-weaken :
    (lo lo' hi hi' : ℕ) (ms : List SegmentMapping)
    → lo' ≤ lo
    → hi ≤ hi'
    → Chain lo hi ms
    → Chain lo' hi' ms
unfolding Chain
Chain-weaken lo lo' hi hi' [] a b c = omega arith
Chain-weaken lo lo' hi hi' (m ∷ ms) a b c =
    (omega arith, c.1, Chain-weaken (end m) (end m) hi hi' ms (omega arith) b c.2)

pub Chain-append :
    (lo mid hi : ℕ) (xs ys : List SegmentMapping)
    → Chain lo mid xs
    → Chain mid hi ys
    → Chain lo hi (xs ++ ys)
unfolding Chain
Chain-append lo mid hi [] ys a b = Chain-weaken mid lo hi hi ys a (omega arith) b
Chain-append lo mid hi (m ∷ xs) ys a b = (a.0, a.1, Chain-append (end m) mid hi xs ys a.2 b)

pub Chain-split :
    (lo hi : ℕ) (xs : List SegmentMapping) (p : SegmentMapping) (ps : List SegmentMapping)
    → Chain lo hi (xs ++ p ∷ ps)
    → Chain lo p.offset xs × IsMapping p × Chain (end p) hi ps
unfolding Chain
Chain-split lo hi [] p ps c = c
Chain-split lo hi (x ∷ xs) p ps c =
    let r = Chain-split (end x) hi xs p ps c.2 in ((c.0, c.1, r.0), r.1, r.2)

-- Nothing is mapped outside the bounds.
pub find-below :
    (lo hi x : ℕ) (ms : List SegmentMapping) → Chain lo hi ms → x < lo → find ms x ≡ none
unfolding find Chain
find-below lo hi x [] c h = refl
find-below lo hi x (m ∷ ms) c h = ground (arith, find-below (end m) hi x ms c.2)

pub find-above :
    (lo hi x : ℕ) (ms : List SegmentMapping) → Chain lo hi ms → hi ≤ x → find ms x ≡ none
unfolding find Chain
find-above lo hi x [] c h = refl
find-above lo hi x (m ∷ ms) c h =
    ground (arith, find-above (end m) hi x ms c.2, Chain-le (end m) hi ms c.2)

-- In what stands one after the other, the parts are looked at in order.
pub find-append_below :
    (lo hi x : ℕ) (xs ys : List SegmentMapping)
    → Chain lo hi ys
    → x < lo
    → find (xs ++ ys) x ≡ find xs x
unfolding find Chain
find-append_below lo hi x [] ys c h = find-below lo hi x ys c h
find-append_below lo hi x (m ∷ xs) ys c h = ground (arith, find-append_below lo hi x xs ys c h)

pub find-append_above :
    (lo hi x : ℕ) (xs ys : List SegmentMapping)
    → Chain lo hi xs
    → hi ≤ x
    → find (xs ++ ys) x ≡ find ys x
unfolding find Chain
find-append_above lo hi x [] ys c h = refl
find-append_above lo hi x (m ∷ xs) ys c h =
    ground (arith, find-append_above (end m) hi x xs ys c.2 h, Chain-le (end m) hi xs c.2)

-- What stands of a mapping from a block on, and what stands before one.
abbrev pub suffix : SegmentMapping → ℕ → SegmentMapping
suffix m o = record m {
  offset = o;
  length = end m - o;
  moffset = if m.zeroed then m.moffset else m.moffset + (o - m.offset);
}

abbrev pub prefix : SegmentMapping → ℕ → SegmentMapping
prefix m o = record m { length = o - m.offset }

module _ (m : SegmentMapping) (o : ℕ) (g : IsMapping m) (fits : end m ≤ 2 ^ 50) where
  pub forward-exact : m.offset ≤ o → o < end m → forward_offset_to m o ≡ suffix m o
  forward-exact a b = ground arith

  pub backward-exact : m.offset < o → o ≤ end m → backward_end_to m o ≡ prefix m o
  backward-exact a b = ground arith

pub suffix-block :
    (m : SegmentMapping) (o x : ℕ) → m.offset ≤ o → o ≤ x → block (suffix m o) x ≡ block m x
suffix-block m o x a b = ground arith

-- The blocks of a mapping that is not zeroed.
abbrev pub used : SegmentMapping → ℕ
used m = if m.zeroed then 0 else m.length

unfoldable pub total : List SegmentMapping → ℕ
total [] = 0
total (m ∷ ms) = used m + total ms

pub total-append : (xs ys : List SegmentMapping) → total (xs ++ ys) ≡ total xs + total ys
unfolding total
total-append [] ys = omega arith
total-append (m ∷ xs) ys = omega (arith, total-append xs ys)

pub total-bound : (lo hi : ℕ) (ms : List SegmentMapping) → Chain lo hi ms → lo + total ms ≤ hi
unfolding total Chain
total-bound lo hi [] c = omega arith
total-bound lo hi (m ∷ ms) c = ground (arith, total-bound (end m) hi ms c.2)

pub find-append_congr :
    (x : ℕ) (xs ys zs : List SegmentMapping)
    → find ys x ≡ find zs x
    → find (xs ++ ys) x ≡ find (xs ++ zs) x
unfolding find
find-append_congr x [] ys zs e = e
find-append_congr x (m ∷ xs) ys zs e = ground (arith, find-append_congr x xs ys zs e)

-- The mappings all start before `e`.
abbrev pub StartBefore : ℕ → List SegmentMapping → Type 0
StartBefore e [] = Unit
StartBefore e (m ∷ ms) = (m.offset < e) × StartBefore e ms

-- Where the last mapping ends, or `d` if there is none.
abbrev pub last_end : ℕ → List SegmentMapping → ℕ
last_end d [] = d
last_end d (m ∷ ms) = last_end (end m) ms

pub last_end-le : (lo hi : ℕ) (ms : List SegmentMapping) → Chain lo hi ms → last_end lo ms ≤ hi
unfolding Chain
last_end-le lo hi [] c = c
last_end-le lo hi (m ∷ ms) c = last_end-le (end m) hi ms c.2
