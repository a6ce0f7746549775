-- ===== src/Chunking/Cut.antt =====
-- Where the one-byte functions cut.
use cora.Base.{
  ℕ, ◌+◌, ◌-◌, ◌≤◌, ◌<◌, min, ◌≡◌, refl, subst, ◌⊎◌, inl, inr, Bool, true, false, arith, ltb,
  if◌then◌else◌, lt→leb, le→leb,
}
use native.Mathlib.Decide.{dec_lt}
use cora.Chunking.{
  Memory, Globals, Scan, cut, rest, scan, after_loop, clip, clip_mid, set_min_size, cdc_origin_64,
  normalized_loops, normalized_chunking_64,
}
use cora.Chunking.Gear.{fing_gear_08kb_64, fing_gear_02kb_64, fing_gear_32kb_64}
use cora.Chunking.Hash.{hit, fingerprint}
use cora.Chunking.Loops.{NoHit, Outcome, scan-Outcome}

-- `r` is the first position of `lo`, …, `hi - 1` that passes the test, and `hi` if none does.
pub record IsFirst (test : ℕ → Bool) (lo hi r : ℕ) : Type 0 where
  pub from : lo ≤ r
  pub upto : r ≤ hi
  pub earlier : (j : ℕ) → lo ≤ j → j < r → test j ≡ false
  pub here : (r ≡ hi) ⊎ (test r ≡ true)

-- `normalized_chunking_64` tests by the strict mask before `mid` and by the lax one from it on.
abbrev pub normalized_test : Memory → ℕ → ℕ → ℕ → Bool
normalized_test p lo mid j =
    if ltb j mid then hit fing_gear_32kb_64 p lo j else hit fing_gear_02kb_64 p lo j

pub clip-min : (max_size n : ℕ) → clip max_size n ≡ min n max_size
clip-min max_size n = ground arith

pub clip_mid-min : (max_size n : ℕ) → 8192 ≤ max_size → clip_mid max_size n ≡ min 8192 n
clip_mid-min max_size n h = ground arith

pub one_loop :
    (mask : ℕ) (p : Memory) (lo e : ℕ) (s : Scan)
    → lo ≤ e
    → Outcome mask p lo 0 (e - lo) s
    → IsFirst (hit mask p lo) lo e (after_loop s (λ _ _. e))
one_loop mask p lo e (cut i) le (a, b, c, d) = record {
  from = omega arith;
  upto = omega arith;
  earlier = λ j l lt. d j (omega arith) lt;
  here = inr c;
}
one_loop mask p lo e (rest i fp) le (a, b, d) = record {
  from = le;
  upto = omega arith;
  earlier = λ j l lt. d j (omega arith) (omega arith);
  here = inl (omega arith);
}

pub scan-start : (mask : ℕ) (p : Memory) (lo k : ℕ) → Outcome mask p lo 0 k (scan mask p k lo 0)
scan-start mask p lo k =
    subst (λ i. Outcome mask p lo 0 k (scan mask p k i 0)) {x = lo + 0} {y = lo} (omega arith)
      (scan-Outcome mask p lo 0 k)

pub IsFirst-empty :
    (test : ℕ → Bool) (a b n : ℕ) → n ≤ a → n ≤ b → IsFirst test (min n a) (min n b) n
IsFirst-empty test a b n le le' = record {
  from = omega arith;
  upto = omega arith;
  earlier = λ j l lt. absurd (omega arith);
  here = inl (omega arith);
}

-- The origin function cuts at the first position from `MinSize` on where the masked fingerprint is
-- zero, and at `min(n, MaxSize)` where there is none; a buffer of at most `MinSize` is one chunk.
-- `MinSize` is at most `MaxSize`.
pub cdc_origin_64-IsFirst :
    (g : Globals) (p : Memory) (n : ℕ)
    → g.min_size ≤ g.max_size
    → IsFirst
        (hit fing_gear_08kb_64 p g.min_size)
        (min n g.min_size)
        (min n g.max_size)
        (cdc_origin_64 g p n)
unfolding cdc_origin_64
cdc_origin_64-IsFirst g p n le = elim (dec_lt g.min_size n) [
  | no short ↦
      rw (le→leb n g.min_size (omega arith))
        (IsFirst-empty _ g.min_size g.max_size n (omega arith) (omega arith))
  | yes long ↦ rw (lt→leb n g.min_size long) (
      subst (λ a. IsFirst (hit fing_gear_08kb_64 p lo) a (min n max) (cut_at (clip max n))) {x = lo}
        {y = min n lo} (omega arith)
        (subst (λ e. IsFirst (hit fing_gear_08kb_64 p lo) lo e (cut_at (clip max n)))
          (clip-min max n)
          (one_loop fing_gear_08kb_64 p lo (clip max n) _ (ground arith)
            (scan-start fing_gear_08kb_64 p lo (clip max n - lo)))))
]
  where
    open g use {min_size as lo, max_size as max}

    cut_at : ℕ → ℕ
    cut_at e = after_loop (scan fing_gear_08kb_64 p (e - g.min_size) g.min_size 0) (λ _ _. e)

module _ (p : Memory) (lo mid e : ℕ) where
  lax_loop :
      (s : Scan)
      → lo ≤ mid
      → mid ≤ e
      → NoHit fing_gear_32kb_64 p lo lo mid
      → Outcome fing_gear_02kb_64 p lo (mid - lo) (e - mid) s
      → IsFirst (normalized_test p lo mid) lo e (after_loop s (λ _ _. e))
  lax_loop (cut i) a b before (c, d, f, g) = record {
    from = omega arith;
    upto = omega arith;
    earlier = λ j l lt. ground (arith, before j, g j);
    here = inr (ground arith);
  }
  lax_loop (rest i fp) a b before (c, d, g) = record {
    from = omega arith;
    upto = omega arith;
    earlier = λ j l lt. ground (arith, before j, g j);
    here = inl (omega arith);
  }

  strict_loop :
      (s : Scan)
      → lo ≤ mid
      → mid ≤ e
      → Outcome fing_gear_32kb_64 p lo 0 (mid - lo) s
      → IsFirst
          (normalized_test p lo mid)
          lo
          e
          (after_loop s (λ j fp. after_loop (scan fing_gear_02kb_64 p (e - j) j fp) (λ _ _. e)))
  strict_loop (cut i) a b (c, d, f, g) = record {
    from = omega arith;
    upto = omega arith;
    earlier = λ j l lt. ground (arith, g j);
    here = inr (ground arith);
  }
  strict_loop (rest i fp) a b (c, d, g) =
      rw (at_mid, d)
        (lax_loop (scan fing_gear_02kb_64 p (e - mid) mid (fingerprint p lo (0 + (mid - lo)))) a b
          (λ j l lt. g j (omega arith) (omega arith)) continued)
    where
      at_mid : i ≡ mid
      at_mid = omega arith

      continued :
          Outcome fing_gear_02kb_64 p lo
            (mid - lo)
            (e - mid)
            (scan fing_gear_02kb_64 p (e - mid) mid (fingerprint p lo (0 + (mid - lo))))
      continued =
          subst
            (λ i.
              Outcome fing_gear_02kb_64 p lo (mid - lo) (e - mid)
                (scan fing_gear_02kb_64 p (e - mid) i (fingerprint p lo (0 + (mid - lo)))))
            {x = lo + (mid - lo)} {y = mid} (omega arith)
            (subst
              (λ m.
                Outcome fing_gear_02kb_64 p lo (mid - lo) (e - mid)
                  (scan fing_gear_02kb_64 p (e - mid) (lo + (mid - lo)) (fingerprint p lo m)))
              {x = mid - lo} {y = 0 + (mid - lo)} (omega arith)
              (scan-Outcome fing_gear_02kb_64 p lo (mid - lo) (e - mid)))

  pub normalized_loops-IsFirst :
      lo ≤ mid → mid ≤ e → IsFirst (normalized_test p lo mid) lo e (normalized_loops p lo mid e)
  unfolding normalized_loops
  normalized_loops-IsFirst a b =
      strict_loop (scan fing_gear_32kb_64 p (mid - lo) lo 0) a b
        (scan-start fing_gear_32kb_64 p lo (mid - lo))

-- The normalized function leaves `MinSize` at 6 KiB and the other globals alone. With `MaxSize` at
-- 8 KiB or more it returns a buffer of at most 6 KiB whole, and otherwise cuts at the first position
-- from 6 KiB on that passes the test of its half, the strict one before `min(8 KiB, n)`, or at
-- `min(n, MaxSize)` where none does.
pub normalized_chunking_64-IsFirst :
    (g : Globals) (p : Memory) (n : ℕ)
    → 8192 ≤ g.max_size
    → ((normalized_chunking_64 g p n).0 ≡ set_min_size g)
      × IsFirst
          (normalized_test p 6144 (min 8192 n))
          (min n 6144)
          (min n g.max_size)
          (normalized_chunking_64 g p n).1
unfolding normalized_chunking_64
normalized_chunking_64-IsFirst g p n le = elim (dec_lt 6144 n) [
  | no short ↦
      rw (le→leb n 6144 (omega arith))
        (refl, IsFirst-empty _ 6144 g.max_size n (omega arith) (omega arith))
  | yes long ↦
      rw (lt→leb n 6144 long, clip_mid-min g.max_size n le, clip-min g.max_size n)
        (
          refl,
          subst
              (λ a.
                IsFirst (normalized_test p 6144 (min 8192 n)) a (min n g.max_size)
                  (normalized_loops p 6144 (min 8192 n) (min n g.max_size)))
              {x = 6144} {y = min n 6144} (omega arith)
              (normalized_loops-IsFirst p 6144 (min 8192 n) (min n g.max_size) (omega arith)
                (omega arith)),
        )
]
