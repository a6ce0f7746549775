-- ===== src/Chunking/Hash.antt =====
-- What the rolling fingerprint is, described without wrap-around: the gear words of the bytes read,
-- each doubled once for every later byte, modulo 2 ^ 64.
use cora.Base.{
  ℕ, zero, suc, ◌+◌, ◌-◌, ◌*◌, ◌%◌, ◌^◌, ◌≤◌, ◌<◌, bit_and, ◌≡◌, refl, ap, sym, ◌∙◌, Bool, arith,
  ◌==◌,
}
use native.Mathlib.Nat.{pow-suc}
use cora.Chunking.{Memory, gear, roll}

abbrev pub gear_sum : Memory → ℕ → ℕ → ℕ
gear_sum p lo zero = 0
gear_sum p lo (suc m) = gear_sum p lo m * 2 + gear (p (lo + m))

-- After the `m` bytes from `lo` on.
abbrev pub fingerprint : Memory → ℕ → ℕ → ℕ
fingerprint p lo m = gear_sum p lo m % 2 ^ 64

-- Whether a scan that began at `lo` stops at position `i`.
unfoldable pub hit : ℕ → Memory → ℕ → ℕ → Bool
hit mask p lo i = bit_and (fingerprint p lo (suc (i - lo))) mask == 0

pub roll-fingerprint :
    (p : Memory) (lo m : ℕ) → roll (fingerprint p lo m) (p (lo + m)) ≡ fingerprint p lo (suc m)
unfolding roll
roll-fingerprint p lo m = omega arith

pub hit_lem :
    (mask : ℕ) (p : Memory) (lo m : ℕ)
    → hit mask p lo (lo + m) ≡ (bit_and (fingerprint p lo (suc m)) mask == 0)
unfolding hit
hit_lem mask p lo m = ap (λ k. bit_and (fingerprint p lo (suc k)) mask == 0) (omega arith)

gear_sum-split :
    (p : Memory) (lo t k : ℕ)
    → gear_sum p lo (t + k) ≡ gear_sum p lo t * 2 ^ k + gear_sum p (lo + t) k
gear_sum-split p lo t zero = ap (gear_sum p lo) {x = t + 0} {y = t} (omega arith) ∙ omega arith
gear_sum-split p lo t (suc k) =
    ap (gear_sum p lo) {x = t + suc k} {y = suc (t + k)} (omega arith)
    ∙ omega (
      arith,
      gear_sum-split p lo t k,
      ap (λ x. gear_sum p lo t * x) (pow-suc 2 k),
      ap (λ x. gear (p x)) same,
    )
  where
    same : lo + (t + k) ≡ lo + t + k
    same = omega arith

pub gear_sum_congr :
    (p q : Memory) (a b k : ℕ)
    → ((j : ℕ) → j < k → p (a + j) ≡ q (b + j))
    → gear_sum p a k ≡ gear_sum q b k
gear_sum_congr p q a b zero h = refl
gear_sum_congr p q a b (suc k) h =
    omega (arith, gear_sum_congr p q a b k (λ j lt. h j (omega arith)), ap gear (h k (omega arith)))

-- The fingerprint depends on the last 64 bytes alone.
pub fingerprint-window :
    (p : Memory) (lo t : ℕ) → fingerprint p lo (t + 64) ≡ fingerprint p (lo + t) 64
fingerprint-window p lo t = omega (arith, gear_sum-split p lo t 64)

-- Once a scan has read 64 bytes, whether it stops at a position is decided by the 64 bytes that end
-- there: two scans of different memories, begun at different places, stop alike where those agree.
pub hit_local :
    (mask : ℕ) (p q : Memory) (lo lo' i i' : ℕ)
    → lo + 63 ≤ i
    → lo' + 63 ≤ i'
    → ((j : ℕ) → j < 64 → p (i - 63 + j) ≡ q (i' - 63 + j))
    → hit mask p lo i ≡ hit mask q lo' i'
unfolding hit
hit_local mask p q lo lo' i i' h h' same =
    ap (λ x. bit_and x mask == 0) (window p lo i h ∙ middle ∙ sym (window q lo' i' h'))
  where
    window :
        (r : Memory) (l e : ℕ)
        → l + 63 ≤ e
        → fingerprint r l (suc (e - l)) ≡ fingerprint r (e - 63) 64
    window r l e le =
        ap (fingerprint r l) {x = suc (e - l)} {y = e - l - 63 + 64} (omega arith)
        ∙ fingerprint-window r l (e - l - 63)
        ∙ ap (λ x. fingerprint r x 64) {x = l + (e - l - 63)} {y = e - 63} (omega arith)

    middle : fingerprint p (i - 63) 64 ≡ fingerprint q (i' - 63) 64
    middle = ap (λ x. x % 2 ^ 64) (gear_sum_congr p q (i - 63) (i' - 63) 64 same)
