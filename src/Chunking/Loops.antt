-- ===== src/Chunking/Loops.antt =====
-- What the one-byte loop does, whatever its mask and its number of rounds.
use cora.Base.{
  ℕ, zero, suc, ◌+◌, ◌≤◌, ◌<◌, ◌≡◌, ap, subst, ◌∙◌, inl, inr, true, false, arith, Bool-cases,
}
use cora.Chunking.{Memory, Scan, cut, rest, scan}
use cora.Chunking.Hash.{fingerprint, hit, hit_lem, roll-fingerprint}

-- No position from `a` up to `b` is hit.
abbrev pub NoHit : ℕ → Memory → ℕ → ℕ → ℕ → Type 0
NoHit mask p lo a b = (j : ℕ) → a ≤ j → j < b → hit mask p lo j ≡ false

-- The outcome of a loop over the positions `lo + m`, …, `lo + m + k - 1`.
abbrev pub Outcome : ℕ → Memory → ℕ → ℕ → ℕ → Scan → Type 0
Outcome mask p lo m k (cut i) =
    (lo + m ≤ i) × (i < lo + m + k) × (hit mask p lo i ≡ true) × NoHit mask p lo (lo + m) i
Outcome mask p lo m k (rest j fp) =
    (j ≡ lo + m + k) × (fp ≡ fingerprint p lo (m + k)) × NoHit mask p lo (lo + m) (lo + m + k)

NoHit-cons :
    (mask : ℕ) (p : Memory) (lo m b : ℕ)
    → hit mask p lo (lo + m) ≡ false
    → NoHit mask p lo (lo + suc m) b
    → NoHit mask p lo (lo + m) b
NoHit-cons mask p lo m b e h j le lt = grind (arith, h j)

Outcome-cons :
    (mask : ℕ) (p : Memory) (lo m k : ℕ) (s : Scan)
    → hit mask p lo (lo + m) ≡ false
    → Outcome mask p lo (suc m) k s
    → Outcome mask p lo m (suc k) s
Outcome-cons mask p lo m k (cut i) e (a, b, c, d) =
    (omega arith, omega arith, c, NoHit-cons mask p lo m i e d)
Outcome-cons mask p lo m k (rest j fp) e (a, b, d) = (
  omega arith,
  b ∙ ap (fingerprint p lo) {x = suc m + k} {y = m + suc k} (omega arith),
  λ i le lt. NoHit-cons mask p lo m (lo + suc m + k) e d i le (omega arith),
)

Outcome-cut :
    (mask : ℕ) (p : Memory) (lo m k : ℕ)
    → hit mask p lo (lo + m) ≡ true
    → Outcome mask p lo m (suc k) (cut (lo + m))
Outcome-cut mask p lo m k e = (omega arith, omega arith, e, λ j le lt. absurd (omega arith))

pub scan-Outcome :
    (mask : ℕ) (p : Memory) (lo m k : ℕ)
    → Outcome mask p lo m k (scan mask p k (lo + m) (fingerprint p lo m))
unfolding scan
scan-Outcome mask p lo m zero = (
  omega arith,
  ap (fingerprint p lo) {x = m} {y = m + 0} (omega arith),
  λ j le lt. absurd (omega arith),
)
scan-Outcome mask p lo m (suc k) = elim (Bool-cases (hit mask p lo (lo + m))) [
  | inl e ↦ rw (roll-fingerprint p lo m, ← hit_lem mask p lo m, e) (Outcome-cut mask p lo m k e)
  | inr e ↦
      rw (roll-fingerprint p lo m, ← hit_lem mask p lo m, e)
        (Outcome-cons mask p lo m k _ e (
          subst (λ i. Outcome mask p lo (suc m) k (scan mask p k i (fingerprint p lo (suc m))))
            {x = lo + suc m} {y = suc (lo + m)} (omega arith) (scan-Outcome mask p lo (suc m) k)))
]
