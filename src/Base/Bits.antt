-- ===== src/Base/Bits.antt =====
-- Masks: what `bit_and` does to a doubled word, and to bits that lie above the mask.
use Prim.Native.Nat.{
  ℕ, zero, suc, ◌+◌, ◌-◌, ◌*◌, ◌/◌, ◌%◌, ◌^◌, ◌≤◌, ◌<◌, min, bit_and, digits, bit_and-bitwise,
}
use mathlib.Core.Path.{◌≡◌, refl, ◌∙◌, ap, sym}
use native.Mathlib.Nat.{pow-suc}
use native.Mathlib.Omega.{arith}

-- `bit_and` as the recursion on binary digits that it stands for, `fuel` digits deep.
abbrev meet : ℕ → ℕ → ℕ → ℕ
meet fuel word mask = digits (λ _. 0) min fuel word mask

meet_zero : (fuel mask : ℕ) → meet fuel 0 mask ≡ 0
meet_zero zero mask = refl
meet_zero (suc f) mask = refl

-- One more digit than the word has changes nothing, and so do any number more.
meet_settled : (fuel word mask : ℕ) → word ≤ fuel → meet (suc fuel) word mask ≡ meet fuel word mask
meet_settled fuel zero mask le = meet_zero (suc fuel) mask ∙ sym (meet_zero fuel mask)
meet_settled zero (suc w) mask le = absurd (omega arith)
meet_settled (suc f) (suc w) mask le =
    omega (arith, meet_settled f (suc w / 2) (mask / 2) (omega arith))

meet_more :
    (extra word mask fuel : ℕ) → word ≤ fuel → meet (extra + fuel) word mask ≡ meet fuel word mask
meet_more zero word mask fuel le =
    ap (λ n. meet n word mask) {x = 0 + fuel} {y = fuel} (omega arith)
meet_more (suc e) word mask fuel le =
    ap (λ n. meet n word mask) {x = suc e + fuel} {y = suc (e + fuel)} (omega arith)
    ∙ meet_settled (e + fuel) word mask (omega arith)
    ∙ meet_more e word mask fuel le

meet_enough : (fuel word mask : ℕ) → word ≤ fuel → meet fuel word mask ≡ bit_and word mask
meet_enough fuel word mask le =
    ap (λ n. meet n word mask) {x = fuel} {y = fuel - word + word} (omega arith)
    ∙ meet_more (fuel - word) word mask word (omega arith)
    ∙ sym (bit_and-bitwise word mask)

meet_nothing : (fuel word : ℕ) → meet fuel word 0 ≡ 0
meet_nothing zero word = ground arith
meet_nothing (suc f) zero = refl
meet_nothing (suc f) (suc w) = omega (arith, meet_nothing f (suc w / 2))

pub bit_and-zero : (word : ℕ) → bit_and word 0 ≡ 0
bit_and-zero word = bit_and-bitwise word 0 ∙ meet_nothing word word

-- The lowest digit apart from the others.
pub bit_and_step :
    (word mask : ℕ)
    → bit_and word mask ≡ min (word % 2) (mask % 2) + 2 * bit_and (word / 2) (mask / 2)
bit_and_step zero mask =
    omega (arith, meet_enough 0 0 mask (omega arith), meet_enough 0 0 (mask / 2) (omega arith))
bit_and_step (suc w) mask =
    omega (arith, bit_and-bitwise (suc w) mask, meet_enough w (suc w / 2) (mask / 2) (omega arith))

-- Bits of the word from position `k` on do not matter to a mask below 2 ^ k.
pub bit_and_high : (k x t m : ℕ) → m < 2 ^ k → bit_and (x + t * 2 ^ k) m ≡ bit_and x m
bit_and_high zero x t zero h = bit_and-zero (x + t * 2 ^ 0) ∙ sym (bit_and-zero x)
bit_and_high zero x t (suc m) h = absurd (omega arith)
bit_and_high (suc k) x t m h = omega (
  arith,
  bit_and_step (x + t * 2 ^ suc k) m,
  bit_and_step x m,
  pow-suc 2 k,
  halved,
  parity,
  bit_and_high k (x / 2) t (m / 2) (omega (arith, pow-suc 2 k)),
)
  where
    doubled : x + t * 2 ^ suc k ≡ x + 2 * (t * 2 ^ k)
    doubled = omega (arith, ap (λ p. t * p) (pow-suc 2 k))

    halved : bit_and ((x + t * 2 ^ suc k) / 2) (m / 2) ≡ bit_and (x / 2 + t * 2 ^ k) (m / 2)
    halved = ap (λ y. bit_and y (m / 2)) (omega (arith, doubled))

    parity : (x + t * 2 ^ suc k) % 2 ≡ x % 2
    parity = omega (arith, doubled)

-- Shifting the word and the mask left by one, in 64 bits, shifts the result.
pub bit_and_double : (x m : ℕ) → m < 2 ^ 63 → bit_and ((x * 2) % 2 ^ 64) (m * 2) ≡ bit_and x m * 2
bit_and_double x m h = omega (arith, bit_and_step ((x * 2) % 2 ^ 64) (m * 2), low, top, whole)
  where
    low : bit_and ((x * 2) % 2 ^ 64 / 2) (m * 2 / 2) ≡ bit_and (x % 2 ^ 63) m
    low = ap (λ y. bit_and y (m * 2 / 2)) (omega arith) ∙ ap (bit_and (x % 2 ^ 63)) (omega arith)

    top : bit_and (x % 2 ^ 63 + x / 2 ^ 63 * 2 ^ 63) m ≡ bit_and (x % 2 ^ 63) m
    top = bit_and_high 63 (x % 2 ^ 63) (x / 2 ^ 63) m h

    whole : bit_and (x % 2 ^ 63 + x / 2 ^ 63 * 2 ^ 63) m ≡ bit_and x m
    whole = ap (λ y. bit_and y m) (omega arith)
