-- ===== src/Chunking/Resync.antt =====
-- Two buffers of fastcdc.c that share their content from somewhere on.
use cora.Base.{ℕ, ◌+◌, ◌-◌, ◌≤◌, ◌<◌, min, ◌≡◌, ap, sym, ◌∙◌, Bool, arith, le-cases, inl, inr}
use cora.Chunking.{Memory, Globals, cdc_origin_64}
use cora.Chunking.Gear.{fing_gear_08kb_64}
use cora.Chunking.Hash.{hit, hit_local}
use cora.Chunking.Cut.{IsFirst, cdc_origin_64-IsFirst}

-- The two tests agree from `a` and `a'` on, up to the first's end.
abbrev Alike : (ℕ → Bool) → (ℕ → Bool) → ℕ → ℕ → ℕ → Type 0
Alike f g a a' hi = (k : ℕ) → a + k < hi → f (a + k) ≡ g (a' + k)

not_earlier :
    {f g : ℕ → Bool} {lo hi r lo' hi' r' : ℕ} (a a' : ℕ)
    → IsFirst f lo hi r
    → IsFirst g lo' hi' r'
    → Alike f g a a' hi
    → lo' ≤ a'
    → a ≤ r
    → hi + a' ≡ hi' + a
    → r' + a ≤ r + a'
not_earlier {f} {g} {lo} {hi} {r} {lo'} {hi'} {r'} a a' u v same start le ends =
    elim (le-cases (r' + a) (r + a')) [
      | inl h ↦ h
      | inr h ↦ elim u.here [
        | inl e ↦ omega (arith, e, v.upto)
        | inr e ↦
            let here : a + (r - a) ≡ r = omega arith in
            absurd (
              ground (
                arith,
                e,
                ap f here,
                same (r - a) (omega (arith, u.upto, v.upto)),
                v.earlier (a' + (r - a)) (omega arith) (omega arith),
              ))
      ]
    ]

-- With `MinSize` at most `MaxSize`, and two buffers that hold the same content from 63 bytes before `a` and `a'` to
-- their clipped ends, with both places at least 63 bytes behind `MinSize`: if the origin function cuts neither
-- before that place, it cuts both at the same place of the content.
pub cdc_origin_64-resync :
    (g : Globals) (p q : Memory) (n n' a a' : ℕ)
    → g.min_size ≤ g.max_size
    → g.min_size + 63 ≤ a
    → g.min_size + 63 ≤ a'
    → min n g.max_size + a' ≡ min n' g.max_size + a
    → ((k : ℕ) → a - 63 + k < min n g.max_size → p (a - 63 + k) ≡ q (a' - 63 + k))
    → a ≤ cdc_origin_64 g p n
    → a' ≤ cdc_origin_64 g q n'
    → cdc_origin_64 g p n + a' ≡ cdc_origin_64 g q n' + a
cdc_origin_64-resync g p q n n' a a' ord early early' ends same past past' =
    let u = cdc_origin_64-IsFirst g p n ord in
    let v = cdc_origin_64-IsFirst g q n' ord in
    let w = not_earlier a a' u v alike (omega arith) past ends in
    let w' = not_earlier a' a v u alike' (omega arith) past' (sym ends) in omega (arith, w, w')
  where
    at : (x k j : ℕ) → 63 ≤ x → x + k - 63 + j ≡ x - 63 + (k + j)
    at x k j h = omega arith

    alike :
        (k : ℕ)
        → a + k < min n g.max_size
        → hit fing_gear_08kb_64 p g.min_size (a + k) ≡ hit fing_gear_08kb_64 q g.min_size (a' + k)
    alike k lt =
        hit_local fing_gear_08kb_64 p q g.min_size g.min_size (a + k) (a' + k) (omega arith)
          (omega arith)
          (λ j small.
            ap p (at a k j (omega arith))
            ∙ same (k + j) (omega arith)
            ∙ ap q (sym (at a' k j (omega arith))))

    alike' :
        (k : ℕ)
        → a' + k < min n' g.max_size
        → hit fing_gear_08kb_64 q g.min_size (a' + k) ≡ hit fing_gear_08kb_64 p g.min_size (a + k)
    alike' k lt = sym (alike k (omega arith))
