-- ===== src/Ocf/Lru/Border.antt =====
-- Where the border between hot and cold lines may stand before a rebalancing, and what that makes of it.
use cora.Base.{
  ℕ, ◌+◌, ◌/◌, ◌≤◌, ◌≡◌, refl, ap, sym, subst, ◌∙◌, ◌⊎◌, inl, inr, List, [], ◌∷◌, ◌++◌, Bool, true,
  false, Option, some, arith, length, length-append,
}
use mathlib.Core.List.{append_assoc}
use cora.Ocf.Lru.{Lru, balance_lru_list}
use cora.Ocf.Lru.Shape.{IsLru, IsBalanced}
use cora.Ocf.Lru.Balance.{list-grow, list-shrink, list-stay, list-untracked}

-- The list holds these lines, most recently used first, with its hot half marked.
abbrev pub Holds : Bool → Lru → List ℕ → Type 0
Holds track s xs =
    (hs : List ℕ) × (cs : List ℕ) × IsLru track s hs cs × IsBalanced track hs cs × (hs ++ cs ≡ xs)

-- There is room for one more hot line at the head.
unfoldable pub Room : Bool → List ℕ → List ℕ → Type 0
Room true hs cs =
    (length hs ≤ (length (hs ++ cs) + 1) / 2) × ((length (hs ++ cs) + 1) / 2 ≤ length hs + 2)
Room false hs cs = hs ≡ []

-- At most one line too many or too few is hot.
unfoldable pub IsNear : Bool → List ℕ → List ℕ → Type 0
IsNear true hs cs =
    (length hs ≤ length (hs ++ cs) / 2 + 1) × (length (hs ++ cs) / 2 ≤ length hs + 1)
IsNear false hs cs = hs ≡ []

-- A list that is not empty, from its other end.
snoc-cases : (xs : List ℕ) → (xs ≡ []) ⊎ ((ys : List ℕ) × (x : ℕ) × (xs ≡ ys ++ x ∷ []))
snoc-cases [] = inl refl
snoc-cases (x ∷ xs) = elim (snoc-cases xs) [
  | inl e ↦ inr ([], x, ap (◌∷◌ x) e)
  | inr r ↦ inr (x ∷ r.0, r.1, ap (◌∷◌ x) r.2)
]

-- What a step owes: it does not stop, and the list then holds these lines.
abbrev pub Yields : Bool → Option Lru → List ℕ → Type 0
Yields track o xs = (t : Lru) × (o ≡ some t) × Holds track t xs

balance-grow :
    (s : Lru) (hs cs : List ℕ)
    → IsLru true s hs cs
    → length (hs ++ cs) / 2 ≡ length hs + 1
    → Yields true (balance_lru_list s) (hs ++ cs)
balance-grow s hs [] v e = absurd (omega (arith, e, length-append hs []))
balance-grow s hs (k ∷ cs) v e =
    let r = list-grow s hs k cs v e in
    let shape = append_assoc hs (k ∷ []) cs in
    (
      r.0,
      r.1,
      (hs ++ k ∷ [], cs, r.2, omega (arith, e, length-append hs (k ∷ []), ap length shape), shape),
    )

balance-shrink :
    (s : Lru) (hs cs : List ℕ)
    → IsLru true s hs cs
    → length (hs ++ cs) / 2 + 1 ≡ length hs
    → Yields true (balance_lru_list s) (hs ++ cs)
balance-shrink s hs cs v e = elim (snoc-cases hs) [
  | inl z ↦ absurd (omega (arith, e, ap length z))
  | inr q ↦
      let ys = q.0 in
      let k = q.1 in
      let shape = append_assoc ys (k ∷ []) cs in
      let whole = ap (λ zs. zs ++ cs) q.2 ∙ shape in
      let half : length (ys ++ k ∷ cs) / 2 ≡ length ys =
        omega (arith, e, ap length whole, ap length q.2, length-append ys (k ∷ [])) in
      let r = list-shrink s ys k cs (subst (λ zs. IsLru true s zs cs) q.2 v) half in
      (r.0, r.1, (ys, k ∷ cs, r.2, sym half, sym whole))
]

balance-stay :
    (s : Lru) (hs cs : List ℕ)
    → IsLru true s hs cs
    → length (hs ++ cs) / 2 ≡ length hs
    → Yields true (balance_lru_list s) (hs ++ cs)
balance-stay s hs cs v e = let r = list-stay s hs cs v e in (r.0, r.1, (hs, cs, r.2, sym e, refl))

one_apart : (n m : ℕ) → n ≤ m + 1 → m ≤ n + 1 → (m ≡ n + 1) ⊎ (m + 1 ≡ n) ⊎ (m ≡ n)
one_apart n m a b = ground arith

-- The lines stay as they are, and the hot half is right again.
pub balance-near :
    (track : Bool) (s : Lru) (hs cs : List ℕ)
    → IsLru track s hs cs
    → IsNear track hs cs
    → Yields track (balance_lru_list s) (hs ++ cs)
unfolding IsNear
balance-near false s hs cs v e = (s, list-untracked s v.tracks, (hs, cs, v, e, refl))
balance-near true s hs cs v e = elim (one_apart (length hs) (length (hs ++ cs) / 2) e.0 e.1) [
  | inl a ↦ balance-grow s hs cs v a
  | inr r ↦ elim r [ inl a ↦ balance-shrink s hs cs v a | inr a ↦ balance-stay s hs cs v a ]
]
