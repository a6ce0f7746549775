-- ===== src/Ocf/Lru/Refine.antt =====
-- The operations of ocf_lru.c that rebalance, against operations on a sequence of lines.
use cora.Base.{
  ◌>>=◌, ℕ, ◌+◌, ◌^◌, ◌<◌, ◌≡◌, refl, ap, sym, subst, ◌∙◌, ◌≢◌, ◌⊎◌, inl, inr, List, [], ◌∷◌, ◌++◌,
  Bool, true, false, Option, some, arith, length, length-append,
}
use mathlib.Core.List.{append_assoc}
use cora.Ocf.Lru.{
  Lru, end_marker, add_lru_head_nobalance, remove_lru_list_nobalance, balance_lru_list,
  add_lru_head, remove_lru_list, ocf_lru_set_hot,
}
use cora.Ocf.Lru.Segment.{Fresh, Distinct, Fresh-append, Distinct-middle}
use cora.Ocf.Lru.Shape.{IsLru, IsBalanced}
use cora.Ocf.Lru.Add.{add-first, add-tracked, add-untracked}
use cora.Ocf.Lru.Remove.{remove-hot, remove-cold}
use cora.Ocf.Lru.Border.{Holds, Room, IsNear, Yields, balance-near}

-- A step before the rebalancing: it does not stop, and leaves these lines with a border that may move.
Leaves : (Bool → List ℕ → List ℕ → Type 0) → Bool → Option Lru → List ℕ → Type 0
Leaves P track o xs =
    (t : Lru) × (o ≡ some t)
    × ((hs : List ℕ) × (cs : List ℕ) × IsLru track t hs cs × P track hs cs × (hs ++ cs ≡ xs))

add-Leaves :
    (track : Bool) (s : Lru) (hs cs : List ℕ) (c : ℕ)
    → IsLru track s hs cs
    → Room track hs cs
    → c ≢ end_marker
    → Fresh c (hs ++ cs)
    → s.list.num_nodes + 1 < 2 ^ 32
    → Leaves IsNear track (add_lru_head_nobalance s c) (c ∷ (hs ++ cs))
unfolding IsNear Room Leaves
add-Leaves true s [] [] c v m ne f n =
    let r = add-first true s c v ne in
    (r.0, r.1, ([], c ∷ [], r.2, (omega arith, omega arith), refl))
add-Leaves true s [] (x ∷ cs) c v m ne f n =
    let r = add-tracked s [] (x ∷ cs) c x cs v refl ne f n in
    (r.0, r.1, (c ∷ [], x ∷ cs, r.2, (omega (arith, m.0), omega (arith, m.1)), refl))
add-Leaves true s (x ∷ hs) cs c v m ne f n =
    let r = add-tracked s (x ∷ hs) cs c x (hs ++ cs) v refl ne f n in
    (r.0, r.1, (c ∷ x ∷ hs, cs, r.2, (omega (arith, m.0), omega (arith, m.1)), refl))
add-Leaves false s [] [] c v m ne f n =
    let r = add-first false s c v ne in (r.0, r.1, ([], c ∷ [], r.2, refl, refl))
add-Leaves false s [] (x ∷ cs) c v m ne f n =
    let r = add-untracked s (x ∷ cs) c x cs v refl ne f n in
    (r.0, r.1, ([], c ∷ x ∷ cs, r.2, refl, refl))
add-Leaves false s (x ∷ hs) cs c v m ne f n = absurd (omega (arith, ap length m))

-- A line of the whole list stands among the hot lines or among the cold ones.
locate :
    (hs cs ys : List ℕ) (c : ℕ) (zs : List ℕ)
    → hs ++ cs ≡ ys ++ c ∷ zs
    → ((zs' : List ℕ) × (hs ≡ ys ++ c ∷ zs') × (zs' ++ cs ≡ zs))
      ⊎ ((ys' : List ℕ) × (hs ++ ys' ≡ ys) × (cs ≡ ys' ++ c ∷ zs))
locate [] cs ys c zs e = inr (ys, refl, e)
locate (h ∷ hs) cs [] c zs e = inl (hs, cc, cc)
locate (h ∷ hs) cs (y ∷ ys) c zs e = elim (locate hs cs ys c zs cc) [
  | inl r ↦ inl (r.0, (let q = r.1 in cc), r.2)
  | inr r ↦ inr (r.0, (let q = r.1 in cc), r.2)
]

-- Room is left, and few are too many, once a line is taken out of a balanced list.
Loose : Bool → List ℕ → List ℕ → Type 0
Loose track hs cs = IsNear track hs cs × Room track hs cs

remove-Leaves :
    (track : Bool) (s : Lru) (hs cs ys : List ℕ) (c : ℕ) (zs : List ℕ)
    → IsLru track s hs cs
    → IsBalanced track hs cs
    → hs ++ cs ≡ ys ++ c ∷ zs
    → Leaves Loose track (remove_lru_list_nobalance s c) (ys ++ zs)
unfolding Leaves Loose IsNear Room
remove-Leaves track s hs cs ys c zs v b e = elim (locate hs cs ys c zs e) [
  | inl q ↦
      let zs' = q.0 in
      let w : IsLru track s (ys ++ c ∷ zs') cs = subst (λ xs. IsLru track s xs cs) q.1 v in
      let r = remove-hot track s c ys zs' cs w in
      let whole = append_assoc ys zs' cs ∙ ap (λ xs. ys ++ xs) q.2 in
      (r.0, r.1, (ys ++ zs', cs, r.2, loose_hot track zs' q.1 whole b, whole))
  | inr q ↦
      let ys' = q.0 in
      let w : IsLru track s hs (ys' ++ c ∷ zs) = subst (λ xs. IsLru track s hs xs) q.2 v in
      let r = remove-cold track s c ys' zs hs w in
      let whole = sym (append_assoc hs ys' zs) ∙ ap (λ xs. xs ++ zs) q.1 in
      (r.0, r.1, (hs, ys' ++ zs, r.2, loose_cold track ys' whole b, whole))
]
  where
    size : length (hs ++ cs) ≡ length (ys ++ zs) + 1
    size = omega (arith, ap length e, length-append ys (c ∷ zs), length-append ys zs)

    loose_hot :
        (track' : Bool) (zs' : List ℕ)
        → hs ≡ ys ++ c ∷ zs'
        → (ys ++ zs') ++ cs ≡ ys ++ zs
        → IsBalanced track' hs cs
        → Loose track' (ys ++ zs') cs
    loose_hot true zs' h whole d =
        let l = ap length h in
        let m = ap length whole in
        let n = length-append ys (c ∷ zs') in
        let o = length-append ys zs' in
        (
          (omega (arith, size, l, m, n, o, d), omega (arith, size, l, m, n, o, d)),
          (omega (arith, size, l, m, n, o, d), omega (arith, size, l, m, n, o, d)),
        )
    loose_hot false zs' h whole d =
        absurd (omega (arith, ap length h, ap length d, length-append ys (c ∷ zs')))

    loose_cold :
        (track' : Bool) (ys' : List ℕ)
        → hs ++ (ys' ++ zs) ≡ ys ++ zs
        → IsBalanced track' hs cs
        → Loose track' hs (ys' ++ zs)
    loose_cold true ys' whole d =
        let m = ap length whole in
        (
          (omega (arith, size, m, d), omega (arith, size, m, d)),
          (omega (arith, size, m, d), omega (arith, size, m, d)),
        )
    loose_cold false ys' whole d = (d, d)

balanced-Room : (track : Bool) (hs cs : List ℕ) → IsBalanced track hs cs → Room track hs cs
unfolding Room
balanced-Room true hs cs b = (omega (arith, b), omega (arith, b))
balanced-Room false hs cs b = b

-- The rebalancing after a step that leaves the border near.
then-balance :
    (track : Bool) (o : Option Lru) (xs : List ℕ)
    → Leaves IsNear track o xs
    → Yields track (o >>= balance_lru_list) xs
unfolding Leaves
then-balance track o xs l =
    let r = l.2 in
    subst (λ p. Yields track (p >>= balance_lru_list) xs) (sym l.1)
      (subst (Yields track (balance_lru_list l.0)) r.4 (balance-near track l.0 r.0 r.1 r.2 r.3))

fits-after :
    (track : Bool) (s : Lru) (hs cs xs : List ℕ)
    → IsLru track s hs cs
    → hs ++ cs ≡ xs
    → length xs + 1 < 2 ^ 32
    → s.list.num_nodes + 1 < 2 ^ 32
fits-after track s hs cs xs v e f = omega (arith, v.count, ap length e)

-- On a list that holds `xs`, adding a line that is not among them and not the end marker hits no
-- assertion, and the list then holds that line before `xs`, while the count fits 32 bits.
pub add_lru_head-Holds :
    (track : Bool) (s : Lru) (xs : List ℕ) (c : ℕ)
    → Holds track s xs
    → c ≢ end_marker
    → Fresh c xs
    → length xs + 1 < 2 ^ 32
    → Yields track (add_lru_head s c) (c ∷ xs)
unfolding add_lru_head
add_lru_head-Holds track s xs c h ne f n =
    subst (λ ys. Yields track (add_lru_head_nobalance s c >>= balance_lru_list) (c ∷ ys)) h.4
      (then-balance track (add_lru_head_nobalance s c) (c ∷ (h.0 ++ h.1)) (
        add-Leaves track s h.0 h.1 c h.2 (balanced-Room track h.0 h.1 h.3) ne
          (subst (Fresh c) (sym h.4) f) (fits-after track s h.0 h.1 xs h.2 h.4 n)))

-- Taking a line out of a list, wherever it stands, hits no assertion, and the list then holds the other
-- lines in their order.
pub remove_lru_list-Holds :
    (track : Bool) (s : Lru) (ys : List ℕ) (c : ℕ) (zs : List ℕ)
    → Holds track s (ys ++ c ∷ zs)
    → Yields track (remove_lru_list s c) (ys ++ zs)
unfolding remove_lru_list Leaves Loose
remove_lru_list-Holds track s ys c zs h =
    let l = remove-Leaves track s h.0 h.1 ys c zs h.2 h.3 h.4 in
    let r = l.2 in
    then-balance track (remove_lru_list_nobalance s c) (ys ++ zs)
      (l.0, l.1, (r.0, r.1, r.2, r.3.0, r.4))

-- Setting a line of a list hot hits no assertion, and the list then holds the same lines with that one
-- first.
pub ocf_lru_set_hot-Holds :
    (track : Bool) (s : Lru) (ys : List ℕ) (c : ℕ) (zs : List ℕ)
    → Holds track s (ys ++ c ∷ zs)
    → Yields track (ocf_lru_set_hot s c) (c ∷ (ys ++ zs))
unfolding ocf_lru_set_hot Leaves Loose
ocf_lru_set_hot-Holds track s ys c zs h =
    let l = remove-Leaves track s h.0 h.1 ys c zs h.2 h.3 h.4 in
    let t = l.0 in
    let r = l.2 in
    let d = Distinct-middle ys c zs (subst Distinct h.4 h.2.distinct) in
    let fresh = subst (Fresh c) (sym r.4) (Fresh-append c ys zs d.1 d.2) in
    let fits = fits-after track t r.0 r.1 (ys ++ zs) r.2 r.4 (
      omega (
        arith,
        h.2.count,
        h.2.fits,
        ap length h.4,
        length-append ys (c ∷ zs),
        length-append ys zs,
      )) in
    subst
      (λ p.
        Yields track (p >>= λ u. add_lru_head_nobalance u c >>= balance_lru_list) (c ∷ (ys ++ zs)))
      (sym l.1)
      (subst (λ xs. Yields track (add_lru_head_nobalance t c >>= balance_lru_list) (c ∷ xs)) r.4
        (then-balance track (add_lru_head_nobalance t c) (c ∷ (r.0 ++ r.1))
          (add-Leaves track t r.0 r.1 c r.2 r.3.1 d.0 fresh fits)))
