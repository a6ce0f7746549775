-- ===== src/Ocf/Lru/Balance.antt =====
-- `balance_lru_list` of ocf_lru.c, for each sign of the change.
use cora.Base.{
  ℕ, ◌+◌, ◌/◌, ◌≡◌, refl, ap, sym, subst, ◌∙◌, ◌≢◌, inl, List, [], ◌∷◌, ◌++◌, Bool, true, false,
  some, arith, ◌==◌, if◌then◌else◌, length, length-append,
}
use mathlib.Core.List.{append_assoc}
use cora.Ocf.Lru.{Lru, end_marker, set_hot, balance_update_last_hot, balance_lru_list}
use cora.Ocf.Lru.Segment.{
  head_or, last_or, Seg, Fresh, Distinct, AllHot, Seg-split, Seg-last, Seg-congr, AllHot-update,
  AllHot-split, AllHot-append, Distinct-middle, Distinct-split, last_or-ne, last_or-append,
}
use cora.Ocf.Lru.Shape.{IsLru}

-- The list after a move of the border, with `k` for the line whose flag changes.
module _ (s : Lru) (k target last : ℕ) (b : Bool) where
  moved : Lru
  moved = record {
    nodes = set_hot s.nodes k b;
    list = record s.list { num_hot = target; last_hot = last };
  }

  moved-IsLru :
      (hs cs hs' cs' : List ℕ)
      → IsLru true s hs cs
      → hs ++ cs ≡ hs' ++ cs'
      → target ≡ length hs'
      → last ≡ last_or end_marker hs'
      → AllHot moved.nodes true hs'
      → AllHot moved.nodes false cs'
      → IsLru true moved hs' cs'
  unfolding moved
  moved-IsLru hs cs hs' cs' v e n l a d = record {
    linked =
        Seg-congr s.nodes (set_hot s.nodes k b) (λ x. ground arith) end_marker (hs' ++ cs')
          end_marker (subst (λ xs. Seg s.nodes end_marker xs end_marker) e v.linked);
    distinct = subst Distinct e v.distinct;
    head = v.head ∙ ap (λ xs. head_or xs end_marker) e;
    tail = v.tail ∙ ap (last_or end_marker) e;
    count = v.count ∙ ap length e;
    fits = v.fits;
    hot_count = n;
    last_hot = l;
    are_hot = a;
    are_cold = d;
    tracks = v.tracks;
    untracked = inl refl;
  }

  moved-hot : (moved.nodes k).hot ≡ b
  unfolding moved
  moved-hot = ground arith

  moved-AllHot :
      (f : Bool) (xs : List ℕ) → Fresh k xs → AllHot s.nodes f xs → AllHot moved.nodes f xs
  unfolding moved
  moved-AllHot f xs h a = AllHot-update s.nodes k (record (s.nodes k) { hot = b }) f xs h a

-- What the code computes, for each sign of the change.
balance_grow :
    (s : Lru) (k target : ℕ)
    → s.list.track_hot ≡ true
    → target ≡ s.list.num_nodes / 2
    → target ≡ s.list.num_hot + 1
    → (if s.list.last_hot == end_marker then s.list.head else (s.nodes s.list.last_hot).next) ≡ k
    → k ≢ end_marker
    → balance_lru_list s ≡ some (moved s k target k true)
unfolding balance_lru_list balance_update_last_hot moved
balance_grow s k target t e n p ne = ground arith

balance_shrink :
    (s : Lru) (k target p : ℕ)
    → s.list.track_hot ≡ true
    → target ≡ s.list.num_nodes / 2
    → target + 1 ≡ s.list.num_hot
    → s.list.last_hot ≡ k
    → (s.nodes k).prev ≡ p
    → k ≢ end_marker
    → balance_lru_list s ≡ some (moved s k target p false)
unfolding balance_lru_list balance_update_last_hot moved
balance_shrink s k target p t e n l q ne = ground arith

-- The line behind the hot ones is where the code looks for it.
pivot-grow :
    (s : Lru) (hs : List ℕ) (k : ℕ) (cs : List ℕ)
    → IsLru true s hs (k ∷ cs)
    → (if s.list.last_hot == end_marker then s.list.head else (s.nodes s.list.last_hot).next) ≡ k
pivot-grow s [] k cs v = ground (arith, v.last_hot, v.head)
pivot-grow s (x ∷ hs) k cs v =
    ground (arith, v.last_hot, last_or-ne x hs d.0 d.2, Seg-last s.nodes end_marker x hs k g.0)
  where
    d : Distinct (x ∷ hs)
    d = (Distinct-split (x ∷ hs) (k ∷ cs) v.distinct).0

    g : Seg s.nodes end_marker (x ∷ hs) k × Seg s.nodes (last_or x hs) (k ∷ cs) end_marker
    g = Seg-split s.nodes end_marker (x ∷ hs) (k ∷ cs) end_marker v.linked

-- One hot line too few: the first cold line becomes the last hot one.
pub list-grow :
    (s : Lru) (hs : List ℕ) (k : ℕ) (cs : List ℕ)
    → IsLru true s hs (k ∷ cs)
    → length (hs ++ k ∷ cs) / 2 ≡ length hs + 1
    → (t : Lru) × (balance_lru_list s ≡ some t) × IsLru true t (hs ++ k ∷ []) cs
list-grow s hs k cs v e = (
  moved s k n k true,
  balance_grow s k n v.tracks (ap (λ m. m / 2) (sym v.count))
      (e ∙ ap (λ m. m + 1) (sym v.hot_count)) (pivot-grow s hs k cs v) w.0,
  moved-IsLru s k n k true hs (k ∷ cs) (hs ++ k ∷ []) cs v (sym (append_assoc hs (k ∷ []) cs))
      (omega (arith, e, length-append hs (k ∷ []))) (sym (last_or-append end_marker hs (k ∷ [])))
      (AllHot-append (moved s k n k true).nodes true hs (k ∷ [])
        (moved-AllHot s k n k true true hs w.1 v.are_hot) (moved-hot s k n k true, tt))
      (moved-AllHot s k n k true false cs w.2 v.are_cold.1),
)
  where
    n : ℕ
    n = length (hs ++ k ∷ cs) / 2

    w : (k ≢ end_marker) × Fresh k hs × Fresh k cs × Distinct (hs ++ cs)
    w = Distinct-middle hs k cs v.distinct

-- One hot line too many: the last hot line becomes the first cold one.
pub list-shrink :
    (s : Lru) (hs : List ℕ) (k : ℕ) (cs : List ℕ)
    → IsLru true s (hs ++ k ∷ []) cs
    → length (hs ++ k ∷ cs) / 2 ≡ length hs
    → (t : Lru) × (balance_lru_list s ≡ some t) × IsLru true t hs (k ∷ cs)
list-shrink s hs k cs v e = (
  moved s k n p false,
  balance_shrink s k n p v.tracks (ap (λ m. m / 2) (sym (v.count ∙ ap length shape)))
      (omega (arith, e, v.hot_count, length-append hs (k ∷ [])))
      (v.last_hot ∙ last_or-append end_marker hs (k ∷ [])) g.1.0 w.0,
  moved-IsLru s k n p false (hs ++ k ∷ []) cs hs (k ∷ cs) v shape e refl
      (moved-AllHot s k n p false true hs w.1 a.0)
      (moved-hot s k n p false, moved-AllHot s k n p false false cs w.2 v.are_cold),
)
  where
    n : ℕ
    n = length (hs ++ k ∷ cs) / 2

    p : ℕ
    p = last_or end_marker hs

    shape : (hs ++ k ∷ []) ++ cs ≡ hs ++ k ∷ cs
    shape = append_assoc hs (k ∷ []) cs

    w : (k ≢ end_marker) × Fresh k hs × Fresh k cs × Distinct (hs ++ cs)
    w = Distinct-middle hs k cs (subst Distinct shape v.distinct)

    g : Seg s.nodes end_marker hs k × Seg s.nodes p (k ∷ cs) end_marker
    g =
        Seg-split s.nodes end_marker hs (k ∷ cs) end_marker
          (subst (λ xs. Seg s.nodes end_marker xs end_marker) shape v.linked)

    a : AllHot s.nodes true hs × AllHot s.nodes true (k ∷ [])
    a = AllHot-split s.nodes true hs (k ∷ []) v.are_hot

balance_stay :
    (s : Lru)
    → s.list.track_hot ≡ true
    → s.list.num_nodes / 2 ≡ s.list.num_hot
    → balance_lru_list s
      ≡ some (record { nodes = s.nodes; list = record s.list { num_hot = s.list.num_nodes / 2 } })
unfolding balance_lru_list balance_update_last_hot
balance_stay s t e = ground arith

-- As many hot lines as there should be: only the count is written again.
pub list-stay :
    (s : Lru) (hs cs : List ℕ)
    → IsLru true s hs cs
    → length (hs ++ cs) / 2 ≡ length hs
    → (t : Lru) × (balance_lru_list s ≡ some t) × IsLru true t hs cs
list-stay s hs cs v e = (
  record { nodes = s.nodes; list = record s.list { num_hot = s.list.num_nodes / 2 } },
  balance_stay s v.tracks (half ∙ sym v.hot_count),
  record {
    linked = v.linked;
    distinct = v.distinct;
    head = v.head;
    tail = v.tail;
    count = v.count;
    fits = v.fits;
    hot_count = half;
    last_hot = v.last_hot;
    are_hot = v.are_hot;
    are_cold = v.are_cold;
    tracks = v.tracks;
    untracked = v.untracked;
  },
)
  where
    half : s.list.num_nodes / 2 ≡ length hs
    half = ap (λ m. m / 2) v.count ∙ e

-- Without hot tracking nothing is moved.
pub list-untracked : (s : Lru) → s.list.track_hot ≡ false → balance_lru_list s ≡ some s
unfolding balance_lru_list
list-untracked s e = rw e refl
