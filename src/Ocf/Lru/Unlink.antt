-- ===== src/Ocf/Lru/Unlink.antt =====
-- `remove_update_ptrs` of ocf_lru.c, for a line in the middle and at either end.
use cora.Base.{
  ℕ, ◌≡◌, refl, ap, sym, subst, ◌∙◌, ◌≢◌, List, [], ◌∷◌, ◌++◌, Bool, true, false, arith, ◌==◌,
}
use mathlib.Core.Bool.{xor}
use mathlib.Core.List.{append-nil}
use cora.Ocf.Lru.{Lru, end_marker, set_prev, set_next, remove_update_ptrs}
use cora.Ocf.Lru.Segment.{
  head_or, last_or, Seg, Fresh, Distinct, Seg-join, Seg-split, Seg-set_next, Seg-set_prev,
  Distinct-middle, Distinct-split, last_or-ne, last_or-Fresh, last_or-append,
}

pub xor_self : (b : Bool) → xor b b ≡ false
unfolding xor
xor_self true = refl
xor_self false = refl

-- A list of lines with `c` among them, as the code sees it.
pub record Holds (s : Lru) (ys : List ℕ) (c : ℕ) (zs : List ℕ) : Type 0 where
  pub linked : Seg s.nodes end_marker (ys ++ c ∷ zs) end_marker
  pub distinct : Distinct (ys ++ c ∷ zs)
  pub head : s.list.head ≡ head_or (ys ++ c ∷ zs) end_marker
  pub tail : s.list.tail ≡ last_or end_marker (ys ++ c ∷ zs)

module _ (s : Lru) (ys : List ℕ) (c : ℕ) (zs : List ℕ) (v : Holds s ys c zs) where
  pub around :
      Seg s.nodes end_marker ys c
      × ((s.nodes c).prev ≡ last_or end_marker ys)
      × ((s.nodes c).next ≡ head_or zs end_marker)
      × Seg s.nodes c zs end_marker
  around =
      let r = Seg-split s.nodes end_marker ys (c ∷ zs) end_marker v.linked in
      (r.0, r.1.0, r.1.1, r.1.2)

  pub apart : (c ≢ end_marker) × Fresh c ys × Fresh c zs × Distinct (ys ++ zs)
  apart = Distinct-middle ys c zs v.distinct

pub at_head :
    (s : Lru) (ys : List ℕ) (c : ℕ) (zs : List ℕ)
    → Holds s ys c zs
    → ((s.nodes c).prev == end_marker) ≡ (s.list.head == c)
at_head s [] c zs v = ground (arith, (around s [] c zs v).1, v.head)
at_head s (y ∷ ys) c zs v =
    let a = apart s (y ∷ ys) c zs v in
    let y_ne : y ≢ end_marker = v.distinct.0 in
    ground (
      arith,
      (around s (y ∷ ys) c zs v).1,
      v.head,
      a.1.0,
      last_or-ne y ys y_ne (Distinct-split (y ∷ ys) (c ∷ zs) v.distinct).0.2,
    )

pub at_tail :
    (s : Lru) (ys : List ℕ) (c : ℕ) (zs : List ℕ)
    → Holds s ys c zs
    → ((s.nodes c).next == end_marker) ≡ (s.list.tail == c)
at_tail s ys c [] v =
    ground (arith, (around s ys c [] v).2, v.tail, last_or-append end_marker ys (c ∷ []))
at_tail s ys c (z ∷ zs) v =
    let a = apart s ys c (z ∷ zs) v in
    let z_ne : z ≢ end_marker = (Distinct-split ys (z ∷ zs) a.3).1.0 in
    ground (
      arith,
      (around s ys c (z ∷ zs) v).2,
      v.tail,
      z_ne,
      last_or-append end_marker ys (c ∷ z ∷ zs),
      last_or-Fresh c z zs a.2.0 a.2.1,
    )

-- What `remove_update_ptrs` leaves: the list without the line.
pub record Joined (s t : Lru) (ys : List ℕ) (c : ℕ) (zs : List ℕ) : Type 0 where
  pub linked : Seg t.nodes end_marker (ys ++ zs) end_marker
  pub head : t.list.head ≡ head_or (ys ++ zs) end_marker
  pub tail : t.list.tail ≡ last_or end_marker (ys ++ zs)

ptrs_inner :
    (s : Lru) (c : ℕ)
    → (s.nodes c).prev ≢ end_marker
    → (s.nodes c).next ≢ end_marker
    → ((remove_update_ptrs s c).list.head ≡ s.list.head)
      × ((remove_update_ptrs s c).list.tail ≡ s.list.tail)
      × ((remove_update_ptrs s c).nodes
          ≡ set_prev
              (set_next s.nodes (s.nodes c).prev (s.nodes c).next)
              (s.nodes c).next
              (s.nodes c).prev)
ptrs_inner s c a b = ground arith

ptrs_tail :
    (s : Lru) (c : ℕ)
    → (s.nodes c).prev ≢ end_marker
    → (s.nodes c).next ≡ end_marker
    → ((remove_update_ptrs s c).list.head ≡ s.list.head)
      × ((remove_update_ptrs s c).list.tail ≡ (s.nodes c).prev)
ptrs_tail s c a b = ground arith

pub joined :
    (s : Lru) (ys : List ℕ) (c : ℕ) (zs : List ℕ)
    → Holds s ys c zs
    → Joined s (remove_update_ptrs s c) ys c zs
joined s [] c [] v =
    let r = around s [] c [] v in
    record { linked = tt; head = ground (arith, r.1, r.2); tail = ground (arith, r.1, r.2) }
joined s [] c (z ∷ zs) v =
    let r = around s [] c (z ∷ zs) v in
    let a = apart s [] c (z ∷ zs) v in
    let same : (remove_update_ptrs s c).nodes ≡ set_prev s.nodes z end_marker =
      ground (arith, r.1, r.2, a.3.0) in
    record {
      linked =
          subst (λ ns. Seg ns end_marker (z ∷ zs) end_marker) (sym same)
            (Seg-set_prev s.nodes c end_marker z zs end_marker a.3 r.3);
      head = ground (arith, r.1, r.2, a.3.0);
      tail = ground (arith, r.1, r.2, a.3.0, v.tail);
    }
joined s (y ∷ ys) c [] v =
    let r = around s (y ∷ ys) c [] v in
    let d = (Distinct-split (y ∷ ys) (c ∷ []) v.distinct).0 in
    let l = last_or y ys in
    let l_ne : l ≢ end_marker = last_or-ne y ys d.0 d.2 in
    let same : (remove_update_ptrs s c).nodes ≡ set_next s.nodes l end_marker =
      ground (arith, r.1, r.2, l_ne) in
    let at_end = ptrs_tail s c (λ e. l_ne (sym r.1 ∙ e)) r.2 in
    let whole : y ∷ ys ≡ (y ∷ ys) ++ [] = sym (append-nil (y ∷ ys)) in
    record {
      linked =
          subst (λ ns. Seg ns end_marker ((y ∷ ys) ++ []) end_marker) (sym same)
            (subst (λ xs. Seg (set_next s.nodes l end_marker) end_marker xs end_marker) whole
              (Seg-set_next s.nodes end_marker y ys c end_marker d r.0));
      head = at_end.0 ∙ v.head;
      tail = at_end.1 ∙ r.1 ∙ ap (last_or end_marker) whole;
    }
joined s (y ∷ ys) c (z ∷ zs) v =
    let r = around s (y ∷ ys) c (z ∷ zs) v in
    let a = apart s (y ∷ ys) c (z ∷ zs) v in
    let d = Distinct-split (y ∷ ys) (z ∷ zs) a.3 in
    let l = last_or y ys in
    let l_ne : l ≢ end_marker = last_or-ne y ys d.0.0 d.0.2 in
    let z_ne : z ≢ end_marker = d.1.0 in
    let inner = ptrs_inner s c (λ e. l_ne (sym r.1 ∙ e)) (λ e. z_ne (sym r.2 ∙ e)) in
    let same : (remove_update_ptrs s c).nodes ≡ set_prev (set_next s.nodes l z) z l =
      inner.2 ∙ (λ i. set_prev (set_next s.nodes (r.1 i) (r.2 i)) (r.2 i) (r.1 i)) in
    record {
      linked =
          subst (λ ns. Seg ns end_marker ((y ∷ ys) ++ z ∷ zs) end_marker) (sym same)
            (Seg-join s.nodes c end_marker y ys z zs c end_marker a.3 r.0 r.3);
      head = inner.0 ∙ v.head;
      tail =
          inner.1
          ∙ v.tail
          ∙ last_or-append end_marker (y ∷ ys) (c ∷ z ∷ zs)
          ∙ sym (last_or-append end_marker (y ∷ ys) (z ∷ zs));
    }
