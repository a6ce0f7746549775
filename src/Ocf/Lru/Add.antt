-- ===== src/Ocf/Lru/Add.antt =====
-- `add_lru_head_nobalance` of ocf_lru.c, on an empty list and on others, with hot tracking and without.
use cora.Base.{
  ℕ, ◌+◌, ◌^◌, ◌<◌, ◌≡◌, refl, ap, sym, subst, ◌∙◌, ◌≢◌, ◌⊎◌, inl, inr, List, [], ◌∷◌, ◌++◌, Bool,
  true, false, some, arith, if◌then◌else◌, ne→==, length, inc_32, length-append,
}
use cora.Ocf.Lru.{
  Nodes, Lru, end_marker, set_prev, set_next, set_hot, add_first, add_before_head,
  add_lru_head_nobalance,
}
use cora.Ocf.Lru.Segment.{
  head_or, last_or, Seg, Fresh, Distinct, AllHot, Seg-update, Seg-congr, Seg-set_prev, Fresh-split,
}
use cora.Ocf.Lru.Shape.{IsLru}

-- The nodes after the writes of `add_lru_head_nobalance` on a list with head `h`, but for `hot`.
abbrev linked_at : Nodes → ℕ → ℕ → Nodes
linked_at ns c h = set_prev (set_prev (set_next (set_hot ns c false) c h) c end_marker) h c

module _ (ns : Nodes) (c h : ℕ) (r : List ℕ) (fresh : Fresh c (h ∷ r))
    (distinct : Distinct (h ∷ r)) where
  linked_at-Seg :
      Seg ns end_marker (h ∷ r) end_marker
      → Seg (linked_at ns c h) end_marker (c ∷ h ∷ r) end_marker
  linked_at-Seg s = (
    ground arith,
    ground arith,
    Seg-set_prev (set_prev (set_next (set_hot ns c false) c h) c end_marker) end_marker c h r
        end_marker distinct
        (Seg-update (set_next (set_hot ns c false) c h) c _ end_marker (h ∷ r) end_marker fresh (
          Seg-update (set_hot ns c false) c _ end_marker (h ∷ r) end_marker fresh
            (Seg-update ns c _ end_marker (h ∷ r) end_marker fresh s))),
  )

-- `add_lru_head_nobalance` on an empty list.
pub add-first :
    (track : Bool) (s : Lru) (c : ℕ)
    → IsLru track s [] []
    → c ≢ end_marker
    → (t : Lru) × (add_lru_head_nobalance s c ≡ some t) × IsLru track t [] (c ∷ [])
unfolding add_lru_head_nobalance
add-first track s c v ne = (
  add_first (set_hot s.nodes c false) s.list c,
  rw (ne→== c end_marker ne, v.count),
  record {
    linked = (ground arith, ground arith, tt);
    distinct = (ne, tt, tt);
    head = refl;
    tail = refl;
    count = refl;
    fits = omega arith;
    hot_count = v.hot_count;
    last_hot = v.last_hot;
    are_hot = tt;
    are_cold = (ground arith, tt);
    tracks = v.tracks;
    untracked = v.untracked;
  },
)

-- A list that is not empty passes the assertions.
add-some :
    (track : Bool) (s : Lru) (hs cs : List ℕ) (c h : ℕ) (r : List ℕ)
    → IsLru track s hs cs
    → hs ++ cs ≡ h ∷ r
    → c ≢ end_marker
    → add_lru_head_nobalance s c ≡ some (add_before_head (set_hot s.nodes c false) s.list c)
unfolding add_lru_head_nobalance
add-some track s hs cs c h r v e ne =
    ground (arith, v.count, v.head, ap length e, ap (λ xs. head_or xs end_marker) e, e_ne)
  where
    e_ne : h ≢ end_marker
    e_ne = (subst Distinct e v.distinct).0

-- The links after the writes, whatever becomes of the hot flag.
relinked :
    (track : Bool) (s : Lru) (hs cs : List ℕ) (c h : ℕ) (r : List ℕ)
    → IsLru track s hs cs
    → hs ++ cs ≡ h ∷ r
    → Fresh c (hs ++ cs)
    → Seg (linked_at s.nodes c s.list.head) end_marker (c ∷ (hs ++ cs)) end_marker
relinked track s hs cs c h r v e f =
    subst (λ h'. Seg (linked_at s.nodes c h') end_marker (c ∷ (hs ++ cs)) end_marker)
      (sym (v.head ∙ ap (λ xs. head_or xs end_marker) e))
      (subst (λ xs. Seg (linked_at s.nodes c h) end_marker (c ∷ xs) end_marker) (sym e)
        (linked_at-Seg s.nodes c h r (subst (Fresh c) e f) (subst Distinct e v.distinct)
          (subst (λ xs. Seg s.nodes end_marker xs end_marker) e v.linked)))

module _ (s : Lru) (c : ℕ) where
  before : Nodes
  before = set_hot s.nodes c false

  added : Lru
  unfolding before
  added = add_before_head before s.list c

  added-links :
      (x : ℕ)
      → ((added.nodes x).prev ≡ (linked_at s.nodes c s.list.head x).prev)
        × ((added.nodes x).next ≡ (linked_at s.nodes c s.list.head x).next)
  unfolding added
  added-links x = ground arith

  added-list :
      (added.list.head ≡ c)
      × (added.list.tail ≡ s.list.tail)
      × (added.list.num_nodes ≡ inc_32 s.list.num_nodes)
      × (added.list.track_hot ≡ s.list.track_hot)
  unfolding added
  added-list = ground arith

  added-hot : (x : ℕ) → c ≢ x → (added.nodes x).hot ≡ (s.nodes x).hot
  unfolding added
  added-hot x ne = ground arith

  added-AllHot :
      (b : Bool) (xs : List ℕ) → Fresh c xs → AllHot s.nodes b xs → AllHot added.nodes b xs
  added-AllHot b [] f a = tt
  added-AllHot b (x ∷ xs) f a = (added-hot x f.0 ∙ a.0, added-AllHot b xs f.1 a.1)

  added-tracked :
      s.list.track_hot ≡ true
      → ((added.nodes c).hot ≡ true)
        × (added.list.num_hot ≡ inc_32 s.list.num_hot)
        × (c ≢ s.list.head
            → added.list.last_hot ≡ (if (s.nodes s.list.head).hot then s.list.last_hot else c))
  unfolding added
  added-tracked e = ground arith

  added-untracked :
      s.list.track_hot ≡ false
      → c ≢ s.list.head
      → ((added.nodes c).hot ≡ false)
        × (added.list.num_hot ≡ s.list.num_hot)
        × (added.list.last_hot ≡ s.list.last_hot)
  unfolding added
  added-untracked e ne = ground arith

  -- The fields that do not depend on hot tracking.
  added_fields :
      (track : Bool) (hs cs hs' cs' : List ℕ) (h : ℕ) (r : List ℕ)
      → IsLru track s hs cs
      → hs ++ cs ≡ h ∷ r
      → c ≢ end_marker
      → Fresh c (hs ++ cs)
      → s.list.num_nodes + 1 < 2 ^ 32
      → hs' ++ cs' ≡ c ∷ (hs ++ cs)
      → added.list.num_hot ≡ length hs'
      → added.list.last_hot ≡ last_or end_marker hs'
      → AllHot added.nodes true hs'
      → AllHot added.nodes false cs'
      → (track ≡ true) ⊎ (hs' ≡ [])
      → IsLru track added hs' cs'
  added_fields track hs cs hs' cs' h r v e ne f fits e' a b d g u =
      let xs = hs ++ cs in
      record {
        linked =
            subst (λ ys. Seg added.nodes end_marker ys end_marker) (sym e')
              (Seg-congr (linked_at s.nodes c s.list.head) added.nodes added-links end_marker
                (c ∷ xs) end_marker (relinked track s hs cs c h r v e f));
        distinct = subst Distinct (sym e') (ne, f, v.distinct);
        head = added-list.0 ∙ ap (λ ys. head_or ys end_marker) (sym e');
        tail =
            added-list.1
            ∙ v.tail
            ∙ ap (last_or end_marker) e
            ∙ sym (ap (last_or c) e)
            ∙ ap (last_or end_marker) (sym e');
        count = omega (arith, added-list.2, v.count, ap length e');
        fits = omega (arith, added-list.2);
        hot_count = a;
        last_hot = b;
        are_hot = d;
        are_cold = g;
        tracks = added-list.3 ∙ v.tracks;
        untracked = u;
      }

add-added :
    (track : Bool) (s : Lru) (hs cs : List ℕ) (c h : ℕ) (r : List ℕ)
    → IsLru track s hs cs
    → hs ++ cs ≡ h ∷ r
    → c ≢ end_marker
    → add_lru_head_nobalance s c ≡ some (added s c)
unfolding added
add-added track s hs cs c h r v e ne = add-some track s hs cs c h r v e ne

-- The last hot line, where the new one is hot.
last_hot-tracked :
    (s : Lru) (hs cs : List ℕ) (c h : ℕ) (r : List ℕ)
    → IsLru true s hs cs
    → hs ++ cs ≡ h ∷ r
    → Fresh c (hs ++ cs)
    → (added s c).list.last_hot ≡ last_or c hs
last_hot-tracked s [] (x ∷ cs) c h r v e f =
    (added-tracked s c v.tracks).2 (λ eq. f.0 (eq ∙ v.head)) ∙ ground (arith, v.head, v.are_cold)
last_hot-tracked s (x ∷ hs) cs c h r v e f =
    (added-tracked s c v.tracks).2 (λ eq. f.0 (eq ∙ v.head))
    ∙ ground (arith, v.head, v.are_hot, v.last_hot)
last_hot-tracked s [] [] c h r v e f = cc

-- Added to a tracked list that is not empty, the line is the first hot one.
pub add-tracked :
    (s : Lru) (hs cs : List ℕ) (c h : ℕ) (r : List ℕ)
    → IsLru true s hs cs
    → hs ++ cs ≡ h ∷ r
    → c ≢ end_marker
    → Fresh c (hs ++ cs)
    → s.list.num_nodes + 1 < 2 ^ 32
    → (t : Lru) × (add_lru_head_nobalance s c ≡ some t) × IsLru true t (c ∷ hs) cs
add-tracked s hs cs c h r v e ne f fits =
    let apart = Fresh-split c hs cs f in
    (
      added s c,
      add-added true s hs cs c h r v e ne,
      added_fields s c true hs cs (c ∷ hs) cs h r v e ne f fits refl
          (omega (
            arith,
            (added-tracked s c v.tracks).1,
            v.hot_count,
            v.count,
            v.fits,
            length-append hs cs,
          ))
          (last_hot-tracked s hs cs c h r v e f)
          ((added-tracked s c v.tracks).0, added-AllHot s c true hs apart.0 v.are_hot)
          (added-AllHot s c false cs apart.1 v.are_cold) (inl refl),
    )

-- Added to a list whose hot lines are not tracked, the line is cold.
pub add-untracked :
    (s : Lru) (cs : List ℕ) (c h : ℕ) (r : List ℕ)
    → IsLru false s [] cs
    → cs ≡ h ∷ r
    → c ≢ end_marker
    → Fresh c cs
    → s.list.num_nodes + 1 < 2 ^ 32
    → (t : Lru) × (add_lru_head_nobalance s c ≡ some t) × IsLru false t [] (c ∷ cs)
add-untracked s cs c h r v e ne f fits = (
  added s c,
  add-added false s [] cs c h r v e ne,
  added_fields s c false [] cs [] (c ∷ cs) h r v e ne f fits refl (cold.1 ∙ v.hot_count)
      (cold.2 ∙ v.last_hot) tt (cold.0, added-AllHot s c false cs f v.are_cold) (inr refl),
)
  where
    apart : c ≢ s.list.head
    apart = λ eq. (subst (Fresh c) e f).0 (eq ∙ v.head ∙ ap (λ xs. head_or xs end_marker) e)

    cold :
        (((added s c).nodes c).hot ≡ false)
        × ((added s c).list.num_hot ≡ s.list.num_hot)
        × ((added s c).list.last_hot ≡ s.list.last_hot)
    cold = added-untracked s c v.tracks apart
