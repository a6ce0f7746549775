-- ===== src/Ocf/Lru/Remove.antt =====
-- `remove_lru_list_nobalance` of ocf_lru.c, for a hot line and for a cold one.
use cora.Base.{
  ℕ, ◌^◌, ◌<◌, ◌≡◌, refl, ap, sym, subst, ◌∙◌, ◌≢◌, ◌⊎◌, inl, inr, List, [], ◌∷◌, ◌++◌, Bool, true,
  false, some, arith, ◌==◌, if◌then◌else◌, ne→==, length, length-append, dec_32,
}
use mathlib.Core.List.{append_assoc}
use cora.Ocf.Lru.{Lru, end_marker, remove_update_ptrs, clear_node, remove_lru_list_nobalance}
use cora.Ocf.Lru.Segment.{
  head_or, last_or, Seg, Fresh, Distinct, AllHot, Seg-update, Fresh-split, Fresh-append,
  AllHot-split, AllHot-append, last_or-Fresh, last_or-append,
}
use cora.Ocf.Lru.Shape.{IsLru}
use cora.Ocf.Lru.Unlink.{xor_self, Holds, around, apart, at_head, at_tail, joined}

module _ (s : Lru) (c : ℕ) where
  removed : Lru
  removed =
      let t = remove_update_ptrs s c in
      record {
        nodes = clear_node t.nodes c;
        list = record t.list {
          num_nodes = dec_32 t.list.num_nodes;
          num_hot = if (t.nodes c).hot then dec_32 t.list.num_hot else t.list.num_hot;
        };
      }

  removed-list :
      (removed.list.head ≡ (remove_update_ptrs s c).list.head)
      × (removed.list.tail ≡ (remove_update_ptrs s c).list.tail)
      × (removed.list.num_nodes ≡ dec_32 s.list.num_nodes)
      × (removed.list.num_hot ≡ (if (s.nodes c).hot then dec_32 s.list.num_hot else s.list.num_hot))
      × (removed.list.track_hot ≡ s.list.track_hot)
      × (removed.list.last_hot
          ≡ (if s.list.last_hot == c then (s.nodes c).prev else s.list.last_hot))
  unfolding removed
  removed-list = (refl, refl, ground arith, ground arith, ground arith, ground arith)

  removed-hot : (x : ℕ) → c ≢ x → (removed.nodes x).hot ≡ (s.nodes x).hot
  unfolding removed
  removed-hot x ne = ground arith

  removed-AllHot :
      (b : Bool) (xs : List ℕ) → Fresh c xs → AllHot s.nodes b xs → AllHot removed.nodes b xs
  removed-AllHot b [] f a = tt
  removed-AllHot b (x ∷ xs) f a = (removed-hot x f.0 ∙ a.0, removed-AllHot b xs f.1 a.1)

  removed-eq :
      c ≢ end_marker
      → ((s.nodes c).prev == end_marker) ≡ (s.list.head == c)
      → ((s.nodes c).next == end_marker) ≡ (s.list.tail == c)
      → remove_lru_list_nobalance s c ≡ some removed
  unfolding removed remove_lru_list_nobalance
  removed-eq ne a b =
      rw (ne→== c end_marker ne, a, b, xor_self (s.list.head == c), xor_self (s.list.tail == c))

-- The fields that do not depend on where the line stood.
removed_fields :
    (track : Bool) (s : Lru) (ys : List ℕ) (c : ℕ) (zs hs cs : List ℕ)
    → Holds s ys c zs
    → s.list.num_nodes ≡ length (ys ++ c ∷ zs)
    → s.list.num_nodes < 2 ^ 32
    → s.list.track_hot ≡ track
    → hs ++ cs ≡ ys ++ zs
    → (removed s c).list.num_hot ≡ length hs
    → (removed s c).list.last_hot ≡ last_or end_marker hs
    → AllHot (removed s c).nodes true hs
    → AllHot (removed s c).nodes false cs
    → (track ≡ true) ⊎ (hs ≡ [])
    → IsLru track (removed s c) hs cs
unfolding removed
removed_fields track s ys c zs hs cs v n fits tr e a b d g u =
    let j = joined s ys c zs v in
    let w = apart s ys c zs v in
    let t = remove_update_ptrs s c in
    record {
      linked =
          subst (λ xs. Seg (removed s c).nodes end_marker xs end_marker) (sym e)
            (Seg-update t.nodes c _ end_marker (ys ++ zs) end_marker (Fresh-append c ys zs w.1 w.2)
              j.linked);
      distinct = subst Distinct (sym e) w.3;
      head = (removed-list s c).0 ∙ j.head ∙ ap (λ xs. head_or xs end_marker) (sym e);
      tail = (removed-list s c).1 ∙ j.tail ∙ ap (last_or end_marker) (sym e);
      count = omega (
        arith,
        (removed-list s c).2,
        n,
        length-append ys (c ∷ zs),
        length-append ys zs,
        ap length e,
      );
      fits = omega (arith, (removed-list s c).2);
      hot_count = a;
      last_hot = b;
      are_hot = d;
      are_cold = g;
      tracks = (removed-list s c).4 ∙ tr;
      untracked = u;
    }

-- The last hot line, once a hot line is gone.
last_hot_after :
    (ys : List ℕ) (c : ℕ) (zs : List ℕ) (p l : ℕ)
    → Fresh c zs
    → p ≡ last_or end_marker ys
    → l ≡ last_or end_marker (ys ++ c ∷ zs)
    → (if l == c then p else l) ≡ last_or end_marker (ys ++ zs)
last_hot_after ys c [] p l f e e' =
    ground (arith, last_or-append end_marker ys (c ∷ []), last_or-append end_marker ys [])
last_hot_after ys c (z ∷ zs) p l f e e' = ground (
  arith,
  last_or-append end_marker ys (c ∷ z ∷ zs),
  last_or-append end_marker ys (z ∷ zs),
  last_or-Fresh c z zs f.0 f.1,
)

-- A line that is at hand is taken out, and every other line keeps its place and its flag.
module _ (track : Bool) (s : Lru) (c : ℕ) (ys zs : List ℕ) where
  pub remove-hot :
      (cs : List ℕ)
      → IsLru track s (ys ++ c ∷ zs) cs
      → (t : Lru) × (remove_lru_list_nobalance s c ≡ some t) × IsLru track t (ys ++ zs) cs
  remove-hot cs v = (
    removed s c,
    removed-eq s c w.0 (at_head s ys c (zs ++ cs) h) (at_tail s ys c (zs ++ cs) h),
    removed_fields track s ys c (zs ++ cs) (ys ++ zs) cs h (v.count ∙ ap length shape) v.fits
        v.tracks (append_assoc ys zs cs)
        (ground (
          arith,
          (removed-list s c).3,
          hot.1.0,
          v.hot_count,
          v.count,
          v.fits,
          length-append ys (c ∷ zs),
          length-append ys zs,
          length-append (ys ++ c ∷ zs) cs,
        ))
        ((removed-list s c).5
          ∙ last_hot_after ys c zs (s.nodes c).prev s.list.last_hot fz.0
              (around s ys c (zs ++ cs) h).1 v.last_hot)
        (removed-AllHot s c true (ys ++ zs) (Fresh-append c ys zs w.1 fz.0)
          (AllHot-append s.nodes true ys zs hot.0 hot.1.1))
        (removed-AllHot s c false cs fz.1 v.are_cold) (tracked v.untracked),
  )
    where
      shape : (ys ++ c ∷ zs) ++ cs ≡ ys ++ c ∷ (zs ++ cs)
      shape = append_assoc ys (c ∷ zs) cs

      h : Holds s ys c (zs ++ cs)
      h = record {
        linked = subst (λ xs. Seg s.nodes end_marker xs end_marker) shape v.linked;
        distinct = subst Distinct shape v.distinct;
        head = v.head ∙ ap (λ xs. head_or xs end_marker) shape;
        tail = v.tail ∙ ap (last_or end_marker) shape;
      }

      w : (c ≢ end_marker) × Fresh c ys × Fresh c (zs ++ cs) × Distinct (ys ++ (zs ++ cs))
      w = apart s ys c (zs ++ cs) h

      fz : Fresh c zs × Fresh c cs
      fz = Fresh-split c zs cs w.2

      hot : AllHot s.nodes true ys × AllHot s.nodes true (c ∷ zs)
      hot = AllHot-split s.nodes true ys (c ∷ zs) v.are_hot

      tracked : (track ≡ true) ⊎ (ys ++ c ∷ zs ≡ []) → (track ≡ true) ⊎ (ys ++ zs ≡ [])
      tracked (inl e) = inl e
      tracked (inr e) = absurd (omega (arith, ap length e, length-append ys (c ∷ zs)))

  pub remove-cold :
      (hs : List ℕ)
      → IsLru track s hs (ys ++ c ∷ zs)
      → (t : Lru) × (remove_lru_list_nobalance s c ≡ some t) × IsLru track t hs (ys ++ zs)
  remove-cold hs v = (
    removed s c,
    removed-eq s c w.0 (at_head s (hs ++ ys) c zs h) (at_tail s (hs ++ ys) c zs h),
    removed_fields track s (hs ++ ys) c zs hs (ys ++ zs) h (v.count ∙ ap length shape) v.fits
        v.tracks (sym (append_assoc hs ys zs))
        ((removed-list s c).3 ∙ ground (arith, cold.1.0, v.hot_count))
        ((removed-list s c).5 ∙ ground (arith, v.last_hot, last_or-Fresh c end_marker hs w.0 fh.0))
        (removed-AllHot s c true hs fh.0 v.are_hot)
        (removed-AllHot s c false (ys ++ zs) (Fresh-append c ys zs fh.1 w.2)
          (AllHot-append s.nodes false ys zs cold.0 cold.1.1))
        v.untracked,
  )
    where
      shape : hs ++ (ys ++ c ∷ zs) ≡ (hs ++ ys) ++ c ∷ zs
      shape = sym (append_assoc hs ys (c ∷ zs))

      h : Holds s (hs ++ ys) c zs
      h = record {
        linked = subst (λ xs. Seg s.nodes end_marker xs end_marker) shape v.linked;
        distinct = subst Distinct shape v.distinct;
        head = v.head ∙ ap (λ xs. head_or xs end_marker) shape;
        tail = v.tail ∙ ap (last_or end_marker) shape;
      }

      w : (c ≢ end_marker) × Fresh c (hs ++ ys) × Fresh c zs × Distinct ((hs ++ ys) ++ zs)
      w = apart s (hs ++ ys) c zs h

      fh : Fresh c hs × Fresh c ys
      fh = Fresh-split c hs ys w.1

      cold : AllHot s.nodes false ys × AllHot s.nodes false (c ∷ zs)
      cold = AllHot-split s.nodes false ys (c ∷ zs) v.are_cold
