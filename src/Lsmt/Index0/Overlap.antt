-- ===== src/Lsmt/Index0/Overlap.antt =====
-- `remove_partial_overlap` and the loop of `insert` of lsmt/index.cpp, on the part of a set that a new
-- mapping may overlap.
use cora.Base.{
  ℕ, ◌^◌, ◌≤◌, ◌<◌, ◌≡◌, refl, ap, ◌∙◌, List, [], ◌∷◌, ◌++◌, arith, le→ltb, lt→ltb, le→leb, lt→leb,
}
use cora.Lsmt.Segment.{SegmentMapping, end, forward_offset_to}
use cora.Lsmt.Layout.{IsMapping, suffix, prefix, forward-exact, backward-exact}
use cora.Lsmt.Index0.{
  set_insert, remove_partial_overlap, remove_middle, Removed, usage_add, usage_sub,
}

-- The five ways in which an element lies to the new range.
module _ (alloc : ℕ) (p : SegmentMapping) (offset e : ℕ) where
  pub removed-behind :
      e ≤ p.offset
      → offset ≤ e
      → remove_partial_overlap alloc p offset e ≡ record { stay = p ∷ []; alloc = alloc }
  unfolding remove_partial_overlap
  removed-behind a b = rw (le→ltb p.offset offset (omega arith), le→ltb p.offset e a) refl

  pub removed-inside :
      offset ≤ p.offset
      → p.offset < e
      → end p ≤ e
      → remove_partial_overlap alloc p offset e ≡ record { stay = []; alloc = usage_sub alloc p }
  unfolding remove_partial_overlap
  removed-inside a b c = rw (le→ltb p.offset offset a, lt→ltb p.offset e b, le→leb (end p) e c) refl

  both : SegmentMapping → SegmentMapping → Removed
  both f b = record {
    stay = set_insert b (f ∷ []);
    alloc = usage_add (usage_add (usage_sub alloc p) f) b;
  }

  module _ (g : IsMapping p) (fits : end p ≤ 2 ^ 50) where
    pub removed-tail :
        offset ≤ p.offset
        → p.offset < e
        → e < end p
        → remove_partial_overlap alloc p offset e
          ≡ record { stay = suffix p e ∷ []; alloc = usage_add (usage_sub alloc p) (suffix p e) }
    unfolding remove_partial_overlap
    removed-tail a b c =
        rw (le→ltb p.offset offset a, lt→ltb p.offset e b, lt→leb (end p) e c)
          (ap (λ b'. record { stay = b' ∷ []; alloc = usage_add (usage_sub alloc p) b' })
            (forward-exact p e g fits (omega arith) c))

    pub removed-head :
        p.offset < offset
        → offset < end p
        → end p ≤ e
        → remove_partial_overlap alloc p offset e ≡ record {
          stay = prefix p offset ∷ [];
          alloc = usage_add (usage_sub alloc p) (prefix p offset);
        }
    unfolding remove_partial_overlap
    removed-head a b c =
        rw (lt→ltb p.offset offset a, le→leb (end p) e c)
          (ap (λ f. record { stay = f ∷ []; alloc = usage_add (usage_sub alloc p) f })
            (backward-exact p offset g fits a (omega arith)))

    pub removed-split :
        p.offset < offset
        → offset < e
        → e < end p
        → remove_partial_overlap alloc p offset e ≡ record {
          stay = prefix p offset ∷ suffix p e ∷ [];
          alloc = usage_add (usage_add (usage_sub alloc p) (prefix p offset)) (suffix p e);
        }
    unfolding remove_partial_overlap set_insert both
    removed-split a b c =
        rw (lt→ltb p.offset offset a, lt→leb (end p) e c)
          (ap (λ f. both f (forward_offset_to p e)) (backward-exact p offset g fits a (omega arith))
            ∙ ap (both (prefix p offset)) (forward-exact p e g fits (omega arith) c)
            ∙ rw (le→leb (end (prefix p offset)) e (omega arith)) refl)

-- The three ways in the loop of `insert`.
module _ (alloc : ℕ) (p m : SegmentMapping) (ps : List SegmentMapping) where
  pub middle-behind :
      end m ≤ p.offset → remove_middle alloc (p ∷ ps) m ≡ record { stay = p ∷ ps; alloc = alloc }
  unfolding remove_middle
  middle-behind h = rw (le→ltb p.offset (end m) h) refl

  pub middle-inside :
      p.offset < end m
      → end p ≤ end m
      → remove_middle alloc (p ∷ ps) m ≡ remove_middle (usage_sub alloc p) ps m
  unfolding remove_middle
  middle-inside h k = rw (lt→ltb p.offset (end m) h, le→leb (end p) (end m) k) refl

  pub middle-tail :
      IsMapping p
      → end p ≤ 2 ^ 50
      → m.offset ≤ p.offset
      → p.offset < end m
      → end m < end p
      → remove_middle alloc (p ∷ ps) m ≡ record {
        stay = suffix p (end m) ∷ ps;
        alloc = usage_add (usage_sub alloc p) (suffix p (end m));
      }
  unfolding remove_middle
  middle-tail g fits a h k =
      rw (lt→ltb p.offset (end m) h, lt→leb (end p) (end m) k)
        (ap (λ (r : Removed). record { stay = r.stay ++ ps; alloc = r.alloc })
          (removed-tail alloc p m.offset (end m) g fits a h k))
