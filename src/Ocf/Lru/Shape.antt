-- ===== src/Ocf/Lru/Shape.antt =====
-- What a list means: its hot lines and then its cold lines, most recently used first.
use cora.Base.{
  ℕ, ◌/◌, ◌^◌, ◌<◌, ◌≡◌, refl, ◌⊎◌, inr, List, [], ◌++◌, Bool, true, false, arith, length,
}
use cora.Ocf.Lru.{Nodes, Lru, end_marker, lru_init}
use cora.Ocf.Lru.Segment.{head_or, last_or, Seg, Distinct, AllHot}

pub record IsLru (track : Bool) (s : Lru) (hs cs : List ℕ) : Type 0 where
  pub linked : Seg s.nodes end_marker (hs ++ cs) end_marker
  pub distinct : Distinct (hs ++ cs)
  pub head : s.list.head ≡ head_or (hs ++ cs) end_marker
  pub tail : s.list.tail ≡ last_or end_marker (hs ++ cs)
  pub count : s.list.num_nodes ≡ length (hs ++ cs)
  pub fits : s.list.num_nodes < 2 ^ 32
  pub hot_count : s.list.num_hot ≡ length hs
  pub last_hot : s.list.last_hot ≡ last_or end_marker hs
  pub are_hot : AllHot s.nodes true hs
  pub are_cold : AllHot s.nodes false cs
  pub tracks : s.list.track_hot ≡ track
  pub untracked : (track ≡ true) ⊎ (hs ≡ [])

-- The hot half: where hot lines are tracked, half of the lines, rounded down.
abbrev pub IsBalanced : Bool → List ℕ → List ℕ → Type 0
IsBalanced true hs cs = length hs ≡ length (hs ++ cs) / 2
IsBalanced false hs cs = hs ≡ []

pub lru_init-IsLru :
    (track : Bool) (ns : Nodes) → IsLru track (record { nodes = ns; list = lru_init track }) [] []
lru_init-IsLru track ns = record {
  linked = tt;
  distinct = tt;
  head = refl;
  tail = refl;
  count = refl;
  fits = omega arith;
  hot_count = refl;
  last_hot = refl;
  are_hot = tt;
  are_cold = tt;
  tracks = refl;
  untracked = inr refl;
}
