-- ===== src/Ocf/Lru/Tests.antt =====
-- Lists of two lines and of none, and what the operations make of them.
use cora.Base.{refl, inl, [], ◌∷◌, true, false, arith, ◌==◌, if◌then◌else◌}
use cora.Ocf.Lru.{Nodes, Lru, end_marker, lru_init, add_lru_head, remove_lru_list, ocf_lru_set_hot}
use cora.Ocf.Lru.Shape.{IsLru, lru_init-IsLru}
use cora.Ocf.Lru.Border.{Holds, Yields}
use cora.Ocf.Lru.Refine.{add_lru_head-Holds, remove_lru_list-Holds, ocf_lru_set_hot-Holds}

abbrev unused_nodes : Nodes
unused_nodes i = record { prev = end_marker; next = end_marker; hot = false }

abbrev no_lines : Lru
no_lines = record { nodes = unused_nodes; list = lru_init true }

-- Line 5, hot, before line 7, cold.
abbrev two_lines : Lru
two_lines = record {
  nodes = λ i.
      if i == 5
      then record { prev = end_marker; next = 7; hot = true }
      else record { prev = 5; next = end_marker; hot = false };
  list = record { num_nodes = 2; head = 5; tail = 7; num_hot = 1; last_hot = 5; track_hot = true };
}

no_lines-Holds : Holds true no_lines []
no_lines-Holds = ([], [], lru_init-IsLru true unused_nodes, omega arith, refl)

two_lines-IsLru : IsLru true two_lines (5 ∷ []) (7 ∷ [])
two_lines-IsLru = record {
  linked = ((refl, refl, (refl, refl, tt)));
  distinct =
      ((λ e. omega (arith, e)), ((λ e. omega (arith, e)), tt), ((λ e. omega (arith, e)), tt, tt));
  head = refl;
  tail = refl;
  count = refl;
  fits = omega arith;
  hot_count = refl;
  last_hot = refl;
  are_hot = (refl, tt);
  are_cold = (refl, tt);
  tracks = refl;
  untracked = inl refl;
}

two_lines-Holds : Holds true two_lines (5 ∷ 7 ∷ [])
two_lines-Holds = (5 ∷ [], 7 ∷ [], two_lines-IsLru, omega arith, refl)

add_lru_head-Holds_example : Yields true (add_lru_head two_lines 9) (9 ∷ 5 ∷ 7 ∷ [])
add_lru_head-Holds_example =
    add_lru_head-Holds true two_lines (5 ∷ 7 ∷ []) 9 two_lines-Holds (λ e. omega (arith, e))
      ((λ e. omega (arith, e)), ((λ e. omega (arith, e)), tt)) (omega arith)

remove_lru_list-Holds_example : Yields true (remove_lru_list two_lines 5) (7 ∷ [])
remove_lru_list-Holds_example = remove_lru_list-Holds true two_lines [] 5 (7 ∷ []) two_lines-Holds

ocf_lru_set_hot-Holds_example : Yields true (ocf_lru_set_hot two_lines 7) (7 ∷ 5 ∷ [])
ocf_lru_set_hot-Holds_example = ocf_lru_set_hot-Holds true two_lines (5 ∷ []) 7 [] two_lines-Holds
