-- ===== src/Ocf/Lru.antt =====
-- overlaybd/src/overlaybd/cache/ocf_cache/ocf/src/ocf_lru.c: the LRU lists of cache lines, doubly linked through the metadata of the lines,
-- with a hot half at the head. A function that hits ENV_BUG_ON returns `none`.
pub mod Segment
pub mod Shape
pub mod Add
pub mod Unlink
pub mod Remove
pub mod Balance
pub mod Border
pub mod Refine
pub mod Tests
use cora.Base.{
  ℕ, zero, suc, ◌+◌, ◌-◌, ◌*◌, ◌/◌, ◌%◌, ◌^◌, Bool, true, false, not, ◌&&◌, ◌||◌, Option, none,
  some, ltb, leb, ◌==◌, ◌>>=◌, if◌then◌else◌, update, inc_32, dec_32,
}
use mathlib.Core.Bool.{xor}

-- `struct ocf_lru_meta`
pub record Meta : Type 0 where
  pub prev : ℕ
  pub next : ℕ
  pub hot : Bool

-- `struct ocf_lru_list`
pub record LruList : Type 0 where
  pub num_nodes : ℕ
  pub head : ℕ
  pub tail : ℕ
  pub num_hot : ℕ
  pub last_hot : ℕ
  pub track_hot : Bool

-- What `ocf_metadata_get_lru` reads and writes through: the LRU metadata of each cache line.
abbrev pub Nodes : Type 0
Nodes = ℕ → Meta

-- The list, with the metadata it runs through.
pub record Lru : Type 0 where
  pub nodes : Nodes
  pub list : LruList

abbrev pub end_marker : ℕ
end_marker = 2 ^ 32 - 1

abbrev pub lru_hot_ratio : ℕ
lru_hot_ratio = 2

-- `node->prev = v` and so on, for the node of line `i`.
abbrev pub set_prev : Nodes → ℕ → ℕ → Nodes
set_prev ns i v = update ns i (record (ns i) { prev = v })

abbrev pub set_next : Nodes → ℕ → ℕ → Nodes
set_next ns i v = update ns i (record (ns i) { next = v })

abbrev pub set_hot : Nodes → ℕ → Bool → Nodes
set_hot ns i v = update ns i (record (ns i) { hot = v })

-- The argument `change` of `balance_update_last_hot`, by its sign. `grow` and `shrink` carry how far.
pub data Change : Type 0 where
  grow : ℕ → Change
  shrink : ℕ → Change
  stay : Change

-- `target_hot_count - list->num_hot`, as an `int`.
abbrev pub change_of : ℕ → ℕ → Change
change_of target num_hot =
    if ltb num_hot target
    then grow (target - num_hot)
    else (if ltb target num_hot then shrink (num_hot - target) else stay)

-- `balance_update_last_hot`: the list with its new `last_hot`, and the pivot.
pub balance_update_last_hot : Nodes → LruList → Change → Option (LruList × ℕ)
balance_update_last_hot ns l (grow k) =
    if not (k == 1)
    then none
    else (if l.last_hot == end_marker
        then some (record l { last_hot = l.head }, l.head)
        else (let n = (ns l.last_hot).next in
            if n == end_marker then none else some (record l { last_hot = n }, n)))
balance_update_last_hot ns l (shrink k) =
    if not (k == 1)
    then none
    else (if l.last_hot == end_marker
        then none
        else some (record l { last_hot = (ns l.last_hot).prev }, l.last_hot))
balance_update_last_hot ns l stay = some (l, end_marker)

-- `change >= 0`
abbrev pub is_nonneg : Change → Bool
is_nonneg (shrink k) = false
is_nonneg _ = true

abbrev pub mark_pivot : Nodes → Change → Option (LruList × ℕ) → Option Lru
mark_pivot ns c none = none
mark_pivot ns c (some (l, pivot)) =
    if pivot == end_marker
    then some (record { nodes = ns; list = l })
    else some (record { nodes = set_hot ns pivot (is_nonneg c); list = l })

-- `balance_lru_list`
pub balance_lru_list : Lru → Option Lru
balance_lru_list s =
    let target = s.list.num_nodes / lru_hot_ratio in
    let change = change_of target s.list.num_hot in
    if not s.list.track_hot
    then some s
    else mark_pivot s.nodes change
        (balance_update_last_hot s.nodes (record s.list { num_hot = target }) change)

-- The first node of an empty list.
abbrev pub add_first : Nodes → LruList → ℕ → Lru
add_first ns l c = record {
  nodes = set_prev (set_next ns c end_marker) c end_marker;
  list = record l { head = c; tail = c; num_nodes = 1 };
}

-- A node before the head that there is.
abbrev pub add_before_head : Nodes → LruList → ℕ → Lru
add_before_head ns l c =
    let linked = set_prev (set_prev (set_next ns c l.head) c end_marker) l.head c in
    if l.track_hot
    then record {
      nodes = set_hot linked c true;
      list = record l {
        head = c;
        num_nodes = inc_32 l.num_nodes;
        num_hot = inc_32 l.num_hot;
        last_hot = if not (set_hot linked c true l.head).hot then c else l.last_hot;
      };
    }
    else record { nodes = linked; list = record l { head = c; num_nodes = inc_32 l.num_nodes } }

-- `add_lru_head_nobalance`
pub add_lru_head_nobalance : Lru → ℕ → Option Lru
add_lru_head_nobalance s c =
    let ns = set_hot s.nodes c false in
    if c == end_marker
    then none
    else (if s.list.num_nodes == 0
        then some (add_first ns s.list c)
        else (if s.list.head == end_marker then none else some (add_before_head ns s.list c)))

-- `remove_update_ptrs`
abbrev pub remove_update_ptrs : Lru → ℕ → Lru
remove_update_ptrs s c =
    let node = s.nodes c in
    let is_head = node.prev == end_marker in
    let is_tail = node.next == end_marker in
    let last_hot = if s.list.last_hot == c then node.prev else s.list.last_hot in
    if is_head && is_tail
    then record {
      nodes = s.nodes;
      list = record s.list { head = end_marker; tail = end_marker; last_hot = last_hot };
    }
    else (if is_head
        then record {
          nodes = set_prev s.nodes node.next end_marker;
          list = record s.list { head = node.next; last_hot = last_hot };
        }
        else (if is_tail
            then record {
              nodes = set_next s.nodes node.prev end_marker;
              list = record s.list { tail = node.prev; last_hot = last_hot };
            }
            else record {
              nodes = set_prev (set_next s.nodes node.prev node.next) node.next node.prev;
              list = record s.list { last_hot = last_hot };
            }))

-- `node->next = node->prev = end_marker; node->hot = false`
abbrev pub clear_node : Nodes → ℕ → Nodes
clear_node ns c = update ns c (record { prev = end_marker; next = end_marker; hot = false })

-- `remove_lru_list_nobalance`
pub remove_lru_list_nobalance : Lru → ℕ → Option Lru
remove_lru_list_nobalance s c =
    let is_head = s.list.head == c in
    let is_tail = s.list.tail == c in
    let node = s.nodes c in
    let t = remove_update_ptrs s c in
    if c == end_marker
    then none
    else (if xor is_head (node.prev == end_marker)
        then none
        else (if xor is_tail (node.next == end_marker)
            then none
            else some (record {
              nodes = clear_node t.nodes c;
              list = record t.list {
                num_nodes = dec_32 t.list.num_nodes;
                num_hot = if (t.nodes c).hot then dec_32 t.list.num_hot else t.list.num_hot;
              };
            })))

-- `add_lru_head`
unfoldable pub add_lru_head : Lru → ℕ → Option Lru
add_lru_head s c = do t ← add_lru_head_nobalance s c; balance_lru_list t

-- `remove_lru_list`
unfoldable pub remove_lru_list : Lru → ℕ → Option Lru
remove_lru_list s c = do t ← remove_lru_list_nobalance s c; balance_lru_list t

-- `ocf_lru_set_hot`
unfoldable pub ocf_lru_set_hot : Lru → ℕ → Option Lru
ocf_lru_set_hot s c = do
  t ← remove_lru_list_nobalance s c
  u ← add_lru_head_nobalance t c
  balance_lru_list u

-- `_lru_init`
abbrev pub lru_init : Bool → LruList
lru_init track_hot = record {
  num_nodes = 0;
  head = end_marker;
  tail = end_marker;
  num_hot = 0;
  last_hot = end_marker;
  track_hot = track_hot;
}
