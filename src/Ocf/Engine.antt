-- ===== src/Ocf/Engine.antt =====
-- overlaybd/src/overlaybd/cache/ocf_cache/ocf/src/engine/cache_engine.c: the mode in which a request is
-- served, and the engine that serves it. The queue of requests and the engines are not modelled.
pub mod Modes
pub mod Tests
use cora.Base.{
  ℕ, zero, suc, ◌+◌, ◌-◌, ◌%◌, Bool, true, false, not, ◌&&◌, ◌||◌, Option, none, some, ltb, leb,
  ◌==◌, if◌then◌else◌,
}
use cora.Ocf.Err.{Status, ok, fail, inval, again}
use cora.Ocf.Refcnt.{Refcnt, refcnt_inc}

-- `ocf_cache_mode_t` and `ocf_req_cache_mode_t`; `no_mode` is -1 and `max_mode` ends the modes of requests.
pub data CacheMode : Type 0 where
  wt wb wa pt wi wo fast d2c max_mode no_mode : CacheMode

-- The functions that the interfaces name.
pub data Handler : Type 0 where
  read_generic write_wt write_wb write_wa write_wi read_pt read_wo : Handler
  read_fast write_fast discard io_d2c engine_ops : Handler

-- `struct ocf_io_if`, without the name.
pub record IoIf : Type 0 where
  pub read : Handler
  pub write : Handler

-- The entries of `IO_IFS` and of `cache_mode_io_if_map`; there is none past the end or before the start.
abbrev pub cache_mode_io_if_map : CacheMode → Option IoIf
cache_mode_io_if_map wt = some (record { read = read_generic; write = write_wt })
cache_mode_io_if_map wb = some (record { read = read_generic; write = write_wb })
cache_mode_io_if_map wa = some (record { read = read_generic; write = write_wa })
cache_mode_io_if_map wi = some (record { read = read_generic; write = write_wi })
cache_mode_io_if_map wo = some (record { read = read_wo; write = write_wb })
cache_mode_io_if_map pt = some (record { read = read_pt; write = write_wi })
cache_mode_io_if_map fast = some (record { read = read_fast; write = write_fast })
cache_mode_io_if_map d2c = some (record { read = io_d2c; write = io_d2c })
cache_mode_io_if_map _ = none

abbrev pub discard_if : IoIf
discard_if = record { read = discard; write = discard }

abbrev pub d2c_if : IoIf
d2c_if = record { read = io_d2c; write = io_d2c }

abbrev pub ops_if : IoIf
ops_if = record { read = engine_ops; write = engine_ops }

-- `ocf_get_io_if`
unfoldable pub get_io_if : CacheMode → Option IoIf
get_io_if max_mode = none
get_io_if m = cache_mode_io_if_map m

-- `ocf_cache_mode_is_valid`
abbrev pub cache_mode_is_valid : CacheMode → Bool
cache_mode_is_valid fast = false
cache_mode_is_valid d2c = false
cache_mode_is_valid max_mode = false
cache_mode_is_valid no_mode = false
cache_mode_is_valid _ = true

-- `ocf_req_cache_mode_has_lazy_write`
abbrev pub has_lazy_write : CacheMode → Bool
has_lazy_write wb = true
has_lazy_write wo = true
has_lazy_write _ = false

-- The part of the cache that the mode depends on.
pub record Cache : Type 0 where
  pub fallback_pt_error_counter : ℕ
  pub fallback_pt_error_threshold : ℕ
  pub pt_unaligned_io : Bool
  pub cachelines : ℕ
  pub cache_mode : CacheMode
  pub part_is_valid : ℕ → Bool
  pub part_cache_mode : ℕ → CacheMode
  pub dirty : Refcnt

-- `req->rw`: OCF_READ, OCF_WRITE, or anything else.
pub data Direction : Type 0 where
  reads writes other : Direction

pub record Request : Type 0 where
  pub is_d2c : Bool
  pub byte_position : ℕ
  pub byte_length : ℕ
  pub core_line_count : ℕ
  pub part_id : ℕ
  pub rw : Direction
  pub mode : CacheMode
  pub seq_cutoff : Bool
  pub dirty : Bool
  pub io_if : Option IoIf
  pub refs : ℕ

abbrev pub user_io_class_max : ℕ
user_io_class_max = 33

-- `ocf_fallback_pt_is_on`
abbrev pub fallback_pt_is_on : Cache → Bool
fallback_pt_is_on c =
    not (c.fallback_pt_error_threshold == 0)
    && leb c.fallback_pt_error_threshold c.fallback_pt_error_counter

-- `ocf_req_is_4k`
abbrev pub req_is_4k : ℕ → ℕ → Bool
req_is_4k addr bytes = not (not (addr % 4096 == 0) || not (bytes % 4096 == 0))

-- `ocf_user_part_class2id`; the default partition is 0.
abbrev pub class_to_id : Cache → ℕ → ℕ
class_to_id c class = if ltb class user_io_class_max && c.part_is_valid class then class else 0

-- `ocf_user_part_get_cache_mode`
abbrev pub part_mode : Cache → ℕ → CacheMode
part_mode c id = if ltb id user_io_class_max then c.part_cache_mode id else no_mode

-- The mode of the partition, or the cache's where that is none.
abbrev pub mode_or : CacheMode → CacheMode → CacheMode
mode_or m conf = if cache_mode_is_valid m then m else conf

-- `ocf_req_set_dirty`
abbrev pub req_set_dirty : Cache → Request → Status × Cache × Request
req_set_dirty c r =
    let i = refcnt_inc c.dirty in
    let dirty = not (i.0 == 0) in
    (if dirty then ok else fail again, record c { dirty = i.1 }, record r { dirty = dirty })

-- The last test of `ocf_resolve_effective_cache_mode`: a write that may stay in the cache is counted as
-- dirty, and is written through where that fails.
abbrev pub settle_write : Direction → Cache → Request → Cache × Request
settle_write writes c r =
    if has_lazy_write r.mode
    then (let (s, c', r') = req_set_dirty c r in
        (c', elim s [ ok ↦ r' | fail e ↦ record r' { mode = wt } ]))
    else (c, r)
settle_write _ c r = (c, r)

-- `ocf_resolve_effective_cache_mode`; `is_sequential` is what `ocf_core_seq_cutoff_check` answers.
unfoldable pub resolve_effective_cache_mode : Bool → Cache → Request → Cache × Request
resolve_effective_cache_mode is_sequential c r =
    let settled =
      settle_write r.rw c
        (record r { mode = mode_or (part_mode c (class_to_id c r.part_id)) c.cache_mode }) in
    if r.is_d2c
    then (c, record r { mode = d2c })
    else (if fallback_pt_is_on c
        then (c, record r { mode = pt })
        else (if c.pt_unaligned_io && not (req_is_4k r.byte_position r.byte_length)
            then (c, record r { mode = pt })
            else (if ltb c.cachelines r.core_line_count
                then (c, record r { mode = pt })
                else (if is_sequential
                    then (c, record r { mode = pt; seq_cutoff = true })
                    else settled))))

-- `ocf_engine_hndl_req`, up to the queue that the request is pushed on.
abbrev pub queue_with : Request → Option IoIf → Status × Request
queue_with r none = (fail inval, record r { io_if = none })
queue_with r (some i) = (ok, record r { io_if = some i; refs = r.refs + 1 })

unfoldable pub engine_hndl_req : Request → Status × Request
engine_hndl_req r = queue_with r (get_io_if r.mode)

-- `OCF_FAST_PATH_NO`
abbrev pub fast_path_no : ℕ
fast_path_no = 13

-- What `ocf_engine_hndl_fast_req` calls; `run` is what the engines return.
abbrev pub fast_ret : (Handler → ℕ) → Direction → IoIf → ℕ
fast_ret run reads i = run i.read
fast_ret run writes i = run i.write
fast_ret run other i = fast_path_no

-- `ocf_engine_hndl_fast_req`: the error or the value returned, and the request.
abbrev pub fast_with : (Handler → ℕ) → Request → Option IoIf → Option ℕ × Request
fast_with run r none = (none, r)
fast_with run r (some i) =
    let ret = fast_ret run r.rw i in
    let got = record r { refs = r.refs + 1 } in
    (some ret, if ret == fast_path_no then record got { refs = got.refs - 1 } else got)

unfoldable pub engine_hndl_fast_req : (Handler → ℕ) → Request → Option ℕ × Request
engine_hndl_fast_req run r = fast_with run r (get_io_if r.mode)

-- The function of an interface for a direction; `none` is ENV_BUG.
abbrev pub handler_of : Direction → IoIf → Option Handler
handler_of reads i = some i.read
handler_of writes i = some i.write
handler_of other i = none

-- `ocf_engine_hndl_discard_req`, with `ocf_engine_hndl_2dc_req`: the function called.
unfoldable pub engine_hndl_discard_req : Request → Option Handler × Request
engine_hndl_discard_req r =
    (handler_of r.rw (if r.is_d2c then d2c_if else discard_if), record r { refs = r.refs + 1 })

-- `ocf_engine_hndl_ops_req`, up to the queue.
unfoldable pub engine_hndl_ops_req : Request → Request
engine_hndl_ops_req r = record r {
  refs = r.refs + 1;
  io_if = some (if r.is_d2c then d2c_if else ops_if);
}
