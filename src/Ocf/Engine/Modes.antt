-- ===== src/Ocf/Engine/Modes.antt =====
-- The modes of cache_engine.c: what a request is resolved to, and whether an engine takes it.
use cora.Base.{
  ◌≡◌, refl, ap, ◌⊎◌, inl, inr, Bool, true, false, not, ◌&&◌, ◌||◌, arith, ltb, ◌==◌, if◌then◌else◌,
  Bool-cases,
}
use cora.Ocf.Err.{ok, fail}
use cora.Ocf.Refcnt.{atomic_inc, refcnt_inc, refcnt_frozen}
use cora.Ocf.Engine.{
  CacheMode, wt, wb, wa, pt, wi, wo, fast, d2c, max_mode, no_mode, Cache, Request, Direction, reads,
  writes, other, get_io_if, cache_mode_is_valid, has_lazy_write, fallback_pt_is_on, req_is_4k,
  class_to_id, part_mode, mode_or, req_set_dirty, settle_write, resolve_effective_cache_mode,
  queue_with, engine_hndl_req,
}

-- The request is one of those that go past the cache whatever its class says.
abbrev pub is_bypass : Bool → Cache → Request → Bool
is_bypass is_sequential c r =
    fallback_pt_is_on c
    || (c.pt_unaligned_io && not (req_is_4k r.byte_position r.byte_length))
    || ltb c.cachelines r.core_line_count
    || is_sequential

abbrev pub is_write : Direction → Bool
is_write writes = true
is_write _ = false

-- What the resolved request and the cache must satisfy.
record IsSettled (c : Cache) (rw : Direction) (out : Cache × Request) : Type 0 where
  -- The mode is one of the configuration's.
  valid : cache_mode_is_valid out.1.mode ≡ true
  -- A write that may stay in the cache has been counted as dirty.
  counted :
      (is_write rw ≡ false)
      ⊎ (has_lazy_write out.1.mode ≡ false)
      ⊎ ((out.1.dirty ≡ true) × (out.0.dirty.counter ≡ atomic_inc c.dirty.counter))
  -- None may while the count is frozen.
  barred :
      (is_write rw ≡ false) ⊎ (has_lazy_write out.1.mode ≡ false) ⊎ (refcnt_frozen c.dirty ≡ false)

mode_or-valid :
    (m conf : CacheMode)
    → cache_mode_is_valid conf ≡ true
    → cache_mode_is_valid (mode_or m conf) ≡ true
mode_or-valid m conf v = elim (Bool-cases (cache_mode_is_valid m)) [
  | inl e ↦ rw e e
  | inr e ↦ rw e v
]

settle-IsSettled :
    (rw : Direction) (c : Cache) (r : Request)
    → cache_mode_is_valid r.mode ≡ true
    → IsSettled c rw (settle_write rw c r)
unfolding refcnt_inc
settle-IsSettled reads c r v = record { valid = v; counted = inl refl; barred = inl refl }
settle-IsSettled other c r v = record { valid = v; counted = inl refl; barred = inl refl }
settle-IsSettled writes c r v = elim (Bool-cases (has_lazy_write r.mode)) [
  | inr l ↦ rw l (record { valid = v; counted = inr (inl l); barred = inr (inl l) })
  | inl l ↦ rw l (lazy (Bool-cases (c.dirty.freeze == 0)))
]
  where
    lazy :
        (c.dirty.freeze == 0 ≡ true) ⊎ (c.dirty.freeze == 0 ≡ false)
        → IsSettled c writes (
          (req_set_dirty c r).1,
          elim (req_set_dirty c r).0 [
            | ok ↦ (req_set_dirty c r).2
            | fail e ↦ record (req_set_dirty c r).2 { mode = wt }
          ],
        )
    lazy (inl free) = record { valid = ground arith; counted = ground arith; barred = ground arith }
    lazy (inr frozen) = record {
      valid = ground arith;
      counted = ground arith;
      barred = ground arith;
    }

-- What the mode is resolved to: direct to the core for a request that says so, else pass-through for one
-- that goes past the cache, both with the cache untouched, and else a settled mode.
pub IsResolved : Bool → Bool → Cache → Direction → Cache × Request → Type 0
IsResolved true past c rw out = (out.0 ≡ c) × (out.1.mode ≡ d2c)
IsResolved false true c rw out = (out.0 ≡ c) × (out.1.mode ≡ pt)
IsResolved false false c rw out = IsSettled c rw out

-- The order of the tests does not matter to the mode.
bypass_chain :
    (seq : Bool) (c : Cache) (r : Request) (settled : Cache × Request)
    → IsSettled c r.rw settled
    → IsResolved r.is_d2c (is_bypass seq c r) c r.rw (
        if r.is_d2c
        then (c, record r { mode = d2c })
        else (if fallback_pt_is_on c
            then (c, record r { mode = pt })
            else (if c.pt_unaligned_io && not (req_is_4k r.byte_position r.byte_length)
                then (c, record r { mode = pt })
                else (if ltb c.cachelines r.core_line_count
                    then (c, record r { mode = pt })
                    else (if seq
                        then (c, record r { mode = pt; seq_cutoff = true })
                        else settled)))))
unfolding IsResolved
bypass_chain seq c r settled s = elim (Bool-cases r.is_d2c) [
  | inl e ↦ rw e (refl, refl)
  | inr e ↦ elim (Bool-cases (fallback_pt_is_on c)) [
    | inl f ↦ rw (e, f) (refl, refl)
    | inr f ↦
        elim (Bool-cases (c.pt_unaligned_io && not (req_is_4k r.byte_position r.byte_length))) [
          | inl g ↦ rw (e, f, g) (refl, refl)
          | inr g ↦ elim (Bool-cases (ltb c.cachelines r.core_line_count)) [
            | inl h ↦ rw (e, f, g, h) (refl, refl)
            | inr h ↦ elim (Bool-cases seq) [
              | inl i ↦ rw (e, f, g, h, i) (refl, refl)
              | inr i ↦ rw (e, f, g, h, i) s
            ]
          ]
        ]
  ]
]

-- With a valid mode in the cache's configuration, the mode of a request is d2c if it says so; else
-- pass-through if the cache has fallen back, it is not aligned where that matters, it is larger than the
-- cache, or it is sequential; else a valid mode, which lets a write stay in the cache only if the write
-- has been counted as dirty, and never while that count is frozen.
pub resolve_effective_cache_mode-IsResolved :
    (is_sequential : Bool) (c : Cache) (r : Request)
    → cache_mode_is_valid c.cache_mode ≡ true
    → IsResolved r.is_d2c
        (is_bypass is_sequential c r)
        c
        r.rw
        (resolve_effective_cache_mode is_sequential c r)
unfolding resolve_effective_cache_mode
resolve_effective_cache_mode-IsResolved seq c r v =
    let m = mode_or (part_mode c (class_to_id c r.part_id)) c.cache_mode in
    bypass_chain seq c r (settle_write r.rw c (record r { mode = m })) (
      settle-IsSettled r.rw c (record r { mode = m })
        (mode_or-valid (part_mode c (class_to_id c r.part_id)) c.cache_mode v))

-- A mode that a request can be resolved to.
abbrev is_served : CacheMode → Bool
is_served d2c = true
is_served m = cache_mode_is_valid m

served-handled :
    (r : Request) (m : CacheMode) → is_served m ≡ true → (queue_with r (get_io_if m)).0 ≡ ok
unfolding get_io_if
served-handled r wt e = refl
served-handled r wb e = refl
served-handled r wa e = refl
served-handled r pt e = refl
served-handled r wi e = refl
served-handled r wo e = refl
served-handled r d2c e = refl
served-handled r fast e = cc
served-handled r max_mode e = cc
served-handled r no_mode e = cc

valid-served : (m : CacheMode) → cache_mode_is_valid m ≡ true → is_served m ≡ true
valid-served d2c e = refl
valid-served wt e = refl
valid-served wb e = refl
valid-served wa e = refl
valid-served pt e = refl
valid-served wi e = refl
valid-served wo e = refl
valid-served fast e = cc
valid-served max_mode e = cc
valid-served no_mode e = cc

resolved-served :
    (d past : Bool) (c : Cache) (rw : Direction) (out : Cache × Request)
    → IsResolved d past c rw out
    → is_served out.1.mode ≡ true
unfolding IsResolved
resolved-served true past c rw out i = ap is_served i.1
resolved-served false true c rw out i = ap is_served i.1
resolved-served false false c rw out i = valid-served out.1.mode i.valid

-- With a valid mode in the cache's configuration, a request whose mode has been resolved is never refused
-- by the engine: there is an interface for its mode.
pub engine_hndl_req-resolved :
    (is_sequential : Bool) (c : Cache) (r : Request)
    → cache_mode_is_valid c.cache_mode ≡ true
    → (engine_hndl_req (resolve_effective_cache_mode is_sequential c r).1).0 ≡ ok
unfolding engine_hndl_req
engine_hndl_req-resolved seq c r v =
    let out = resolve_effective_cache_mode seq c r in
    served-handled out.1 out.1.mode (
      resolved-served r.is_d2c (is_bypass seq c r) c r.rw out
        (resolve_effective_cache_mode-IsResolved seq c r v))
