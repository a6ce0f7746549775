-- ===== src/Ocf/Refcnt.antt =====
-- overlaybd/src/overlaybd/cache/ocf_cache/ocf/src/utils/utils_refcnt.c: a counter of users that can be
-- frozen, and a callback for the moment when it drops to zero. Calls run one at a time, so `freeze` reads
-- the same twice in `inc`. The counters are ints of 32 bits that wrap
-- around, kept modulo 2 ^ 32: from 2 ^ 31 on they are negative. `none` is ENV_BUG_ON.
pub mod Users
pub mod Tests
use cora.Base.{
  ℕ, zero, suc, ◌+◌, ◌-◌, Bool, true, false, not, ◌&&◌, Option, none, some, leb, ◌==◌, ◌%◌, ◌^◌,
  if◌then◌else◌,
}

-- `struct ocf_refcnt`; `callback` is 0 or 1.
pub record Refcnt : Type 0 where
  pub counter : ℕ
  pub freeze : ℕ
  pub callback : Bool

-- A call that may fire the callback: what it returns, whether it fired, and the state after.
pub record Fired : Type 0 where
  pub value : ℕ
  pub fired : Bool
  pub state : Refcnt

-- `env_atomic_inc_return` and `env_atomic_dec_return`
abbrev pub atomic_inc : ℕ → ℕ
atomic_inc v = (v + 1) % 2 ^ 32

abbrev pub atomic_dec : ℕ → ℕ
atomic_dec v = (v + (2 ^ 32 - 1)) % 2 ^ 32

-- `val < 0`
abbrev pub is_negative : ℕ → Bool
is_negative v = leb (2 ^ 31) v

-- `ocf_refcnt_init`
abbrev pub refcnt_init : Refcnt
refcnt_init = record { counter = 0; freeze = 0; callback = false }

-- `ocf_refcnt_dec`
unfoldable pub refcnt_dec : Refcnt → Option Fired
refcnt_dec rc =
    let val = atomic_dec rc.counter in
    let fires = val == 0 && rc.callback in
    if is_negative val
    then none
    else some (record {
      value = val;
      fired = fires;
      state = record rc { counter = val; callback = if fires then false else rc.callback };
    })

-- `ocf_refcnt_inc`
unfoldable pub refcnt_inc : Refcnt → ℕ × Refcnt
refcnt_inc rc =
    if rc.freeze == 0
    then (atomic_inc rc.counter, record rc { counter = atomic_inc rc.counter })
    else (0, rc)

-- `ocf_refcnt_freeze`
abbrev pub refcnt_freeze : Refcnt → Refcnt
refcnt_freeze rc = record rc { freeze = atomic_inc rc.freeze }

-- `ocf_refcnt_register_zero_cb`
unfoldable pub refcnt_register_zero_cb : Refcnt → Option Fired
refcnt_register_zero_cb rc =
    if rc.freeze == 0
    then none
    else (if rc.callback
        then none
        else refcnt_dec (record rc { counter = atomic_inc rc.counter; callback = true }))

-- `ocf_refcnt_unfreeze`
unfoldable pub refcnt_unfreeze : Refcnt → Option Refcnt
refcnt_unfreeze rc =
    let val = atomic_dec rc.freeze in
    if is_negative val then none else some (record rc { freeze = val })

-- `ocf_refcnt_frozen`
abbrev pub refcnt_frozen : Refcnt → Bool
refcnt_frozen rc = not (rc.freeze == 0)
