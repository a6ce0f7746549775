-- ===== src/Ocf/AsyncLock.antt =====
-- overlaybd/src/overlaybd/cache/ocf_cache/ocf/src/utils/utils_async_lock.c: a reader-writer lock whose waiters are completed by the thread that
-- unlocks. Each function holds `waiters_lock` while it touches the state, so a call is one step.
-- An operation returns the new lock and the waiters that it completes, in order; `none` is ENV_BUG.
pub mod Collect
pub mod Exclusion
pub mod Tests
use cora.Base.{
  ℕ, zero, suc, ◌+◌, ◌-◌, ◌%◌, ◌^◌, List, [], ◌∷◌, ◌++◌, map, Bool, true, false, ◌||◌, not, Option,
  none, some, inc_32, dec_32, ltb, ◌==◌, if◌then◌else◌,
}
use cora.Ocf.Err.{OcfErr, no_lock, no_mem, Status, ok, fail}

-- `struct ocf_async_lock_waiter`; `id` stands for its completion function and private data.
pub record Waiter : Type 0 where
  pub id : ℕ
  pub write_lock : Bool

-- `struct ocf_async_lock`
pub record AsyncLock : Type 0 where
  pub waiters : List Waiter
  pub rd : ℕ  -- uint32_t
  pub wr : ℕ  -- uint32_t
  pub waiter_priv_size : ℕ

-- `iter->cmpl(iter, status)`
abbrev pub Completion : Type 0
Completion = Waiter × Status

abbrev pub Outcome : Type 0
Outcome = Option (AsyncLock × List Completion)

-- What the loop of `_ocf_async_lock_collect_waiters` leaves: counters, list, and waiters moved.
pub record Collected : Type 0 where
  pub rd : ℕ
  pub wr : ℕ
  pub left : List Waiter
  pub moved : List Waiter

unfoldable pub collect_waiters : ℕ → ℕ → List Waiter → Collected
collect_waiters rd wr [] = record { rd = rd; wr = wr; left = []; moved = [] }
collect_waiters rd wr (w ∷ ws) =
    let r = collect_waiters (inc_32 rd) wr ws in
    let shared = record r { moved = w ∷ r.moved } in
    if not w.write_lock
    then shared
    else (if rd == 0
        then record { rd = rd; wr = 1; left = ws; moved = w ∷ [] }
        else record { rd = rd; wr = wr; left = w ∷ ws; moved = [] })

-- `_ocf_async_lock_run_waiters`
abbrev pub run_waiters : List Waiter → Status → List Completion
run_waiters ws status = map (λ w. (w, status)) ws

-- `ocf_async_lock_init`; the first argument is what `env_spinlock_init` returns.
pub init : Status → ℕ → Status × Option AsyncLock
init ok size = (ok, some (record { waiters = []; rd = 0; wr = 0; waiter_priv_size = size }))
init (fail e) size = (fail e, none)

-- `ocf_async_lock_deinit`: every waiter is told that it has no lock.
pub deinit : AsyncLock → List Completion
deinit l = run_waiters l.waiters (fail no_lock)

-- `_ocf_async_trylock`
abbrev pub trylock_raw : AsyncLock → Status × AsyncLock
trylock_raw l = if ltb 0 l.wr || ltb 0 l.rd then (fail no_lock, l) else (ok, record l { wr = 1 })

-- `ocf_async_trylock`
unfoldable pub trylock : AsyncLock → Status × AsyncLock
trylock l = trylock_raw l

-- `ocf_async_lock`: complete the waiter at once, or queue it as a writer.
unfoldable pub lock : AsyncLock → ℕ → Outcome
lock l id =
    let w : Waiter = record { id = id; write_lock = true } in
    elim (trylock_raw l).0 [
      | ok ↦ some ((trylock_raw l).1, (w, ok) ∷ [])
      | fail _ ↦ some (record l { waiters = l.waiters ++ w ∷ [] }, [])
    ]

abbrev pub hand_over : AsyncLock → Outcome
hand_over l =
    let c = collect_waiters l.rd l.wr l.waiters in
    some (record l { waiters = c.left; rd = c.rd; wr = c.wr }, run_waiters c.moved ok)

-- `ocf_async_unlock`
unfoldable pub unlock : AsyncLock → Outcome
unlock l =
    if ltb 0 l.rd then none else (if l.wr == 0 then none else hand_over (record l { wr = 0 }))

-- `list_empty(&lock->waiters)`
abbrev pub is_empty : List Waiter → Bool
is_empty [] = true
is_empty (w ∷ ws) = false

-- `_ocf_async_read_trylock`
abbrev pub read_trylock_raw : AsyncLock → Status × AsyncLock
read_trylock_raw l =
    if ltb 0 l.wr || not (is_empty l.waiters)
    then (fail no_lock, l)
    else (ok, record l { rd = inc_32 l.rd })

-- `ocf_async_read_trylock`
unfoldable pub read_trylock : AsyncLock → Status × AsyncLock
read_trylock l = read_trylock_raw l

-- `ocf_async_read_lock`
unfoldable pub read_lock : AsyncLock → ℕ → Outcome
read_lock l id =
    let w : Waiter = record { id = id; write_lock = false } in
    elim (read_trylock_raw l).0 [
      | ok ↦ some ((read_trylock_raw l).1, (w, ok) ∷ [])
      | fail _ ↦ some (record l { waiters = l.waiters ++ w ∷ [] }, [])
    ]

-- `ocf_async_read_unlock`. `--lock->rd` runs only where `rd` is not zero.
unfoldable pub read_unlock : AsyncLock → Outcome
read_unlock l =
    if l.rd == 0
    then none
    else (if ltb 0 l.wr
        then none
        else (let l' = record l { rd = dec_32 l.rd } in
            if ltb 0 l'.rd then some (l', []) else hand_over l'))

-- `ocf_async_is_locked`
unfoldable pub is_locked : AsyncLock → Bool
is_locked l = ltb 0 l.rd || ltb 0 l.wr
