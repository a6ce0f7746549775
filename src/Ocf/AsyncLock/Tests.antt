-- ===== src/Ocf/AsyncLock/Tests.antt =====
-- A lock that a writer holds while two readers and a writer wait.
use cora.Base.{◌+◌, ◌≤◌, ◌<◌, ◌≡◌, refl, ◌⊎◌, inl, inr, List, [], ◌∷◌, true, false, some, arith}
use cora.Ocf.AsyncLock.{Waiter, collect_waiters, lock, read_lock}
use cora.Ocf.AsyncLock.Collect.{IsFair, collect_waiters-IsFair}
use cora.Ocf.AsyncLock.Exclusion.{
  System, locks, read_locks, unlocks, step, Inv, Good, step-Good, start, here, next,
  Reach-exclusive,
}

abbrev queue : List Waiter
queue =
    record { id = 1; write_lock = false }
    ∷ record { id = 2; write_lock = false }
    ∷ record { id = 3; write_lock = true }
    ∷ []

-- The same three behind a writer.
abbrev behind_writer : List Waiter
behind_writer = record { id = 4; write_lock = true } ∷ queue

abbrev written : System
written = record {
  state = record { waiters = behind_writer; rd = 0; wr = 1; waiter_priv_size = 0 };
  reading = 0;
  writing = 1;
}

written-Inv : Inv written
written-Inv = record {
  counted = refl;
  held = refl;
  one = omega arith;
  exclusive = inr refl;
  awake = inr (omega arith);
  writer_first = inl refl;
  fits = omega arith;
}

collect_waiters-IsFair_example : IsFair 0 queue (collect_waiters 0 0 queue)
collect_waiters-IsFair_example = collect_waiters-IsFair 0 queue (omega arith)

step-Good_example : Good (step unlocks written)
step-Good_example = step-Good unlocks written written-Inv (omega arith)

-- After a lock, and after a read lock that has to wait.
abbrev locked : System
locked = record {
  state = record { waiters = []; rd = 0; wr = 1; waiter_priv_size = 8 };
  reading = 0;
  writing = 1;
}

abbrev waited_for : System
waited_for = record {
  state = record {
    waiters = record { id = 2; write_lock = false } ∷ [];
    rd = 0;
    wr = 1;
    waiter_priv_size = 8;
  };
  reading = 0;
  writing = 1;
}

locked-step : step (locks 1) (start 8) ≡ some locked
unfolding step lock
locked-step = refl

waited_for-step : step (read_locks 2) locked ≡ some waited_for
unfolding step read_lock
waited_for-step = refl

Reach-exclusive_example :
    (waited_for.writing ≤ 1)
    × ((waited_for.writing ≡ 0) ⊎ (waited_for.reading ≡ 0))
    × ((waited_for.state.waiters ≡ []) ⊎ (0 < waited_for.reading + waited_for.writing))
Reach-exclusive_example = Reach-exclusive (
    next (read_locks 2) (next (locks 1) here (omega arith) locked-step) (omega arith)
      waited_for-step)
