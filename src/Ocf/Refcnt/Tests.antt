-- ===== src/Ocf/Refcnt/Tests.antt =====
-- A counter with one user that is frozen and waited for.
use cora.Base.{◌≤◌, ◌≡◌, refl, inl, true, false, some, arith}
use cora.Ocf.Refcnt.{refcnt_dec, refcnt_inc, refcnt_register_zero_cb}
use cora.Ocf.Refcnt.Users.{
  System, incs, decs, registers, advance, Inv, Good, advance-Good, done, next, Run-frozen,
}

-- One user, frozen once.
abbrev frozen_once : System
frozen_once = record {
  state = record { counter = 1; freeze = 1; callback = false };
  users = 1;
  freezers = 1;
  registered = 0;
  fired = 0;
}

-- The same once a callback is registered.
abbrev waited_for : System
waited_for = record {
  state = record { counter = 1; freeze = 1; callback = true };
  users = 1;
  freezers = 1;
  registered = 1;
  fired = 0;
}

-- The same once the user has left.
abbrev drained : System
drained = record {
  state = record { counter = 0; freeze = 1; callback = false };
  users = 0;
  freezers = 1;
  registered = 1;
  fired = 1;
}

frozen_once-Inv : Inv frozen_once
frozen_once-Inv = record {
  counted = refl;
  frozen = refl;
  few_users = omega arith;
  few_freezers = omega arith;
  awaited = refl;
  in_use = inl refl;
}

registers_test : advance registers frozen_once ≡ some waited_for
unfolding advance refcnt_register_zero_cb refcnt_dec
registers_test = refl

decs_test : advance decs waited_for ≡ some drained
unfolding advance refcnt_dec
decs_test = refl

incs_test : advance incs waited_for ≡ some waited_for
unfolding advance refcnt_inc
incs_test = refl

advance-Good_example : Good (advance registers frozen_once)
advance-Good_example = advance-Good registers frozen_once frozen_once-Inv (omega arith, refl)

Run-frozen_example : (drained.users ≤ frozen_once.users) × Inv drained
Run-frozen_example =
    Run-frozen
      (next registers (omega arith, refl) registers_test
        (next incs (omega arith) incs_test (next decs (omega arith) decs_test done)))
      frozen_once-Inv (omega arith, (omega arith, (omega arith, omega arith)))
