-- ===== src/Ocf/Pipeline/Tests.antt =====
-- A pipeline of three steps, whose last handler but one fails.
use cora.Base.{ℕ, ◌≡◌, refl, List, [], ◌∷◌, some, arith, ◌==◌, if◌then◌else◌}
use cora.Ocf.Pipeline.{
  Arg, none_arg, int_arg, end_arg, Step, single, for_each, end_step, Reply, go_on, stop,
  pipeline_create, drive,
}
use cora.Ocf.Pipeline.Trace.{step_calls, upto, drive-upto}

abbrev three_steps : List Step
three_steps =
    single 1 none_arg
    ∷ for_each 2 (int_arg 10 ∷ int_arg 20 ∷ end_arg ∷ [])
    ∷ single 3 none_arg
    ∷ end_step
    ∷ []

-- Handler 2 fails with error 7.
abbrev second_fails : ℕ → Arg → Reply
second_fails h x = if h == 2 then stop 7 else go_on

upto_test : upto second_fails (step_calls three_steps) ≡ ((1, none_arg) ∷ (2, int_arg 10) ∷ [], 7)
upto_test = refl

drive-upto_example :
    drive second_fails 5 (pipeline_create three_steps)
    ≡ some (upto second_fails (step_calls three_steps))
drive-upto_example = drive-upto second_fails three_steps 5 (tt, tt) (omega arith)
