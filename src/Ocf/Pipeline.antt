-- ===== src/Ocf/Pipeline.antt =====
-- overlaybd/src/overlaybd/cache/ocf_cache/ocf/src/utils/utils_pipeline.c: a sequence of steps, each of
-- which pushes the pipeline on or finishes it. A handler is a number. The request that carries the
-- pipeline through the queue is left out: a push is the next call of the step function.
pub mod Trace
pub mod Tests
use cora.Base.{
  ℕ, zero, suc, ◌+◌, List, [], ◌∷◌, Bool, true, false, Option, none, some, if◌then◌else◌, drop,
}

-- `struct ocf_pipeline_arg`
pub data Arg : Type 0 where
  none_arg : Arg
  int_arg : ℕ → Arg
  ptr_arg : ℕ → Arg
  end_arg : Arg

-- `struct ocf_pipeline_step`
pub data Step : Type 0 where
  single : ℕ → Arg → Step
  for_each : ℕ → List Arg → Step
  end_step : Step

-- `struct ocf_pipeline`; 0 is no error.
pub record Pipeline : Type 0 where
  pub steps : List Step
  pub next_step : ℕ
  pub next_arg : ℕ
  pub finish : Bool
  pub error : ℕ

-- What a run of the step function does: call a handler, with the indices it leaves, or `finish`. `stray`:
-- it reads past the end of an array.
pub data Ran : Type 0 where
  called : ℕ → Arg → ℕ → ℕ → Ran
  finished : Ran
  stray : Ran

abbrev pub first {ℓ} : {A : Type ℓ} → List A → Option A
first [] = none
first (x ∷ xs) = some x

-- The step for each of the arguments, from the one at hand; `onward` is `continue`.
abbrev pub run_arg : ℕ → Option Arg → ℕ → ℕ → Ran → Ran
run_arg h none i a onward = stray
run_arg h (some end_arg) i a onward = onward
run_arg h (some x) i a onward = called h x i (a + 1)

-- The loop of `_ocf_pipeline_run_step`, over the steps from `next_step` on.
pub run_loop : List Step → ℕ → ℕ → Ran
run_loop [] i a = stray
run_loop (single h x ∷ ss) i a = called h x (i + 1) a
run_loop (for_each h xs ∷ ss) i a =
    let onward = run_loop ss (i + 1) 0 in run_arg h (first (drop a xs)) i a onward
run_loop (end_step ∷ ss) i a = finished

-- `_ocf_pipeline_run_step`
unfoldable pub pipeline_run_step : Pipeline → Ran
pipeline_run_step p =
    if p.finish then finished else run_loop (drop p.next_step p.steps) p.next_step p.next_arg

-- `ocf_pipeline_create`
abbrev pub pipeline_create : List Step → Pipeline
pipeline_create steps = record {
  steps = steps;
  next_step = 0;
  next_arg = 0;
  finish = false;
  error = 0;
}

-- `ocf_pipeline_finish`, up to the push.
abbrev pub pipeline_finish : Pipeline → ℕ → Pipeline
pipeline_finish p error = record p { finish = true; error = error }

-- What a handler does with the pipeline: `ocf_pipeline_next`, or `ocf_pipeline_finish` with an error.
pub data Reply : Type 0 where
  go_on : Reply
  stop : ℕ → Reply

abbrev pub reply_to : Pipeline → Reply → Pipeline
reply_to p go_on = p
reply_to p (stop e) = pipeline_finish p e

-- A handler called before the others.
abbrev pub with_call : ℕ → Arg → Option (List (ℕ × Arg) × ℕ) → Option (List (ℕ × Arg) × ℕ)
with_call h x none = none
with_call h x (some (calls, e)) = some ((h, x) ∷ calls, e)

-- What follows a run of the step function; `more` is the rest of the drive.
abbrev pub after_run :
    (Pipeline → Option (List (ℕ × Arg) × ℕ))
    → (ℕ → Arg → Reply)
    → Pipeline
    → Ran
    → Option (List (ℕ × Arg) × ℕ)
after_run more reply p stray = none
after_run more reply p finished = some ([], p.error)
after_run more reply p (called h x i a) =
    with_call h x (more (reply_to (record p { next_step = i; next_arg = a }) (reply h x)))

-- The handlers called, and the error that `finish` is called with, from a pipeline on. The first number is
-- fuel: `none` where it runs out, or the pipeline reads astray.
unfoldable pub drive : (ℕ → Arg → Reply) → ℕ → Pipeline → Option (List (ℕ × Arg) × ℕ)
drive reply zero p = none
drive reply (suc fuel) p = after_run (drive reply fuel) reply p (pipeline_run_step p)
