-- ===== src/Ocf/Pipeline/Trace.antt =====
-- The calls that a pipeline of utils_pipeline.c makes, against the list of its steps.
use cora.Base.{
  ℕ, zero, suc, ◌+◌, ◌<◌, ◌≡◌, refl, ap, sym, subst, ◌∙◌, List, [], ◌∷◌, ◌++◌, false, some, arith,
  length, drop,
}
use cora.Ocf.Pipeline.{
  Arg, none_arg, int_arg, ptr_arg, end_arg, Step, single, for_each, end_step, Pipeline, Ran, called,
  finished, stray, first, run_arg, run_loop, pipeline_run_step, pipeline_create, pipeline_finish,
  Reply, go_on, stop, reply_to, with_call, after_run, drive,
}

-- The calls that a step with arguments makes.
abbrev pub arg_calls : ℕ → List Arg → List (ℕ × Arg)
arg_calls h [] = []
arg_calls h (end_arg ∷ xs) = []
arg_calls h (x ∷ xs) = (h, x) ∷ arg_calls h xs

-- The calls that the steps make.
abbrev pub step_calls : List Step → List (ℕ × Arg)
step_calls [] = []
step_calls (single h x ∷ ss) = (h, x) ∷ step_calls ss
step_calls (for_each h xs ∷ ss) = arg_calls h xs ++ step_calls ss
step_calls (end_step ∷ ss) = []

-- The arguments end with a terminator, and so do the steps.
abbrev pub ArgsEnd : List Arg → Type 0
ArgsEnd [] = ⊥
ArgsEnd (end_arg ∷ xs) = Unit {0}
ArgsEnd (x ∷ xs) = ArgsEnd xs

abbrev pub StepsEnd : List Step → Type 0
StepsEnd [] = ⊥
StepsEnd (single h x ∷ ss) = StepsEnd ss
StepsEnd (for_each h xs ∷ ss) = ArgsEnd xs × StepsEnd ss
StepsEnd (end_step ∷ ss) = Unit {0}

-- The calls of a list up to the first that finishes the pipeline, and the error that it finishes with.
abbrev pub upto_with : ℕ × Arg → Reply → List (ℕ × Arg) × ℕ → List (ℕ × Arg) × ℕ
upto_with c go_on (cs, e) = (c ∷ cs, e)
upto_with c (stop e) r = (c ∷ [], e)

abbrev pub upto : (ℕ → Arg → Reply) → List (ℕ × Arg) → List (ℕ × Arg) × ℕ
upto reply [] = ([], 0)
upto reply ((h, x) ∷ cs) = upto_with (h, x) (reply h x) (upto reply cs)

drop-suc :
    {A : Type 0} (n : ℕ) (xs : List A) (y : A) (ys : List A)
    → drop n xs ≡ y ∷ ys
    → drop (n + 1) xs ≡ ys
drop-suc zero [] y ys e = cc
drop-suc zero (x ∷ xs) y ys e = cc
drop-suc (suc n) [] y ys e = cc
drop-suc (suc n) (x ∷ xs) y ys e =
    ap (λ k. drop k (x ∷ xs)) {x = suc n + 1} {y = suc (n + 1)} (omega arith) ∙ drop-suc n xs y ys e

-- Where a pipeline stands: at step `i` and argument `a`, with these calls to come.
data At (steps : List Step) : ℕ → ℕ → List (ℕ × Arg) → Type 0 where
  at_start :
      {i : ℕ} (ss : List Step) → drop i steps ≡ ss → StepsEnd ss → At steps i 0 (step_calls ss)
  at_arg :
      {i a : ℕ} (h : ℕ) (xs ys : List Arg) (ss : List Step)
      → drop i steps ≡ for_each h xs ∷ ss
      → drop a xs ≡ ys
      → ArgsEnd ys
      → StepsEnd ss
      → At steps i a (arg_calls h ys ++ step_calls ss)

-- What the step function does there.
abbrev Moves : List Step → List (ℕ × Arg) → Ran → Type 0
Moves steps cs stray = ⊥
Moves steps cs finished = cs ≡ []
Moves steps cs (called h x i a) = (rest : List (ℕ × Arg)) × (cs ≡ (h, x) ∷ rest) × At steps i a rest

args-Moves :
    (steps : List Step) (i a h : ℕ) (xs ys : List Arg) (ss : List Step) (onward : Ran)
    → drop i steps ≡ for_each h xs ∷ ss
    → drop a xs ≡ ys
    → ArgsEnd ys
    → StepsEnd ss
    → Moves steps (step_calls ss) onward
    → Moves steps (arg_calls h ys ++ step_calls ss) (run_arg h (first ys) i a onward)
args-Moves steps i a h xs [] ss onward e f u v m = absurd u
args-Moves steps i a h xs (end_arg ∷ ys) ss onward e f u v m = m
args-Moves steps i a h xs (none_arg ∷ ys) ss onward e f u v m =
    (arg_calls h ys ++ step_calls ss, refl, at_arg h xs ys ss e (drop-suc a xs none_arg ys f) u v)
args-Moves steps i a h xs (int_arg n ∷ ys) ss onward e f u v m = (
  arg_calls h ys ++ step_calls ss,
  refl,
  at_arg h xs ys ss e (drop-suc a xs (int_arg n) ys f) u v,
)
args-Moves steps i a h xs (ptr_arg n ∷ ys) ss onward e f u v m = (
  arg_calls h ys ++ step_calls ss,
  refl,
  at_arg h xs ys ss e (drop-suc a xs (ptr_arg n) ys f) u v,
)

loop-Moves :
    (steps : List Step) (i : ℕ) (ss : List Step)
    → drop i steps ≡ ss
    → StepsEnd ss
    → Moves steps (step_calls ss) (run_loop ss i 0)
unfolding run_loop
loop-Moves steps i [] e u = absurd u
loop-Moves steps i (single h x ∷ ss) e u =
    (step_calls ss, refl, at_start ss (drop-suc i steps (single h x) ss e) u)
loop-Moves steps i (end_step ∷ ss) e u = refl
loop-Moves steps i (for_each h xs ∷ ss) e u =
    args-Moves steps i 0 h xs xs ss (run_loop ss (i + 1) 0) e refl u.0 u.1
      (loop-Moves steps (i + 1) ss (drop-suc i steps (for_each h xs) ss e) u.1)

At-Moves :
    (steps : List Step) {i a : ℕ} {cs : List (ℕ × Arg)}
    → At steps i a cs
    → Moves steps cs (run_loop (drop i steps) i a)
unfolding run_loop
At-Moves steps (at_start {i} ss e u) =
    subst (λ l. Moves steps (step_calls ss) (run_loop l i 0)) (sym e) (loop-Moves steps i ss e u)
At-Moves steps (at_arg {i} {a} h xs ys ss e f u v) =
    subst (λ l. Moves steps (arg_calls h ys ++ step_calls ss) (run_loop l i a)) (sym e)
      (subst
        (λ l.
          Moves steps (arg_calls h ys ++ step_calls ss)
            (run_arg h (first l) i a (run_loop ss (i + 1) 0)))
        (sym f)
        (args-Moves steps i a h xs ys ss (run_loop ss (i + 1) 0) e f u v
          (loop-Moves steps (i + 1) ss (drop-suc i steps (for_each h xs) ss e) v)))

-- A pipeline that nothing has finished yet.
abbrev running : List Step → ℕ → ℕ → Pipeline
running steps i a = record { steps = steps; next_step = i; next_arg = a; finish = false; error = 0 }

module _ (reply : ℕ → Arg → Reply) where
  drive-finished :
      (f : ℕ) (p : Pipeline) (e : ℕ) → 0 < f → drive reply f (pipeline_finish p e) ≡ some ([], e)
  unfolding drive pipeline_run_step
  drive-finished zero p e lt = absurd (omega arith)
  drive-finished (suc f) p e lt = refl

  drive-call :
      (f : ℕ) (p : Pipeline) (h : ℕ) (x : Arg) (rest : List (ℕ × Arg)) (r : Reply)
      → 0 < f
      → drive reply f p ≡ some (upto reply rest)
      → with_call h x (drive reply f (reply_to p r)) ≡ some (upto_with (h, x) r (upto reply rest))
  drive-call f p h x rest go_on lt e = ap (with_call h x) e
  drive-call f p h x rest (stop c) lt e = ap (with_call h x) (drive-finished f p c lt)

  after_run-Moves :
      (steps : List Step) (f i a : ℕ) (cs : List (ℕ × Arg)) (ran : Ran)
      → Moves steps cs ran
      → length cs < suc f
      → ((i' a' : ℕ) (rest : List (ℕ × Arg))
          → At steps i' a' rest
          → length rest < f
          → drive reply f (running steps i' a') ≡ some (upto reply rest))
      → after_run (drive reply f) reply (running steps i a) ran ≡ some (upto reply cs)
  after_run-Moves steps f i a cs stray m lt more = absurd m
  after_run-Moves steps f i a cs finished m lt more = ap (λ c. some (upto reply c)) (sym m)
  after_run-Moves steps f i a cs (called h x j b) (rest, e, at) lt more =
      drive-call f (running steps j b) h x rest (reply h x) (omega (arith, ap length e))
        (more j b rest at (omega (arith, ap length e)))
      ∙ ap (λ c. some (upto reply c)) (sym e)

  drive-At :
      (steps : List Step) (f i a : ℕ) (cs : List (ℕ × Arg))
      → At steps i a cs
      → length cs < f
      → drive reply f (running steps i a) ≡ some (upto reply cs)
  unfolding drive pipeline_run_step
  drive-At steps zero i a cs at lt = absurd (omega arith)
  drive-At steps (suc f) i a cs at lt =
      after_run-Moves steps f i a cs (run_loop (drop i steps) i a) (At-Moves steps at) lt
        (λ j b rest at' lt'. drive-At steps f j b rest at' lt')

-- A pipeline whose arrays are terminated never reads past their ends: driven from its start, with fuel for
-- one run more than its steps make calls, it calls the handlers of its steps, each argument in its turn, up to
-- the first that finishes it, and then `finish` with that handler's error, or with none.
pub drive-upto :
    (reply : ℕ → Arg → Reply) (steps : List Step) (fuel : ℕ)
    → StepsEnd steps
    → length (step_calls steps) < fuel
    → drive reply fuel (pipeline_create steps) ≡ some (upto reply (step_calls steps))
drive-upto reply steps fuel u lt =
    drive-At reply steps fuel 0 0 (step_calls steps) (at_start steps refl u) lt
