-- ===== src/Ocf/AsyncLock/Exclusion.antt =====
-- The lock among its holders, for any sequence of calls by callers that unlock what they hold.
use cora.Base.{
  ℕ, ◌+◌, ◌-◌, ◌^◌, ◌≤◌, ◌<◌, ◌≡◌, refl, ap, subst, ◌⊎◌, List, [], ◌∷◌, true, false, Option, none,
  some, arith,
}
use cora.Ocf.Err.{Status, ok, fail}
use cora.Ocf.AsyncLock.{
  Waiter, AsyncLock, Completion, Outcome, collect_waiters, lock, trylock, unlock, read_lock,
  read_trylock, read_unlock, run_waiters,
}
use cora.Ocf.AsyncLock.Collect.{
  readers, writers, WriterFirst, IsFair, collect_waiters-IsFair, readers-append, WriterFirst-append,
}

-- The lock, and how many callers have been granted it and have not unlocked it yet.
pub record System : Type 0 where
  pub state : AsyncLock
  pub reading : ℕ
  pub writing : ℕ

pub data Call : Type 0 where
  locks read_locks : ℕ → Call
  trylocks unlocks read_trylocks read_unlocks : Call

-- The waiters of some completions.
abbrev granted : List Completion → List Waiter
granted [] = []
granted ((w, s) ∷ cs) = w ∷ granted cs

-- After a call that completes waiters, each of them holds the lock.
abbrev after : Outcome → ℕ → ℕ → Option System
after none r w = none
after (some (l, cs)) r w =
    some
      (record { state = l; reading = r + readers (granted cs); writing = w + writers (granted cs) })

abbrev is_ok : Status → ℕ
is_ok ok = 1
is_ok (fail e) = 0

unfoldable pub step : Call → System → Option System
step (locks id) s = after (lock s.state id) s.reading s.writing
step (read_locks id) s = after (read_lock s.state id) s.reading s.writing
step trylocks s =
    let r = trylock s.state in
    some (record { state = r.1; reading = s.reading; writing = s.writing + is_ok r.0 })
step read_trylocks s =
    let r = read_trylock s.state in
    some (record { state = r.1; reading = s.reading + is_ok r.0; writing = s.writing })
step unlocks s = after (unlock s.state) s.reading (s.writing - 1)
step read_unlocks s = after (read_unlock s.state) (s.reading - 1) s.writing

-- What a caller owes: it unlocks only what it holds, and no 2 ^ 32 readers are about.
abbrev pub IsLegal : Call → System → Type 0
IsLegal unlocks s = 0 < s.writing
IsLegal read_unlocks s = 0 < s.reading
IsLegal _ s = s.reading + readers s.state.waiters + 1 < 2 ^ 32

pub record Inv (s : System) : Type 0 where
  pub counted : s.state.rd ≡ s.reading
  pub held : s.state.wr ≡ s.writing
  pub one : s.writing ≤ 1
  pub exclusive : (s.writing ≡ 0) ⊎ (s.reading ≡ 0)
  pub awake : (s.state.waiters ≡ []) ⊎ (0 < s.reading + s.writing)
  pub writer_first : (s.writing ≡ 1) ⊎ WriterFirst s.state.waiters
  pub fits : s.reading + readers s.state.waiters < 2 ^ 32

-- The call does not stop the program, and leaves the invariant.
abbrev pub Good : Option System → Type 0
Good none = ⊥
Good (some s) = Inv s

granted-run_waiters : (ws : List Waiter) → granted (run_waiters ws ok) ≡ ws
granted-run_waiters [] = refl
granted-run_waiters (w ∷ ws) = ap (λ v. w ∷ v) (granted-run_waiters ws)

trylocks-Good : (s : System) → Inv s → Good (step trylocks s)
unfolding step trylock
trylocks-Good s v = ground arith

read_trylocks-Good : (s : System) → Inv s → IsLegal read_trylocks s → Good (step read_trylocks s)
unfolding step read_trylock
read_trylocks-Good s v l = ground arith

module _ (s : System) (v : Inv s) where
  locks-Good : (id : ℕ) → IsLegal (locks id) s → Good (step (locks id) s)
  unfolding step lock
  locks-Good id l =
      let w : Waiter = record { id = id; write_lock = true } in
      ground (arith, readers-append s.state.waiters (w ∷ []), WriterFirst-append s.state.waiters w)

  read_locks-Good : (id : ℕ) → IsLegal (read_locks id) s → Good (step (read_locks id) s)
  unfolding step read_lock
  read_locks-Good id l =
      let w : Waiter = record { id = id; write_lock = false } in
      ground (arith, readers-append s.state.waiters (w ∷ []), WriterFirst-append s.state.waiters w)

  unlocks-Good : IsLegal unlocks s → Good (step unlocks s)
  unfolding step unlock
  unlocks-Good l =
      let c = collect_waiters 0 0 s.state.waiters in
      let f : IsFair 0 s.state.waiters c =
        collect_waiters-IsFair 0 s.state.waiters (omega (arith, v.fits)) in
      ground (arith, f, readers-append c.moved c.left, granted-run_waiters c.moved)

  read_unlocks-Good : IsLegal read_unlocks s → Good (step read_unlocks s)
  unfolding step read_unlock
  read_unlocks-Good l =
      let c = collect_waiters (s.state.rd - 1) 0 s.state.waiters in
      let f : IsFair (s.state.rd - 1) s.state.waiters c =
        collect_waiters-IsFair (s.state.rd - 1) s.state.waiters (omega (arith, v.fits)) in
      ground (arith, f, readers-append c.moved c.left, granted-run_waiters c.moved)

-- Every legal call on a lock whose bookkeeping is right is free of the assertions of the code, and
-- leaves the bookkeeping right: the counters count the holders, at most one of which writes and then
-- alone; nobody waits for a lock that is free; and readers wait behind a writer only.
pub step-Good : (c : Call) (s : System) → Inv s → IsLegal c s → Good (step c s)
step-Good (locks id) s v l = locks-Good s v id l
step-Good (read_locks id) s v l = read_locks-Good s v id l
step-Good trylocks s v l = trylocks-Good s v
step-Good unlocks s v l = unlocks-Good s v l
step-Good read_trylocks s v l = read_trylocks-Good s v l
step-Good read_unlocks s v l = read_unlocks-Good s v l

-- `ocf_async_lock_init`, before any call.
abbrev pub start : ℕ → System
start size = record {
  state = record { waiters = []; rd = 0; wr = 0; waiter_priv_size = size };
  reading = 0;
  writing = 0;
}

-- The states that legal calls lead to.
pub data Reach (size : ℕ) : System → Type 0 where
  here : Reach size (start size)
  next : {s t : System} (c : Call) → Reach size s → IsLegal c s → step c s ≡ some t → Reach size t

start-Inv : (size : ℕ) → Inv (start size)
start-Inv size = ground arith

Good-some : (o : Option System) {t : System} → o ≡ some t → Good o → Inv t
Good-some none e g = absurd g
Good-some (some s) {t} e g = subst Inv {x = s} {y = t} (cc) g

Reach-Inv : {size : ℕ} {s : System} → Reach size s → Inv s
Reach-Inv {size} here = start-Inv size
Reach-Inv (next {s} c r l e) = Good-some (step c s) e (step-Good c s (Reach-Inv r) l)

-- In every state that legal calls lead to, at most one caller holds the lock for writing, and then no other holds it;
-- and while nobody holds it nobody waits for it.
pub Reach-exclusive :
    {size : ℕ} {s : System}
    → Reach size s
    → (s.writing ≤ 1)
      × ((s.writing ≡ 0) ⊎ (s.reading ≡ 0))
      × ((s.state.waiters ≡ []) ⊎ (0 < s.reading + s.writing))
Reach-exclusive r = let v = Reach-Inv r in (v.one, v.exclusive, v.awake)
