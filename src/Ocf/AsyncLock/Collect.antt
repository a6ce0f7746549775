-- ===== src/Ocf/AsyncLock/Collect.antt =====
-- Which waiters an unlock completes.
use cora.Base.{
  ℕ, suc, ◌+◌, ◌^◌, ◌≤◌, ◌<◌, ◌≡◌, ap, ◌≢◌, ◌⊎◌, inl, inr, List, [], ◌∷◌, ◌++◌, true, false, arith,
  Bool-cases, inc_32, if◌then◌else◌,
}
use cora.Ocf.AsyncLock.{Waiter, Collected, collect_waiters}

-- The readers and the writers among some waiters.
abbrev pub readers : List Waiter → ℕ
readers [] = 0
readers (w ∷ ws) = if w.write_lock then readers ws else suc (readers ws)

abbrev pub writers : List Waiter → ℕ
writers [] = 0
writers (w ∷ ws) = if w.write_lock then suc (writers ws) else writers ws

-- The first of the waiters, if there is one, wants the lock for writing.
abbrev pub WriterFirst : List Waiter → Type 0
WriterFirst [] = Unit {0}
WriterFirst (w ∷ ws) = w.write_lock ≡ true

-- From `rd` readers and no writer, the waiters moved and those left are the queue in its order. The
-- moved ones are readers that are counted in, or one writer at the head of a lock that has no
-- reader; what is left begins with a writer unless a writer was moved, and if any waiter is left the
-- lock is held.
pub record IsFair (rd : ℕ) (ws : List Waiter) (c : Collected) : Type 0 where
  pub order : c.moved ++ c.left ≡ ws
  pub shared : c.rd ≡ rd + readers c.moved
  pub alone : c.wr ≡ writers c.moved
  pub one : writers c.moved ≤ 1
  pub exclusive : (writers c.moved ≡ 0) ⊎ (c.rd ≡ 0)
  pub awake : (c.left ≡ []) ⊎ (0 < rd + readers c.moved + writers c.moved)
  pub next : (writers c.moved ≡ 1) ⊎ WriterFirst c.left

cons-IsFair :
    (rd : ℕ) (w : Waiter) (ws : List Waiter) (c : Collected)
    → w.write_lock ≡ false
    → IsFair (suc rd) ws c
    → IsFair rd (w ∷ ws) (record c { moved = w ∷ c.moved })
cons-IsFair rd w ws c e f = ground arith

collect_waiters-reader :
    (rd : ℕ) (w : Waiter) (ws : List Waiter)
    → w.write_lock ≡ false
    → suc rd < 2 ^ 32
    → let r = collect_waiters (suc rd) 0 ws in
      collect_waiters rd 0 (w ∷ ws) ≡ record r { moved = w ∷ r.moved }
unfolding collect_waiters
collect_waiters-reader rd w ws e h =
    ground (arith, ap (λ n. collect_waiters n 0 ws) {x = inc_32 rd} {y = suc rd} (omega arith))

collect_waiters-writer :
    (rd : ℕ) (w : Waiter) (ws : List Waiter)
    → w.write_lock ≡ true
    → IsFair rd (w ∷ ws) (collect_waiters rd 0 (w ∷ ws))
unfolding collect_waiters
collect_waiters-writer rd w ws e = ground arith

-- With no writer about and counters that fit 32 bits, what is collected is fair: the order is kept,
-- readers are let in up to the first writer, a writer only where no reader is, and nobody waits for a
-- free lock.
pub collect_waiters-IsFair :
    (rd : ℕ) (ws : List Waiter) → rd + readers ws < 2 ^ 32 → IsFair rd ws (collect_waiters rd 0 ws)
collect_waiters-IsFair rd [] h = unfold collect_waiters in ground arith
collect_waiters-IsFair rd (w ∷ ws) h = elim (Bool-cases w.write_lock) [
  | inl e ↦ collect_waiters-writer rd w ws e
  | inr e ↦
      let fits : rd + suc (readers ws) < 2 ^ 32 = ground arith in
      rw (collect_waiters-reader rd w ws e (omega arith)) (
        cons-IsFair rd w ws (collect_waiters (suc rd) 0 ws) e
          (collect_waiters-IsFair (suc rd) ws (omega arith)))
]

pub readers-append : (xs ys : List Waiter) → readers (xs ++ ys) ≡ readers xs + readers ys
readers-append [] ys = omega arith
readers-append (w ∷ xs) ys = ground (arith, readers-append xs ys)

pub WriterFirst-append :
    (ws : List Waiter) (w : Waiter)
    → WriterFirst ws
    → (ws ≢ []) ⊎ (w.write_lock ≡ true)
    → WriterFirst (ws ++ w ∷ [])
WriterFirst-append [] w h f = ground arith
WriterFirst-append (v ∷ ws) w h f = h
