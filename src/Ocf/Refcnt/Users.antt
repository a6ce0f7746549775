-- ===== src/Ocf/Refcnt/Users.antt =====
-- The counter among its users, for any sequence of calls by users that give back what they took.
use cora.Base.{
  ℕ, ◌+◌, ◌-◌, ◌^◌, ◌≤◌, ◌<◌, ◌≡◌, ◌⊎◌, false, Option, none, some, arith, ◌==◌, if◌then◌else◌,
}
use cora.Ocf.Refcnt.{
  Refcnt, Fired, refcnt_dec, refcnt_inc, refcnt_freeze, refcnt_register_zero_cb, refcnt_unfreeze,
}

-- The counter, how many users hold it, how many have frozen it, whether a callback is awaited, and how
-- many have been registered and have fired.
pub record System : Type 0 where
  pub state : Refcnt
  pub users : ℕ
  pub freezers : ℕ
  pub registered : ℕ
  pub fired : ℕ

pub data Call : Type 0 where
  incs decs freezes unfreezes registers : Call

abbrev after_fired : Option Fired → ℕ → ℕ → ℕ → ℕ → Option System
after_fired none users freezers registered fired = none
after_fired (some f) users freezers registered fired = some (record {
  state = f.state;
  users = users;
  freezers = freezers;
  registered = registered;
  fired = if f.fired then fired + 1 else fired;
})

abbrev after_unfreeze : Option Refcnt → System → Option System
after_unfreeze none s = none
after_unfreeze (some rc) s = some (record s { state = rc; freezers = s.freezers - 1 })

-- A user holds the counter after an increment that returned no zero.
unfoldable pub advance : Call → System → Option System
advance incs s =
    let r = refcnt_inc s.state in
    some (record s { state = r.1; users = if r.0 == 0 then s.users else s.users + 1 })
advance decs s = after_fired (refcnt_dec s.state) (s.users - 1) s.freezers s.registered s.fired
advance freezes s = some (record s { state = refcnt_freeze s.state; freezers = s.freezers + 1 })
advance unfreezes s = after_unfreeze (refcnt_unfreeze s.state) s
advance registers s =
    after_fired (refcnt_register_zero_cb s.state) s.users s.freezers (s.registered + 1) s.fired

-- What a caller owes: it gives back only what it took, and registers a callback on a frozen counter
-- whose last callback has fired. There are never 2 ^ 31 users or freezers, or more.
abbrev pub IsLegal : Call → System → Type 0
IsLegal incs s = s.users < 2 ^ 31 - 1
IsLegal freezes s = s.freezers < 2 ^ 31 - 1
IsLegal decs s = 0 < s.users
IsLegal unfreezes s = 0 < s.freezers
IsLegal registers s = (0 < s.freezers) × (s.registered ≡ s.fired)

pub record Inv (s : System) : Type 0 where
  pub counted : s.state.counter ≡ s.users
  pub frozen : s.state.freeze ≡ s.freezers
  pub few_users : s.users < 2 ^ 31
  pub few_freezers : s.freezers < 2 ^ 31
  pub awaited : s.registered ≡ (if s.state.callback then s.fired + 1 else s.fired)
  pub in_use : (s.state.callback ≡ false) ⊎ (0 < s.users)

abbrev pub Good : Option System → Type 0
Good none = ⊥
Good (some s) = Inv s

decs-Good : (s : System) → Inv s → IsLegal decs s → Good (advance decs s)
unfolding advance refcnt_dec
decs-Good s v l = ground arith

registers-Good : (s : System) → Inv s → IsLegal registers s → Good (advance registers s)
unfolding advance refcnt_dec refcnt_register_zero_cb
registers-Good s v l = ground arith

-- While there are fewer than 2 ^ 31 users and freezers, every legal call is free of the code's assertions and leaves the bookkeeping right: the counter counts
-- the users; each callback that was registered has fired but for the last one at most; and that one is
-- awaited only while somebody uses the counter, so it fires with the last user that leaves, or at once.
pub advance-Good : (c : Call) (s : System) → Inv s → IsLegal c s → Good (advance c s)
unfolding advance refcnt_inc refcnt_unfreeze
advance-Good incs s v l = ground arith
advance-Good decs s v l = decs-Good s v l
advance-Good freezes s v l = ground arith
advance-Good unfreezes s v l = ground arith
advance-Good registers s v l = registers-Good s v l

-- A run of legal calls.
pub data Run : System → System → Type 0 where
  done : {s : System} → Run s s
  next : {s t u : System} (c : Call) → IsLegal c s → advance c s ≡ some t → Run t u → Run s u

-- A run in which no freezer lets go.
abbrev pub StaysFrozen : {s t : System} → Run s t → Type 0
StaysFrozen (done {s}) = 0 < s.freezers
StaysFrozen (next {s} c l e r) = (0 < s.freezers) × StaysFrozen r

advance-frozen :
    (c : Call) (s t : System)
    → Inv s
    → IsLegal c s
    → advance c s ≡ some t
    → 0 < s.freezers
    → (t.users ≤ s.users) × Inv t
unfolding advance refcnt_inc refcnt_dec refcnt_unfreeze refcnt_register_zero_cb
advance-frozen incs s t v l e f = ground arith
advance-frozen decs s t v l e f = ground arith
advance-frozen freezes s t v l e f = ground arith
advance-frozen unfreezes s t v l e f = ground arith
advance-frozen registers s t v l e f = ground arith

-- While there are fewer than 2 ^ 31 users and freezers: along a run of legal calls in which some freezer always holds the counter frozen, no user comes in, and
-- the bookkeeping stays right.
pub Run-frozen : {s t : System} (r : Run s t) → Inv s → StaysFrozen r → (t.users ≤ s.users) × Inv t
Run-frozen (done {s}) v f = (omega arith, v)
Run-frozen (next {s} {t} {u} c l e r) v f =
    let one = advance-frozen c s t v l e f.0 in
    let rest = Run-frozen r one.1 f.1 in (omega (arith, one.0, rest.0), rest.1)
