-- ===== src/Ocf/Promotion.antt =====
-- overlaybd/src/overlaybd/cache/ocf_cache/ocf/src/promotion: promotion.c and nhit/nhit.c, which decide
-- whether the lines of a request are let into the cache. Log lines are left out.
pub mod Threshold
pub mod Switching
pub mod Tests
use cora.Base.{
  ℕ, zero, suc, ◌+◌, ◌-◌, ◌*◌, ◌/◌, ◌%◌, ◌^◌, List, [], ◌∷◌, Bool, true, false, not, ◌&&◌, ◌||◌,
  Option, none, some, ltb, leb, ◌==◌, ◌>>=◌, if◌then◌else◌,
}
use cora.Ocf.Err.{Status, ok, fail, inval, no_mem, no_free_ram}
use cora.Ocf.NhitHash.{
  NhitHash, Env, div_round_up, nhit_hash_init, nhit_hash_insert, nhit_hash_query,
  nhit_hash_set_occurences,
}

-- `struct nhit_promotion_policy_config`
pub record Config : Type 0 where
  pub insertion_threshold : ℕ
  pub trigger_threshold : ℕ

-- `nhit_setup`
abbrev pub nhit_setup : Config
nhit_setup = record { insertion_threshold = 3; trigger_threshold = 80 }

-- `nhit_set_param`; parameter 0 is the insertion threshold and 1 the trigger threshold.
unfoldable pub nhit_set_param : Config → ℕ → ℕ → Status × Config
nhit_set_param c param_id v =
    if param_id == 0
    then (if leb 2 v && leb v 1000
        then (ok, record c { insertion_threshold = v })
        else (fail inval, c))
    else (if param_id == 1
        then (if leb 0 v && leb v 100
            then (ok, record c { trigger_threshold = v })
            else (fail inval, c))
        else (fail inval, c))

-- `nhit_get_param`: the value that is stored, if one is.
unfoldable pub nhit_get_param : Config → ℕ → Status × Option ℕ
nhit_get_param c param_id =
    if param_id == 0
    then (ok, some c.insertion_threshold)
    else (if param_id == 1 then (ok, some c.trigger_threshold) else (fail inval, none))

-- The lines of a request, each by its core and its address, and what the engine has counted of them.
pub record Request : Type 0 where
  pub lines : List (ℕ × ℕ)
  pub hit_no : ℕ
  pub invalid_no : ℕ

-- What the metadata and the LRU of the cache answer.
pub record Occupancy : Type 0 where
  pub cachelines : ℕ
  pub table_entries : ℕ
  pub num_free : ℕ

-- `nhit_req_purge`, over the lines left. `none`: a lookup ran out of fuel.
pub purge_lines : NhitHash → List (ℕ × ℕ) → Option NhitHash
purge_lines h [] = some h
purge_lines h ((i, l) ∷ ls) = do t ← nhit_hash_set_occurences h i l 0; purge_lines t ls

-- `core_line_should_promote` after the query.
abbrev pub decide_line : Config → ℕ → ℕ → Option (Option ℕ × NhitHash) → Option (Bool × NhitHash)
decide_line c i l none = none
decide_line c i l (some (some counter, h)) = some (leb c.insertion_threshold counter, h)
decide_line c i l (some (none, h)) = some (false, nhit_hash_insert h i l)

-- `core_line_should_promote`
unfoldable pub core_line_should_promote : Config → NhitHash → ℕ → ℕ → Option (Bool × NhitHash)
core_line_should_promote c h i l = decide_line c i l (nhit_hash_query h i l)

-- The loop of `nhit_req_should_promote`, which asks about every line, also behind one that is refused.
pub promote_lines : Config → NhitHash → List (ℕ × ℕ) → Bool → Option (Bool × NhitHash)
promote_lines c h [] result = some (result, h)
promote_lines c h ((i, l) ∷ ls) result = do
  r ← core_line_should_promote c h i l
  promote_lines c r.1 ls (if r.0 then result else false)

-- `ocf_engine_mapped_count(req)`, as a condition.
abbrev pub is_mapped : Request → Bool
is_mapped r = not ((r.hit_no + r.invalid_no) % 2 ^ 32 == 0)

-- `occupied_cachelines < OCF_DIV_ROUND_UP(trigger_threshold * cachelines, 100)`
abbrev pub below_trigger : Config → Occupancy → Bool
below_trigger c o =
    ltb ((o.table_entries + (2 ^ 32 - o.num_free)) % 2 ^ 32)
      (div_round_up ((c.trigger_threshold * o.cachelines) % 2 ^ 64) 100)

-- A request that is mapped in part is let in whatever its lines say.
abbrev pub or_mapped : Request → Option (Bool × NhitHash) → Option (Bool × NhitHash)
or_mapped r none = none
or_mapped r (some (result, h)) = some (result || is_mapped r, h)

-- `nhit_req_should_promote`
unfoldable pub nhit_req_should_promote :
    Config → Occupancy → NhitHash → Request → Option (Bool × NhitHash)
nhit_req_should_promote c o h r =
    if below_trigger c o then some (true, h) else or_mapped r (promote_lines c h r.lines true)

-- `ocf_promotion_t`
pub data PolicyType : Type 0 where
  always : PolicyType
  nhit : PolicyType

-- The number of a policy, if it is below `ocf_promotion_max`.
abbrev pub policy_of : ℕ → Option PolicyType
policy_of type = if type == 0 then some always else (if type == 1 then some nhit else none)

-- `struct ocf_promotion_policy`, with the type that the metadata of the cache keeps.
pub record Policy : Type 0 where
  pub kind : PolicyType
  pub conf_kind : PolicyType
  pub ctx : Option NhitHash

-- What the environment answers to `nhit_init`: the memory, and the allocation of the context.
pub record InitEnv : Type 0 where
  pub size : ℕ
  pub available : ℕ
  pub has_ctx : Bool
  pub hash : Env

-- `nhit_init` after `nhit_hash_init`.
abbrev pub keep_hash : Policy → Status × Option NhitHash → Status × Policy
keep_hash p (ok, h) = (ok, record p { ctx = h })
keep_hash p (fail e, h) = (fail e, p)

-- `nhit_init`
unfoldable pub nhit_init : InitEnv → ℕ → Policy → Status × Policy
nhit_init e cachelines p =
    if leb e.available e.size
    then (fail no_free_ram, p)
    else (if not e.has_ctx
        then (fail no_mem, p)
        else keep_hash p (nhit_hash_init e.hash ((cachelines * 2) % 2 ^ 32)))

-- `ocf_promotion_policies[kind].deinit`, where there is one.
abbrev pub deinit_policy : PolicyType → Policy → Policy
deinit_policy always p = p
deinit_policy nhit p = record p { ctx = none }

-- `ocf_promotion_policies[kind].init`, where there is one.
abbrev pub init_policy : InitEnv → ℕ → PolicyType → Policy → Status × Policy
init_policy e cachelines always p = (ok, p)
init_policy e cachelines nhit p = nhit_init e cachelines p

-- `ocf_promotion_init`, from the type in the metadata. `none`: the policy could not be made.
unfoldable pub ocf_promotion_init : InitEnv → Bool → ℕ → PolicyType → Status × Option Policy
ocf_promotion_init e has_policy cachelines kind =
    let r = init_policy e cachelines kind (record { kind = kind; conf_kind = kind; ctx = none }) in
    if not has_policy
    then (fail no_mem, none)
    else elim r.0 [ ok ↦ (ok, some r.1) | fail x ↦ (fail x, none) ]

-- What `ocf_promotion_set_policy` does with the result of the new policy's `init`.
abbrev pub or_always : Status × Policy → Status × Policy
or_always (ok, p) = (ok, p)
or_always (fail e, p) = (fail e, record p { kind = always; conf_kind = always })

abbrev pub same_type : PolicyType → PolicyType → Bool
same_type always always = true
same_type nhit nhit = true
same_type _ _ = false

-- `ocf_promotion_set_policy` from the policy `prev` to a policy that there is.
abbrev pub switch_from : InitEnv → ℕ → Policy → PolicyType → PolicyType → Status × Policy
switch_from e cachelines p prev kind =
    if same_type kind prev
    then (ok, p)
    else or_always (
        init_policy e cachelines kind
          (record (deinit_policy prev p) { kind = kind; conf_kind = kind }))

abbrev pub switch_if : InitEnv → ℕ → Policy → Option PolicyType → Status × Policy
switch_if e cachelines p none = (fail inval, p)
switch_if e cachelines p (some kind) = switch_from e cachelines p p.conf_kind kind

-- `ocf_promotion_set_policy`
unfoldable pub ocf_promotion_set_policy : InitEnv → ℕ → Policy → ℕ → Status × Policy
ocf_promotion_set_policy e cachelines p type = switch_if e cachelines p (policy_of type)

-- `ocf_promotion_set_param` and `ocf_promotion_get_param`
abbrev pub ocf_promotion_set_param : PolicyType → Config → ℕ → ℕ → Status × Config
ocf_promotion_set_param always c param_id v = (fail inval, c)
ocf_promotion_set_param nhit c param_id v = nhit_set_param c param_id v

abbrev pub ocf_promotion_get_param : PolicyType → Config → ℕ → Status × Option ℕ
ocf_promotion_get_param always c param_id = (fail inval, none)
ocf_promotion_get_param nhit c param_id = nhit_get_param c param_id

-- `ocf_promotion_req_purge`, with the context. `none`: there is none, or a lookup ran out of fuel.
abbrev pub ocf_promotion_req_purge :
    PolicyType → Option NhitHash → Request → Option (Option NhitHash)
ocf_promotion_req_purge always h r = some h
ocf_promotion_req_purge nhit none r = none
ocf_promotion_req_purge nhit (some h) r = do t ← purge_lines h r.lines; some (some t)

-- `ocf_promotion_req_should_promote`, likewise.
abbrev pub ocf_promotion_req_should_promote :
    PolicyType → Config → Occupancy → Option NhitHash → Request → Option (Bool × Option NhitHash)
ocf_promotion_req_should_promote always c o h r = some (true, h)
ocf_promotion_req_should_promote nhit c o none r = none
ocf_promotion_req_should_promote nhit c o (some h) r = do
  p ← nhit_req_should_promote c o h r
  some (p.0, some p.1)
