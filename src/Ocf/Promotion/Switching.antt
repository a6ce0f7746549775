-- ===== src/Ocf/Promotion/Switching.antt =====
-- The switch between policies of promotion.c.
use cora.Base.{
  ℕ, ◌*◌, ◌%◌, ◌^◌, ◌≡◌, refl, ap, sym, subst, ◌∙◌, ◌≢◌, ◌⊎◌, inl, inr, Option, none, some, arith,
  leb, Bool-cases,
}
use cora.Ocf.Err.{Status, ok, fail}
use cora.Ocf.NhitHash.{NhitHash, Env, nhit_hash_init}
use cora.Ocf.Promotion.{
  PolicyType, always, nhit, policy_of, Policy, InitEnv, keep_hash, nhit_init, or_always,
  switch_from, switch_if, ocf_promotion_set_policy,
}

-- The N-hit policy has its hash.
abbrev pub HasContext : PolicyType → Option NhitHash → Type 0
HasContext always c = Unit {0}
HasContext nhit c = c ≢ none

-- The type in force is the one in the metadata, and has its context.
pub record IsReady (p : Policy) : Type 0 where
  pub agrees : p.kind ≡ p.conf_kind
  pub context : HasContext p.kind p.ctx

-- What a switch owes: the policy that was asked for where it succeeds; the old one, or none but `always`,
-- where it fails; and a policy that is ready in either case.
abbrev pub IsSwitched : Policy → ℕ → Status × Policy → Type 0
IsSwitched p type (ok, q) = IsReady q × (policy_of type ≡ some q.kind)
IsSwitched p type (fail e, q) = IsReady q × ((q ≡ p) ⊎ (q.kind ≡ always))

-- A hash that is reported made is there.
abbrev Made : Status × Option NhitHash → Type 0
Made (ok, h) = h ≢ none
Made (fail e, h) = Unit {0}

hash_init-Made : (e : Env) (n : ℕ) → Made (nhit_hash_init e n)
unfolding nhit_hash_init
hash_init-Made e n = ground arith

-- The N-hit policy after its `init`, from a policy whose types have been set to it.
abbrev Inited : Status × Policy → Type 0
Inited (ok, q) = IsReady q × (q.kind ≡ nhit)
Inited (fail e, q) = Unit {0}

keep_hash-Inited :
    (p : Policy) (r : Status × Option NhitHash)
    → p.kind ≡ nhit
    → p.conf_kind ≡ nhit
    → Made r
    → Inited (keep_hash p r)
keep_hash-Inited p (ok, h) a b m =
    (record { agrees = a ∙ sym b; context = subst (λ k. HasContext k h) (sym a) m }, a)
keep_hash-Inited p (fail e, h) a b m = tt

nhit_init-Inited :
    (e : InitEnv) (n : ℕ) (p : Policy)
    → p.kind ≡ nhit
    → p.conf_kind ≡ nhit
    → Inited (nhit_init e n p)
unfolding nhit_init
nhit_init-Inited e n p a b = elim (Bool-cases (leb e.available e.size)) [
  | inl poor ↦ rw poor tt
  | inr rich ↦ elim (Bool-cases e.has_ctx) [
    | inl c ↦
        rw (rich, c)
          (keep_hash-Inited p (nhit_hash_init e.hash ((n * 2) % 2 ^ 32)) a b
            (hash_init-Made e.hash ((n * 2) % 2 ^ 32)))
    | inr c ↦ rw (rich, c) tt
  ]
]

-- After `or_always`.
or_always-IsSwitched :
    (p : Policy) (type : ℕ) (r : Status × Policy)
    → policy_of type ≡ some nhit
    → Inited r
    → IsSwitched p type (or_always r)
or_always-IsSwitched p type (ok, q) e i = (i.0, e ∙ ap some (sym i.1))
or_always-IsSwitched p type (fail x, q) e i = (record { agrees = refl; context = tt }, inr refl)

switch-IsSwitched :
    (e : InitEnv) (n : ℕ) (p : Policy) (type : ℕ) (kind : PolicyType)
    → IsReady p
    → policy_of type ≡ some kind
    → (c : PolicyType) → p.conf_kind ≡ c
    → IsSwitched p type (switch_from e n p c kind)
switch-IsSwitched e n p type always r k always c = (r, k ∙ ap some (sym (r.agrees ∙ c)))
switch-IsSwitched e n p type nhit r k nhit c = (r, k ∙ ap some (sym (r.agrees ∙ c)))
switch-IsSwitched e n p type always r k nhit c = (record { agrees = refl; context = tt }, k)
switch-IsSwitched e n p type nhit r k always c =
    (or_always-IsSwitched p type (nhit_init e n (record p { kind = nhit; conf_kind = nhit })) k
      (nhit_init-Inited e n (record p { kind = nhit; conf_kind = nhit }) refl refl))

switch_if-IsSwitched :
    (e : InitEnv) (n : ℕ) (p : Policy) (type : ℕ) (o : Option PolicyType)
    → IsReady p
    → policy_of type ≡ o
    → IsSwitched p type (switch_if e n p o)
switch_if-IsSwitched e n p type none r k = (r, inl refl)
switch_if-IsSwitched e n p type (some kind) r k =
    switch-IsSwitched e n p type kind r k p.conf_kind refl

-- From a policy that is ready, and whatever the environment answers, a switch to any number ends with a
-- policy that is ready: the one that was asked for if it succeeds, and the old one or `always` if not.
pub ocf_promotion_set_policy-IsSwitched :
    (e : InitEnv) (cachelines : ℕ) (p : Policy) (type : ℕ)
    → IsReady p
    → IsSwitched p type (ocf_promotion_set_policy e cachelines p type)
unfolding ocf_promotion_set_policy
ocf_promotion_set_policy-IsSwitched e n p type r =
    switch_if-IsSwitched e n p type (policy_of type) r refl
