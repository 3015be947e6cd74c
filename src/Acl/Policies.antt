-- ===== src/Acl/Policies.antt =====
-- `compileAcl`, `rolesOf`, `warmup` and `matchedRules` of runtime/acl.ts.
use pramen.Base.{
  ℕ, String, Bool, true, false, ◌&&◌, not, ◌==◌, eqb, Option, none, some, List, [], ◌∷◌, ◌++◌,
  lookup, Action, read, create, update, delete, Result, ok, err, failure, ◌>>=◌, if◌then◌else◌,
}
use pramen.Cell.{text}
use pramen.Where.{Json, plain, array, dict, Jsons, none_left, item, Members, member}
use pramen.Acl.{
  Identity, PolicyRule, deny, rules, resolver, Policy, Role, Key, CompiledAcl, AclContext,
}

unfoldable pub rank : Action → ℕ
rank read = 0
rank create = 1
rank update = 2
rank delete = 3

-- The source joins the two by a NUL, which no action contains.
unfoldable pub same_key : Key → Key → Bool
unfolding rank
same_key (e, a) (f, b) = e == f && eqb (rank a) (rank b)

unfoldable pub find_rules : Key → List (Key × List PolicyRule) → List PolicyRule
unfolding same_key
find_rules k [] = []
find_rules k ((j, rs) ∷ rest) = if same_key j k then rs else find_rules k rest

unfoldable pub push_rule :
    Key → PolicyRule → List (Key × List PolicyRule) → List (Key × List PolicyRule)
unfolding same_key
push_rule k r [] = (k, r ∷ []) ∷ []
push_rule k r ((j, rs) ∷ rest) =
    if same_key j k then (j, rs ++ r ∷ []) ∷ rest else (j, rs) ∷ push_rule k r rest

has_check : PolicyRule → Bool
has_check (rules p) = elim p.check [ none ↦ false | some c ↦ true ]
has_check _ = false

writes_row : Action → Bool
writes_row create = true
writes_row update = true
writes_row _ = false

-- A `check` on a read or a delete policy is refused.
unfoldable pub compile_policies :
    List Policy → List (Key × List PolicyRule) → Result (List (Key × List PolicyRule))
unfolding has_check writes_row push_rule
compile_policies [] by_key = ok by_key
compile_policies (p ∷ ps) by_key =
    if has_check p.rule && not (writes_row p.action)
    then err failure
    else compile_policies ps (push_rule (p.entity, p.action) p.rule by_key)

unfoldable pub put {ℓ} : {V : Type ℓ} → String → V → List (String × V) → List (String × V)
put k v [] = (k, v) ∷ []
put k v ((j, w) ∷ rest) = if j == k then (k, v) ∷ rest else (j, w) ∷ put k v rest

unfoldable pub or_empty {ℓ} : {A : Type ℓ} → Option (List A) → List A
or_empty none = []
or_empty (some xs) = xs

unfoldable pub compile_roles : List Role → CompiledAcl → Result CompiledAcl
unfolding compile_policies put or_empty lookup
compile_roles [] by_role = ok by_role
compile_roles (r ∷ rs) by_role = do
  by_key ← compile_policies r.policies (or_empty (lookup r.name by_role))
  compile_roles rs (put r.name by_key by_role)

unfoldable pub compile_acl : List Role → Result CompiledAcl
unfolding compile_roles
compile_acl roles = compile_roles roles []

-- The names in a list of roles; an entry that is no text names no role.
unfoldable pub role_names : Jsons → List String
role_names none_left = []
role_names (item (plain (text s)) js) = s ∷ role_names js
role_names (item _ js) = role_names js

abbrev anonymous : List String
anonymous = "anonymous" ∷ []

unfoldable pub single_role : Option Json → List String
single_role (some (plain (text s))) = if s == "" then anonymous else s ∷ []
single_role _ = anonymous

unfoldable pub roles_of_members : Members → Option Json → List String
unfolding role_names single_role member
roles_of_members ms (some (array (item j js))) = role_names (item j js)
roles_of_members ms _ = single_role (member ms "role")

-- `rolesOf`: a caller with no verified token has the role `anonymous`
unfoldable pub roles_of : Identity → List String
unfolding roles_of_members member
roles_of (some (dict ms)) = roles_of_members ms (member ms "roles")
roles_of _ = anonymous

unfoldable pub find_resolved : ℕ → List (ℕ × PolicyRule) → Option PolicyRule
find_resolved id [] = none
find_resolved id ((j, r) ∷ rest) = if eqb j id then some r else find_resolved id rest

-- What a resolver's function answers, once per request.
abbrev pub Resolvers : Type 0
Resolvers = ℕ → Identity → Result PolicyRule

-- a throwing resolver denies
unfoldable pub or_deny : Result PolicyRule → PolicyRule
or_deny (ok r) = r
or_deny (err e) = deny

module _ (resolvers : Resolvers) (identity : Identity) where
  unfoldable pub warm_rule : PolicyRule → List (ℕ × PolicyRule) → List (ℕ × PolicyRule)
  unfolding find_resolved or_deny
  warm_rule (resolver id) out = elim (find_resolved id out) [
    | none ↦ out ++ (id, or_deny (resolvers id identity)) ∷ []
    | some r ↦ out
  ]
  warm_rule _ out = out

  unfoldable pub warm_rules : List PolicyRule → List (ℕ × PolicyRule) → List (ℕ × PolicyRule)
  unfolding warm_rule
  warm_rules [] out = out
  warm_rules (r ∷ rs) out = warm_rules rs (warm_rule r out)

  unfoldable pub warm_keys :
      List (Key × List PolicyRule) → List (ℕ × PolicyRule) → List (ℕ × PolicyRule)
  unfolding warm_rules
  warm_keys [] out = out
  warm_keys ((k, rs) ∷ rest) out = warm_keys rest (warm_rules rs out)

  unfoldable pub warm_roles :
      CompiledAcl → List String → List (ℕ × PolicyRule) → List (ℕ × PolicyRule)
  unfolding warm_keys or_empty lookup
  warm_roles acl [] out = out
  warm_roles acl (name ∷ names) out =
      warm_roles acl names (warm_keys (or_empty (lookup name acl)) out)

  -- `warmup`: the answer of every resolver that the identity's roles reach
  unfoldable pub warmup : CompiledAcl → List (ℕ × PolicyRule)
  unfolding warm_roles roles_of
  warmup acl = warm_roles acl (roles_of identity) []

-- A rule as it applies: a resolver is replaced by its answer, and dropped if it has none.
unfoldable pub concrete : List (ℕ × PolicyRule) → PolicyRule → List PolicyRule
unfolding find_resolved
concrete resolved (resolver id) = elim (find_resolved id resolved) [
  | none ↦ []
  | some (resolver _) ↦ []
  | some r ↦ r ∷ []
]
concrete resolved r = r ∷ []

unfoldable pub concrete_all : List (ℕ × PolicyRule) → List PolicyRule → List PolicyRule
unfolding concrete
concrete_all resolved [] = []
concrete_all resolved (r ∷ rs) = concrete resolved r ++ concrete_all resolved rs

unfoldable pub rules_for : AclContext → Key → List String → List PolicyRule
unfolding concrete_all find_rules or_empty lookup
rules_for ctx k [] = []
rules_for ctx k (name ∷ names) =
    concrete_all ctx.resolved (find_rules k (or_empty (lookup name ctx.acl)))
    ++ rules_for ctx k names

-- `matchedRules`
unfoldable pub matched_rules : AclContext → String → Action → List PolicyRule
unfolding rules_for roles_of
matched_rules ctx entity action = rules_for ctx (entity, action) (roles_of ctx.identity)
