-- ===== src/Acl/Scoped/Hops.antt =====
-- `relationPredicate`, `resolveScope`, `resolveRelationScope` and `resolveWriteRules` of
-- runtime/acl.ts.
use pramen.Base.{
  ℕ, zero, suc, ◌-◌, String, Bool, false, Option, none, some, List, [], ◌∷◌, ◌++◌, lookup, Action,
  read, Result, ok, err, bad_request, ◌>>=◌, ◌>>◌, if◌then◌else◌,
}
use pramen.Cell.{Cell, Row}
use pramen.Expr.{SqlExpr, never, sub, and}
use pramen.Schema.{
  SchemaDef, RelationDef, RelationKind, belongs_to, one_has_one, has_many, one_has_one_inverse,
  many_to_many,
}
use pramen.Where.{WhereRule, WhereValue, nested}
use pramen.Acl.{
  PolicyRule, rules, PolicyRules, RelationAclRule, SetValue, fixed, computed, Identity, Validator,
  AclContext,
}
use pramen.Acl.Policies.{matched_rules, put}
use pramen.Acl.Merge.{Grant, Scope, allow_all, merge_grants, is_always}
use pramen.Acl.Readable.{check_column, check_where}
use pramen.Acl.Scoped.{
  Relate, relations_of, pk_of, compile_scoped, compile_policy, grant_of, collect_grants, scope_at,
}

-- MAX_REL_DEPTH
abbrev pub max_rel_depth : ℕ
max_rel_depth = 5

-- an unscoped read in SYSTEM mode
unfoldable pub read_scope : AclContext → Relate → String → Result Scope
unfolding scope_at
read_scope ctx relate entity = if ctx.system then ok allow_all else scope_at ctx relate entity read

unfoldable pub both_readable :
    SchemaDef → String → Option (List String) → String → String → Result (Unit {0})
unfolding check_column
both_readable schema entity fields a b = do
  check_column schema entity fields a
  check_column schema entity fields b

unfoldable pub and_scope : SqlExpr → Option SqlExpr → SqlExpr
and_scope e none = e
and_scope e (some w) = and (e ∷ w ∷ [])

-- the columns of a hop that a caller's filter must be able to read: those of the target, ...
unfoldable pub check_target :
    AclContext → RelationDef → WhereValue → Option (List String) → Result (Unit {0})
unfolding check_where check_column
check_target ctx rel clause fields = do
  check_where clause rel.target fields ctx.schema
  elim rel.kind [
    | has_many ↦ check_column ctx.schema rel.target fields rel.column
    | one_has_one_inverse ↦ check_column ctx.schema rel.target fields rel.column
    | _ ↦ ok tt
  ]

-- the clause over the target, within the target's own read scope
unfoldable pub target_part :
    AclContext → Bool → RelationDef → WhereValue → SqlExpr → Scope → Result SqlExpr
unfolding check_target and_scope
target_part ctx untrusted rel clause inner scope =
    if scope.allowed
    then (do
      if untrusted then check_target ctx rel clause scope.fields else ok tt
      ok (and_scope inner scope.where_))
    else ok never

-- the junction's link, within the junction's read scope
unfoldable pub link_part :
    AclContext → Bool → String → String → String → SqlExpr → Scope → Result SqlExpr
unfolding both_readable and_scope
link_part ctx untrusted through source target link scope =
    if scope.allowed
    then (do
      if untrusted then both_readable ctx.schema through scope.fields source target else ok tt
      ok (and_scope link scope.where_))
    else ok never

-- the subquery of a relation; a manyToMany goes through its junction
unfoldable pub subquery :
    AclContext → Relate → String → Bool → RelationDef → SqlExpr → RelationKind → Result SqlExpr
unfolding pk_of read_scope link_part
subquery ctx relate parent untrusted rel inner (many_to_many through target_column) = do
  scope ← read_scope ctx relate through
  link ←
      link_part ctx untrusted through rel.column target_column
        (sub target_column rel.target (pk_of ctx.schema rel.target) inner false) scope
  ok (sub (pk_of ctx.schema parent) through rel.column link false)
subquery ctx relate parent untrusted rel inner (belongs_to _) =
    ok (sub rel.column rel.target (pk_of ctx.schema rel.target) inner false)
subquery ctx relate parent untrusted rel inner (one_has_one _) =
    ok (sub rel.column rel.target (pk_of ctx.schema rel.target) inner false)
subquery ctx relate parent untrusted rel inner has_many =
    ok (sub (pk_of ctx.schema parent) rel.target rel.column inner false)
subquery ctx relate parent untrusted rel inner one_has_one_inverse =
    ok (sub (pk_of ctx.schema parent) rel.target rel.column inner false)

-- One hop, whose clause and scopes are compiled by `relate`, the compiler of the next depth.
unfoldable pub hop : AclContext → Relate → Relate
unfolding compile_scoped read_scope target_part subquery
hop ctx relate parent untrusted rel (nested clause) = do
  inner ← compile_scoped ctx relate rel.target false untrusted clause
  scope ← read_scope ctx relate rel.target
  inner' ← target_part ctx untrusted rel (nested clause) inner scope
  subquery ctx relate parent untrusted rel inner' rel.kind
hop ctx relate parent untrusted rel _ = err bad_request

-- `relationPredicate`, with as many levels left as its first argument says
unfoldable pub relation_predicate : ℕ → AclContext → Relate
unfolding hop
relation_predicate zero ctx parent untrusted rel clause = err bad_request
relation_predicate (suc levels) ctx parent untrusted rel clause =
    hop ctx (relation_predicate levels ctx) parent untrusted rel clause

-- the relation compiler at a depth
abbrev pub relate_at : AclContext → ℕ → Relate
relate_at ctx depth = relation_predicate (max_rel_depth - depth) ctx

-- `compileScopedWhere` of a caller's filter or of a policy's rule
unfoldable pub compile_scoped_where :
    AclContext → String → Bool → Bool → ℕ → WhereRule → Result SqlExpr
unfolding compile_scoped relation_predicate
compile_scoped_where ctx entity in_cell untrusted depth rule =
    compile_scoped ctx (relate_at ctx depth) entity in_cell untrusted rule

-- `resolveScope`
unfoldable pub resolve_scope : AclContext → String → Action → ℕ → Result Scope
unfolding scope_at relation_predicate
resolve_scope ctx entity action depth = scope_at ctx (relate_at ctx depth) entity action

-- `reachableFrom`: the targets reached from the parent rows that a predicate admits
unfoldable pub reachable_from : SchemaDef → String → RelationDef → SqlExpr → RelationKind → SqlExpr
unfolding pk_of
reachable_from schema parent rel e (many_to_many through target_column) =
    sub (pk_of schema rel.target) through target_column
      (sub rel.column parent (pk_of schema parent) e false) false
reachable_from schema parent rel e (belongs_to _) =
    sub (pk_of schema rel.target) parent rel.column e false
reachable_from schema parent rel e (one_has_one _) =
    sub (pk_of schema rel.target) parent rel.column e false
reachable_from schema parent rel e has_many = sub rel.column parent (pk_of schema parent) e false
reachable_from schema parent rel e one_has_one_inverse =
    sub rel.column parent (pk_of schema parent) e false

-- The row predicate of a directAccess grant, bound to the parent rows of its policy. `none` where
-- it cannot be bound: then it grants nothing.
unfoldable pub bind_reach :
    SchemaDef → String → Option RelationDef → Option SqlExpr → SqlExpr → Option (Option SqlExpr)
unfolding is_always reachable_from
bind_reach schema parent rel_def where_ e = if is_always e then some where_ else elim rel_def [
  | none ↦ none
  | some rel ↦
      let reach = reachable_from schema parent rel e rel.kind in
      elim where_ [ none ↦ some (some reach) | some w ↦ some (some (and (w ∷ reach ∷ []))) ]
]

unfoldable pub compile_option :
    AclContext → Relate → String → Option WhereRule → Result (Option SqlExpr)
unfolding compile_scoped
compile_option ctx relate entity none = ok none
compile_option ctx relate entity (some r) = do e ← compile_policy ctx relate entity r; ok (some e)

module _ (ctx : AclContext) (parent name target : String) where
  -- the directAccess grant of one parent policy
  unfoldable pub relation_grant : PolicyRules → RelationAclRule → Result (List Grant)
  unfolding compile_option bind_reach grant_of relation_predicate relations_of lookup
  relation_grant p rel = do
    w ← compile_option ctx (relate_at ctx 0) target rel.where_
    e ← compile_policy ctx (relate_at ctx 0) parent p.where_
    elim (bind_reach ctx.schema parent (lookup name (relations_of ctx.schema parent)) w e) [
      | none ↦ ok []
      | some bound ↦ do
        g ←
            grant_of ctx (relate_at ctx 0) target bound rel.fields rel.conditional_fields
              rel.fields_fn
        ok (g ∷ [])
    ]

  unfoldable pub direct_grant : PolicyRules → Option RelationAclRule → Result (List Grant)
  unfolding relation_grant
  direct_grant p none = ok []
  direct_grant p (some rel) = if rel.direct_access then relation_grant p rel else ok []

  unfoldable pub relation_grants : List PolicyRule → Result (List Grant)
  unfolding direct_grant lookup
  relation_grants [] = ok []
  relation_grants (rules p ∷ rs) = do
    gs ← direct_grant p (lookup name p.relations)
    more ← relation_grants rs
    ok (gs ++ more)
  relation_grants (_ ∷ rs) = relation_grants rs

  -- `resolveRelationScope`
  unfoldable pub resolve_relation_scope : Result Scope
  unfolding collect_grants relation_grants matched_rules merge_grants relation_predicate
  resolve_relation_scope = if ctx.system then ok allow_all else (do
    own ← collect_grants ctx (relate_at ctx 0) target read
    through ← relation_grants (matched_rules ctx parent read)
    ok (merge_grants (own ++ through)))

pub record WriteRules : Type 0 where
  pub set : Row
  pub validators : List Validator

unfoldable pub forced : Identity → SetValue → Cell
forced identity (fixed v) = v
forced identity (computed f) = f identity

unfoldable pub force_all : Identity → List (String × SetValue) → Row → Row
unfolding forced put
force_all identity [] row = row
force_all identity ((col, v) ∷ rest) row = force_all identity rest (put col (forced identity v) row)

unfoldable pub validator_of : Option Validator → List Validator
validator_of none = []
validator_of (some v) = v ∷ []

unfoldable pub gather : Identity → List PolicyRule → WriteRules → WriteRules
unfolding force_all validator_of
gather identity [] out = out
gather identity (rules p ∷ rs) out = gather identity rs (record {
  set = force_all identity p.set out.set;
  validators = out.validators ++ validator_of p.validate;
})
gather identity (_ ∷ rs) out = gather identity rs out

-- `resolveWriteRules`
unfoldable pub resolve_write_rules : AclContext → String → Action → WriteRules
unfolding gather matched_rules
resolve_write_rules ctx entity action =
    gather ctx.identity (matched_rules ctx entity action) (record { set = []; validators = [] })
