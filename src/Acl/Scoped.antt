-- ===== src/Acl/Scoped.antt =====
-- `compileScopedWhere`, `relationPredicate` and the grants of a caller: runtime/acl.ts.
--
-- The nesting depth counts down from the source's MAX_REL_DEPTH: what is compiled at depth d uses
-- the relation compiler of the 5 - d levels that are left, and with none left a relation is
-- refused.
pub mod Cells
pub mod Hops
pub mod Grants
use pramen.Base.{
  ℕ, zero, suc, ◌-◌, String, Bool, true, false, not, ◌&&◌, ◌||◌, ◌==◌, Option, none, some, List, [],
  ◌∷◌, ◌++◌, lookup, Action, read, create, update, delete, Result, ok, err, bad_request, failure,
  ◌>>=◌, ◌>>◌, if◌then◌else◌,
}
use pramen.Cell.{null, boolean, number, object, text}
use pramen.Expr.{SqlExpr, always, never, negation, sub, and, or}
use pramen.Schema.{
  SchemaDef, EntityDef, FieldDef, RelationDef, RelationKind, belongs_to, one_has_one, has_many,
  one_has_one_inverse, many_to_many,
}
use pramen.Where.{
  WhereRule, end, entry, WhereValue, cell, nested, list, Values, nil, cons, resolve_markers,
}
use pramen.Where.Compile.{compile_where}
use pramen.Acl.{
  PolicyRule, allow, deny, rules, resolver, PolicyRules, RelationAclRule, ConditionalFields,
  FieldsFn, AclContext,
}
use pramen.Acl.Policies.{matched_rules}
use pramen.Acl.Merge.{
  ConditionalGrant, Grant, Scope, allow_all, allow_grant, merge_grants, is_always,
}
use pramen.Acl.Readable.{check_column, check_where}

-- `relations`, of an entity that may be unknown
unfoldable pub relations_of : SchemaDef → String → List (String × RelationDef)
unfolding lookup
relations_of schema entity = elim (lookup entity schema) [ none ↦ [] | some def ↦ def.relations ]

unfoldable pub primary_of : List (String × FieldDef) → String
primary_of [] = "id"
primary_of ((n, f) ∷ rest) = if f.primary_key then n else primary_of rest

-- `pkOf`
unfoldable pub pk_of : SchemaDef → String → String
unfolding lookup primary_of
pk_of schema entity = elim (lookup entity schema) [ none ↦ "id" | some def ↦ primary_of def.fields ]

-- Is the key a group's?
unfoldable pub is_group : String → Bool
is_group k = k == "AND" || k == "OR"

-- How a relation key is compiled: of which entity, on behalf of a caller or not, the relation and
-- the clause over its target.
abbrev pub Relate : Type 0
Relate = String → Bool → RelationDef → WhereValue → Result SqlExpr

unfoldable pub group_of : String → List SqlExpr → SqlExpr
group_of k es = if k == "AND" then and es else or es

module _ (ctx : AclContext) (relate : Relate) (entity : String) (in_cell untrusted : Bool) where
  -- the entries that are plain columns, resolved and compiled at the end
  unfoldable pub plain_of : WhereRule → WhereRule
  unfolding is_group relations_of lookup
  plain_of end = end
  plain_of (entry k v rest) =
      let others = plain_of rest in
      if is_group k || k == "NOT"
      then others
      else elim (lookup k (relations_of ctx.schema entity)) [
        | none ↦ entry k v others
        | some rel ↦ others
      ]

  unfoldable pub resolved_part : Option WhereRule → Result SqlExpr
  unfolding compile_where
  resolved_part none = ok never
  resolved_part (some r) = compile_where ctx.host ctx.objects r

  -- an unresolvable marker makes the branch match nothing
  unfoldable pub plain_part : WhereRule → Result (List SqlExpr)
  unfolding resolved_part resolve_markers
  plain_part end = ok []
  plain_part (entry k v rest) = do
    e ← resolved_part (resolve_markers ctx.objects ctx.identity ctx.input ctx.now (entry k v rest))
    ok (e ∷ [])

  unfoldable pub join_parts : List SqlExpr → SqlExpr
  join_parts [] = always
  join_parts (e ∷ []) = e
  join_parts es = and es

  unfoldable pub finish : Result (List SqlExpr) → WhereRule → Result SqlExpr
  unfolding plain_part join_parts
  finish parts plain = do es ← parts; ps ← plain_part plain; ok (join_parts (es ++ ps))

  -- a relation key, which a cell-level predicate refuses; a plain column adds no part here
  unfoldable pub relation_part : Option RelationDef → WhereValue → Result (List SqlExpr)
  relation_part none v = ok []
  relation_part (some rel) v =
      if in_cell then err bad_request else (do e ← relate entity untrusted rel v; ok (e ∷ []))

  unfoldable mutual
    unfolding is_group group_of relation_part relations_of lookup finish plain_of

    pub scoped_entries : WhereRule → Result (List SqlExpr)
    scoped_entries end = ok []
    scoped_entries (entry k v rest) = do
      es ← scoped_entry k v
      more ← scoped_entries rest
      ok (es ++ more)

    pub scoped_entry : String → WhereValue → Result (List SqlExpr)
    scoped_entry k (list vs) =
        if is_group k
        then (do es ← scoped_all vs; ok (group_of k es ∷ []))
        else if k == "NOT"
        then err bad_request
        else relation_part (lookup k (relations_of ctx.schema entity)) (list vs)
    scoped_entry k (nested r) =
        if is_group k
        then err bad_request
        else if k == "NOT"
        then (do e ← finish (scoped_entries r) (plain_of r); ok (negation e ∷ []))
        else relation_part (lookup k (relations_of ctx.schema entity)) (nested r)
    scoped_entry k v =
        if is_group k || k == "NOT"
        then err bad_request
        else relation_part (lookup k (relations_of ctx.schema entity)) v

    -- The members of a group. A number or a boolean has no entries; what has none of the rule's
    -- declared type otherwise throws a plain error.
    pub scoped_all : Values → Result (List SqlExpr)
    scoped_all nil = ok []
    scoped_all (cons (nested r) vs) = do
      e ← finish (scoped_entries r) (plain_of r)
      es ← scoped_all vs
      ok (e ∷ es)
    scoped_all (cons (cell (number n)) vs) = do es ← scoped_all vs; ok (always ∷ es)
    scoped_all (cons (cell (boolean b)) vs) = do es ← scoped_all vs; ok (always ∷ es)
    scoped_all (cons v vs) = err failure

  unfoldable pub compile_scoped : WhereRule → Result SqlExpr
  unfolding scoped_entries finish plain_of
  compile_scoped rule = finish (scoped_entries rule) (plain_of rule)

-- a trusted rule of a policy
abbrev pub compile_policy : AclContext → Relate → String → WhereRule → Result SqlExpr
compile_policy ctx relate entity rule = compile_scoped ctx relate entity false false rule

-- the cell-level predicates of `grantOf`
unfoldable pub cell_grants :
    AclContext → Relate → String → List ConditionalFields → Result (List ConditionalGrant)
unfolding compile_scoped
cell_grants ctx relate entity [] = ok []
cell_grants ctx relate entity (c ∷ cs) = do
  e ← compile_scoped ctx relate entity true false c.when
  gs ← cell_grants ctx relate entity cs
  ok (record { when = e; fields = c.fields } ∷ gs)

unfoldable pub fns_of : Option FieldsFn → List FieldsFn
fns_of none = []
fns_of (some fn) = fn ∷ []

-- `grantOf`, of a policy's rules or of a relation's
unfoldable pub grant_of :
    AclContext
    → Relate
    → String
    → Option SqlExpr
    → Option (List String)
    → List ConditionalFields
    → Option FieldsFn
    → Result Grant
unfolding cell_grants fns_of
grant_of ctx relate entity where_ fields conditional fn = do
  cells ← cell_grants ctx relate entity conditional
  ok (record {
    where_ = where_;
    fields = fields;
    conditional = cells;
    fields_fns = fns_of fn;
    check = none;
  })

-- A `check` of a create policy folds into its `where`; of an update policy it stays apart.
unfoldable pub with_check : Action → SqlExpr → SqlExpr → Grant → Grant
with_check create e c g = record g { where_ = some (and (e ∷ c ∷ [])) }
with_check update e c g = record g { check = some c }
with_check _ e c g = g

unfoldable pub checks : Action → Bool
checks create = true
checks update = true
checks _ = false

unfoldable pub checked_grant :
    AclContext → Relate → String → Action → SqlExpr → Option WhereRule → Grant → Result Grant
unfolding with_check checks compile_scoped
checked_grant ctx relate entity action e none g = ok g
checked_grant ctx relate entity action e (some c) g =
    if checks action
    then (do ce ← compile_policy ctx relate entity c; ok (with_check action e ce g))
    else ok g

-- the grants of the matched rules, in order: `collectGrants`
unfoldable pub grants_of_rules :
    AclContext → Relate → String → Action → List PolicyRule → Result (List Grant)
unfolding compile_scoped grant_of checked_grant
grants_of_rules ctx relate entity action [] = ok []
grants_of_rules ctx relate entity action (allow ∷ rs) = do
  gs ← grants_of_rules ctx relate entity action rs
  ok (allow_grant ∷ gs)
grants_of_rules ctx relate entity action (rules p ∷ rs) = do
  e ← compile_policy ctx relate entity p.where_
  g ← grant_of ctx relate entity (some e) p.fields p.conditional_fields p.fields_fn
  g' ← checked_grant ctx relate entity action e p.check g
  gs ← grants_of_rules ctx relate entity action rs
  ok (g' ∷ gs)
grants_of_rules ctx relate entity action (_ ∷ rs) = grants_of_rules ctx relate entity action rs

unfoldable pub collect_grants : AclContext → Relate → String → Action → Result (List Grant)
unfolding grants_of_rules matched_rules
collect_grants ctx relate entity action =
    grants_of_rules ctx relate entity action (matched_rules ctx entity action)

-- `resolveScope`, with the relation compiler of its depth
unfoldable pub scope_at : AclContext → Relate → String → Action → Result Scope
unfolding collect_grants merge_grants
scope_at ctx relate entity action = do
  gs ← collect_grants ctx relate entity action
  ok (merge_grants gs)
