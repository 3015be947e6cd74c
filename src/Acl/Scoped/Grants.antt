-- ===== src/Acl/Scoped/Grants.antt =====
-- The scope of a caller, from the policies that match: deny by default, and the fields of a row.
use pramen.Base.{
  ℕ, String, ◌≡◌, refl, Bool, true, false, Option, none, some, List, [], ◌∷◌, any, All, Action,
  create, Result, ok, Ensures, Ensures-ok, Ensures-bind, Ensures-if, ◌>>=◌, >>=-eq-ok, ok-injective,
  ap, sym, ◌∙◌,
}
use pramen.Cell.{Row}
use pramen.Expr.{SqlExpr, has_sub}
use pramen.Expr.Meaning.{Linked}
use pramen.Where.{WhereRule}
use pramen.Acl.{PolicyRule, allow, rules, ConditionalFields, FieldsFn, AclContext}
use pramen.Acl.Policies.{matched_rules}
use pramen.Acl.Merge.{ConditionalGrant, Grant, Scope, allow_grant, merge_grants}
use pramen.Acl.Fields.{effective_fields, flag_columns, check_flag_predicates}
use pramen.Acl.Merge.Rows.{shows, applies}
use pramen.Acl.Merge.Bind.{Carries}
use pramen.Acl.Merge.BaseFields.{applies_gives}
use pramen.Acl.Merge.Correct.{effective_fields-merge_grants}
use pramen.Acl.Scoped.{
  Relate, cell_grants, grant_of, checked_grant, with_check, checks, grants_of_rules, collect_grants,
  compile_policy, scope_at,
}
use pramen.Acl.Scoped.Cells.{compile_scoped-IsFlatExpr}
use pramen.Acl.Scoped.Hops.{relate_at, resolve_scope}

abbrev CellsFlat : List ConditionalGrant → Type 0
CellsFlat cs = All (λ (c : ConditionalGrant). has_sub c.when ≡ false) cs

abbrev GrantFlat : Grant → Type 0
GrantFlat g = CellsFlat g.conditional

-- does a matched rule grant anything?
unfoldable pub grants_something : PolicyRule → Bool
grants_something allow = true
grants_something (rules p) = true
grants_something _ = false

unfoldable pub nonempty : List Grant → Bool
nonempty [] = false
nonempty (g ∷ gs) = true

merge-allowed : (gs : List Grant) → (merge_grants gs).allowed ≡ nonempty gs
unfolding merge_grants nonempty
merge-allowed [] = refl
merge-allowed (g ∷ gs) = refl

module _ (ctx : AclContext) (relate : Relate) (entity : String) where
  cell_grants-flat :
      (cs : List ConditionalFields) → Ensures CellsFlat (cell_grants ctx relate entity cs)
  unfolding cell_grants
  cell_grants-flat [] = Ensures-ok [] tt
  cell_grants-flat (c ∷ cs) =
      Ensures-bind _ _ (compile_scoped-IsFlatExpr ctx relate entity false c.when)
        λ e h. Ensures-bind _ _ (cell_grants-flat cs) λ gs t. Ensures-ok _ (h, t)

  grant_of-flat :
      (w : Option SqlExpr) (fields : Option (List String)) (cs : List ConditionalFields)
      (fn : Option FieldsFn)
      → Ensures GrantFlat (grant_of ctx relate entity w fields cs fn)
  unfolding grant_of
  grant_of-flat w fields cs fn = Ensures-bind _ _ (cell_grants-flat cs) λ gs t. Ensures-ok _ t

  with_check-flat :
      (action : Action) (e c : SqlExpr) (g : Grant)
      → GrantFlat g
      → GrantFlat (with_check action e c g)
  unfolding with_check
  with_check-flat create e c g h = h
  with_check-flat _ e c g h = h

  any_result : (m : Result SqlExpr) → Ensures (λ (e : SqlExpr). Unit {0}) m
  any_result m = record { at = λ e h. tt }

  checked-flat :
      (action : Action) (e : SqlExpr) (c : Option WhereRule) (g : Grant)
      → GrantFlat g
      → Ensures GrantFlat (checked_grant ctx relate entity action e c g)
  unfolding checked_grant
  checked-flat action e none g h = Ensures-ok g h
  checked-flat action e (some c) g h =
      Ensures-if (checks action) _ _
        (Ensures-bind (compile_policy ctx relate entity c) (λ ce. ok (with_check action e ce g))
          (any_result _)
          λ ce _. Ensures-ok (with_check action e ce g) (with_check-flat action e ce g h))
        (Ensures-ok g h)

  rules-flat :
      (action : Action) (rs : List PolicyRule)
      → Ensures (All GrantFlat) (grants_of_rules ctx relate entity action rs)
  unfolding grants_of_rules
  rules-flat action [] = Ensures-ok [] tt
  rules-flat action (allow ∷ rs) =
      Ensures-bind _ _ (rules-flat action rs) λ gs t. Ensures-ok _ (tt, t)
  rules-flat action (rules p ∷ rs) =
      Ensures-bind _ _ (any_result (compile_policy ctx relate entity p.where_)) λ e _.
        Ensures-bind _ _ (grant_of-flat (some e) p.fields p.conditional_fields p.fields_fn) λ g h.
          Ensures-bind _ _ (checked-flat action e p.check g h)
            λ g' h'. Ensures-bind _ _ (rules-flat action rs) λ gs t. Ensures-ok (g' ∷ gs) (h', t)
  rules-flat action (_ ∷ rs) = rules-flat action rs

  rules-nonempty :
      (action : Action) (rs : List PolicyRule)
      → Ensures
          (λ gs. nonempty gs ≡ any grants_something rs)
          (grants_of_rules ctx relate entity action rs)
  unfolding grants_of_rules any nonempty grants_something
  rules-nonempty action [] = Ensures-ok [] refl
  rules-nonempty action (allow ∷ rs) =
      Ensures-bind _ _ (rules-nonempty action rs) λ gs t. Ensures-ok (allow_grant ∷ gs) refl
  rules-nonempty action (rules p ∷ rs) =
      Ensures-bind _ _ (any_result (compile_policy ctx relate entity p.where_)) λ e _.
        Ensures-bind _ _ (grant_of-flat (some e) p.fields p.conditional_fields p.fields_fn) λ g h.
          Ensures-bind _ _ (checked-flat action e p.check g h)
            λ g' h'. Ensures-bind _ _ (rules-nonempty action rs) λ gs t. Ensures-ok (g' ∷ gs) refl
  rules-nonempty action (_ ∷ rs) = rules-nonempty action rs

  pub collect_grants-flat :
      (action : Action) {gs : List Grant}
      → collect_grants ctx relate entity action ≡ ok gs
      → All GrantFlat gs
  unfolding collect_grants
  collect_grants-flat action e = (rules-flat action (matched_rules ctx entity action)).at _ e

-- Deny by default: a scope that resolves allows access exactly if some matched rule of the caller's
-- roles is an `allow` or a set of rules; a `deny`, or no rule at all, grants nothing.
pub resolve_scope-allowed :
    (ctx : AclContext) (entity : String) (action : Action) (depth : ℕ) (scope : Scope)
    → resolve_scope ctx entity action depth ≡ ok scope
    → scope.allowed ≡ any grants_something (matched_rules ctx entity action)
unfolding resolve_scope scope_at collect_grants
resolve_scope-allowed ctx entity action depth scope h =
    let relate = relate_at ctx depth in
    let matched = matched_rules ctx entity action in
    let (gs, collected, same) =
      >>=-eq-ok (grants_of_rules ctx relate entity action matched) (λ gs. ok (merge_grants gs)) h in
    ap (λ s. s.allowed) (sym (ok-injective same))
    ∙ merge-allowed gs
    ∙ (rules-nonempty ctx relate entity action matched).at gs collected

module _ (ctx : AclContext) (linked : Linked) (entity : String) (action : Action) (depth : ℕ)
    (row stored : Row) where
  -- For the grants of the caller's matched policies, and a row that carries the flags that SQL
  -- computed for it and to which some grant applies: `resolveScope` and `effectiveFields` answer
  -- without an error, and show exactly the fields that some single applying grant gives.
  pub resolve_scope-effective_fields :
      (gs : List Grant)
      → collect_grants ctx (relate_at ctx depth) entity action ≡ ok gs
      → All (Carries ctx.host linked stored) (flag_columns (merge_grants gs))
      → All (Carries ctx.host linked row) (check_flag_predicates (merge_grants gs))
      → any (applies ctx.host linked row stored) gs ≡ true
      → (o : Option (List String)) × ((resolve_scope ctx entity action depth
            >>= effective_fields ctx.host ctx.identity row stored)
          ≡ ok o)
        × ((f : String)
            → shows o f ≡ any (applies_gives ctx.host linked ctx.identity row stored f) gs)
  unfolding resolve_scope scope_at
  resolve_scope-effective_fields gs collected a c some' =
      let (o, runs, has) =
        effective_fields-merge_grants ctx.host linked ctx.identity row stored gs (record {
          flat = collect_grants-flat ctx (relate_at ctx depth) entity action collected;
          admit_flags = a;
          check_flags = c;
          some_applies = some';
        }) in
      (o, rw collected runs, has)
