-- ===== src/Acl/Fields.antt =====
-- The fields of a row that a scope shows: `effectiveFields` and its neighbours in runtime/acl.ts.
use pramen.Base.{
  String, Bool, true, false, Option, none, some, List, [], ◌∷◌, any, lookup, add_all, set_of,
  Result, ok, ◌>>=◌, if◌then◌else◌, ◌++◌,
}
use pramen.Cell.{Cell, null, Row, Host, numeric}
use pramen.Cell.Int.{ℤ, pos, eqb_ℤ}
use pramen.Expr.{SqlExpr, columns_in_expr}
use pramen.Expr.Eval.{eval_expr}
use pramen.Acl.{Identity, FieldsFn}
use pramen.Acl.Merge.{ConditionalGrant, RowPredicate, BoundGrant, Scope, present}

-- `v != null && Number(v) === 1`
unfoldable pub is_one : Option ℤ → Bool
is_one none = false
is_one (some n) = eqb_ℤ n (pos 1)

module _ (host : Host) where
  unfoldable pub flag_set : Option Cell → Bool
  unfolding is_one numeric
  flag_set none = false
  flag_set (some null) = false
  flag_set (some v) = is_one (numeric host v)

  unfoldable pub stored_flag : Option String → SqlExpr → Row → Result Bool
  unfolding flag_set lookup eval_expr
  stored_flag (some flag) e row = ok (flag_set (lookup flag row))
  stored_flag none e row = eval_expr host e row

  -- `predicateHolds`: a flag that the row does not carry counts as false
  unfoldable pub predicate_holds : Option RowPredicate → Row → Result Bool
  unfolding stored_flag
  predicate_holds none row = ok true
  predicate_holds (some p) row = stored_flag p.flag p.expr row

  -- `grantApplies`: the admission on the stored row, then the check on the row
  unfoldable pub grant_applies : BoundGrant → Row → Row → Result Bool
  unfolding predicate_holds
  grant_applies g row stored = do
    admitted ← predicate_holds g.admit stored
    if admitted then predicate_holds g.check row else ok false

  unfoldable pub add_conditional : List ConditionalGrant → Row → List String → Result (List String)
  unfolding eval_expr add_all
  add_conditional [] row out = ok out
  add_conditional (c ∷ cs) row out = do
    b ← eval_expr host c.when row
    add_conditional cs row (if b then add_all c.fields out else out)

  -- the output of each resolver of fields; `none` where one of them shows all
  unfoldable pub add_resolved : Identity → List FieldsFn → Row → List String → Option (List String)
  unfolding add_all
  add_resolved identity [] row out = some out
  add_resolved identity (fn ∷ fns) row out = elim (fn identity row) [
    | none ↦ none
    | some fs ↦ add_resolved identity fns row (add_all fs out)
  ]

  module _ (identity : Identity) (row stored : Row) where
    -- what a grant that applies adds
    unfoldable pub add_grant : BoundGrant → List String → Result (Option (List String))
    unfolding add_all add_conditional add_resolved
    add_grant g out = elim g.fields [
      | none ↦ ok none
      | some fs ↦ do
        out' ← add_conditional g.conditional row (add_all fs out)
        ok (add_resolved identity g.fields_fns row out')
    ]

    -- the loop of `effectiveFields`
    unfoldable pub add_grants : List BoundGrant → List String → Result (Option (List String))
    unfolding grant_applies add_grant
    add_grants [] out = ok (some out)
    add_grants (g ∷ gs) out = do
      applies ← grant_applies g row stored
      next ← if applies then add_grant g out else ok (some out)
      elim next [ none ↦ ok none | some out' ↦ add_grants gs out' ]

    unfoldable pub effective_fields : Scope → Result (Option (List String))
    unfolding add_grants set_of
    effective_fields scope = elim scope.fields [
      | none ↦ ok none
      | some base ↦ add_grants scope.grants (set_of base)
    ]

  -- `anyGrantApplies`: for a write whose scope carries a check
  unfoldable pub some_applies : List BoundGrant → Row → Row → Result Bool
  unfolding grant_applies
  some_applies [] row stored = ok false
  some_applies (g ∷ gs) row stored = do
    applies ← grant_applies g row stored
    if applies then ok true else some_applies gs row stored

  unfoldable pub any_grant_applies : Scope → Row → Row → Result Bool
  unfolding some_applies
  any_grant_applies scope row stored = some_applies scope.grants row stored

-- `hasCheck`
unfoldable pub has_check : Scope → Bool
unfolding any present
has_check scope = any (λ (g : BoundGrant). present g.check) scope.grants

unfoldable pub is_empty {ℓ} : {A : Type ℓ} → List A → Bool
is_empty [] = true
is_empty (x ∷ xs) = false

unfoldable pub add_listed : List ConditionalGrant → List String → List String
unfolding add_all
add_listed [] out = out
add_listed (c ∷ cs) out = add_listed cs (add_all c.fields out)

unfoldable pub possible_of : List BoundGrant → List String → Option (List String)
unfolding add_all add_listed is_empty
possible_of [] out = some out
possible_of (g ∷ gs) out = elim g.fields [
  | none ↦ none
  | some fs ↦
      let rest = possible_of gs (add_listed g.conditional (add_all fs out)) in
      if is_empty g.fields_fns then rest else none
]

-- `possibleFields`: every field that some row in scope may show
unfoldable pub possible_fields : Scope → Option (List String)
unfolding possible_of set_of
possible_fields scope = elim scope.fields [
  | none ↦ none
  | some base ↦ possible_of scope.grants (set_of base)
]

unfoldable pub has_fields_fn : Scope → Bool
unfolding any is_empty
has_fields_fn scope =
    any (λ (g : BoundGrant). if is_empty g.fields_fns then false else true) scope.grants

-- the SQL-computed flags, as aliases with their predicates
unfoldable pub flag_of : Option RowPredicate → List (String × SqlExpr)
flag_of none = []
flag_of (some p) = elim p.flag [ none ↦ [] | some flag ↦ (flag, p.expr) ∷ [] ]

unfoldable pub admit_flags : List BoundGrant → List (String × SqlExpr)
unfolding flag_of
admit_flags [] = []
admit_flags (g ∷ gs) = flag_of g.admit ++ admit_flags gs

unfoldable pub check_flags : List BoundGrant → List (String × SqlExpr)
unfolding flag_of
check_flags [] = []
check_flags (g ∷ gs) = flag_of g.check ++ check_flags gs

-- `flagColumns`, `checkFlagPredicates`
abbrev pub flag_columns : Scope → List (String × SqlExpr)
flag_columns scope = admit_flags scope.grants

abbrev pub check_flag_predicates : Scope → List (String × SqlExpr)
check_flag_predicates scope = check_flags scope.grants

unfoldable pub admit_inputs : Option RowPredicate → List String → List String
unfolding columns_in_expr
admit_inputs none out = out
admit_inputs (some p) out = elim p.flag [ none ↦ columns_in_expr p.expr out | some flag ↦ out ]

unfoldable pub when_inputs : List ConditionalGrant → List String → List String
unfolding columns_in_expr
when_inputs [] out = out
when_inputs (c ∷ cs) out = when_inputs cs (columns_in_expr c.when out)

unfoldable pub grant_inputs : List BoundGrant → List String → List String
unfolding admit_inputs when_inputs
grant_inputs [] out = out
grant_inputs (g ∷ gs) out = grant_inputs gs (when_inputs g.conditional (admit_inputs g.admit out))

-- `scopeInputColumns`: the columns that the in-memory predicates read
unfoldable pub scope_input_columns : Scope → List String
unfolding grant_inputs
scope_input_columns scope = grant_inputs scope.grants []

-- `projectRow`
unfoldable pub pick : Row → List String → Row
unfolding lookup
pick row [] = []
pick row (f ∷ fs) = elim (lookup f row) [ none ↦ pick row fs | some v ↦ (f, v) ∷ pick row fs ]

unfoldable pub project_row : Row → Option (List String) → Row
unfolding pick
project_row row none = row
project_row row (some fs) = pick row fs
