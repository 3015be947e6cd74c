-- ===== src/Db/Preimage.antt =====
-- `preimageGuard` of runtime/db.ts: the clauses that `update` adds to its statement, which assert what its
-- decision read.
pub mod Clauses
use pramen.Base.{
  String, false, Option, none, some, List, [], ◌∷◌, ◌++◌, keys, lookup, set_of, Result, ok, ◌>>=◌,
  if◌then◌else◌,
}
use pramen.Cell.{Cell, null, Row, column}
use pramen.Expr.{SqlExpr, cmp, eq, is_null, columns_in_expr}
use pramen.Acl.Merge.{BoundGrant, RowPredicate, Scope}
use pramen.Acl.Fields.{predicate_holds, has_fields_fn, scope_input_columns}
use pramen.Db.{Env, is_flag}

-- the columns that a check and an admission read
unfoldable pub predicate_columns : Option RowPredicate → List String → List String
unfolding columns_in_expr
predicate_columns none out = out
predicate_columns (some p) out = columns_in_expr p.expr out

unfoldable pub grant_columns : List BoundGrant → List String → List String
unfolding predicate_columns
grant_columns [] out = out
grant_columns (g ∷ gs) out =
    grant_columns gs (predicate_columns g.admit (predicate_columns g.check out))

-- the columns that the decision read
unfoldable pub decision_columns : Scope → Row → List String
unfolding has_fields_fn keys grant_columns scope_input_columns set_of
decision_columns scope raw =
    if has_fields_fn scope
    then set_of (keys raw)
    else grant_columns scope.grants (scope_input_columns scope)

-- a column still holds the value it had
unfoldable pub asserted : String → Option Cell → List SqlExpr
asserted c none = []
asserted c (some null) = is_null c false ∷ []
asserted c (some v) = cmp eq c v ∷ []

unfoldable pub unchanged : Row → List String → List SqlExpr
unfolding is_flag lookup asserted
unchanged raw [] = []
unchanged raw (c ∷ cs) =
    let rest = unchanged raw cs in if is_flag c then rest else asserted c (column raw c) ++ rest

module _ (env : Env) where
  -- the flagged admission of a grant, if it held
  unfoldable pub held_flag : RowPredicate → Option String → Row → Result (List SqlExpr)
  unfolding predicate_holds
  held_flag p none stored = ok []
  held_flag p (some flag) stored = do
    holds ← predicate_holds env.acl.host (some p) stored
    ok (if holds then p.expr ∷ [] else [])

  unfoldable pub held_admission : Option RowPredicate → Row → Result (List SqlExpr)
  unfolding held_flag
  held_admission none stored = ok []
  held_admission (some p) stored = held_flag p p.flag stored

  unfoldable pub held_admissions : List BoundGrant → Row → Result (List SqlExpr)
  unfolding held_admission
  held_admissions [] stored = ok []
  held_admissions (g ∷ gs) stored = do
    es ← held_admission g.admit stored
    more ← held_admissions gs stored
    ok (es ++ more)

  -- `preimageGuard`: the clauses it ANDs to the UPDATE
  unfoldable pub preimage_guard : Scope → Row → Row → Result (List SqlExpr)
  unfolding unchanged decision_columns held_admissions
  preimage_guard scope raw stored = do
    held ← held_admissions scope.grants stored
    ok (unchanged raw (decision_columns scope raw) ++ held)
