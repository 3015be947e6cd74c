-- ===== src/Db/Queries/Pages.antt =====
-- The cursor of a `page` of runtime/db.ts: what the predicate selects that it adds to the read.
use pramen.Base.{
  String, ◌≡◌, refl, sym, ap, subst, ◌∙◌, true, Option, none, some, List, [], ◌∷◌, Result, ok, err,
  ok-injective,
}
use pramen.Cell.{Cell, Row}
use pramen.Expr.{SqlExpr, and}
use pramen.Acl.Merge.{Scope}
use pramen.Db.{Database, Env}
use pramen.Db.Cursor.{Order, decode_cursor, keyset_after}
use pramen.Db.Queries.{after_cursor}
use pramen.Db.Queries.Rows.{Returned, Shows, read_row}
use pramen.Db.Queries.Columns.{finish_row-cells}
use pramen.Db.Read.{within_scope}
use pramen.Db.Selected.{Conjoins, scope_admits, within_scope-admits, both_true}

-- The row comes after the cursor, where there is one: the engine selects it under the keyset predicate of
-- the values that the cursor decodes to.
unfoldable pub Follows : Env → Database → String → Order → Option String → Row → Type 0
Follows env db from order none stored = Unit
Follows env db from order (some s) stored =
    (values : List Cell) × (k : SqlExpr) × (decode_cursor env.engine s ≡ ok values)
    × (keyset_after order values ≡ ok k)
    × (env.engine.matches db from k stored ≡ true)

module _ (env : Env) (db : Database) (from : String) (order : Order) where
  decoded :
      (m : Result (List Cell)) (f : List Cell → Result SqlExpr) (g : SqlExpr → SqlExpr)
      (e : SqlExpr)
      → elim m as (λ _. Result SqlExpr) [
        | err x ↦ err x
        | ok values ↦ elim (f values) as (λ _. Result SqlExpr) [ err x ↦ err x | ok k ↦ ok (g k) ]
      ]
        ≡ ok e
      → (values : List Cell) × (k : SqlExpr) × (m ≡ ok values) × (f values ≡ ok k) × (g k ≡ e)
  decoded (err x) f g e h = cc
  decoded (ok values) f g e h = go (f values) refl h
    where
      go :
          (n : Result SqlExpr)
          → f values ≡ n
          → elim n as (λ _. Result SqlExpr) [ err x ↦ err x | ok k ↦ ok (g k) ] ≡ ok e
          → (vs : List Cell) × (k : SqlExpr) × (ok values ≡ ok vs) × (f vs ≡ ok k) × (g k ≡ e)
      go (err x) p q = cc
      go (ok k) p q = (values, k, refl, p, ok-injective q)

  pub after_cursor-Follows :
      (after : Option String) (w e : SqlExpr) (stored : Row)
      → Conjoins env.engine
      → after_cursor env order after w ≡ ok e
      → env.engine.matches db from e stored ≡ true
      → (env.engine.matches db from w stored ≡ true) × Follows env db from order after stored
  unfolding after_cursor Follows pramen.Db.Selected.all_match
  after_cursor-Follows none w e stored law h m =
      (subst (λ x. env.engine.matches db from x stored ≡ true) (sym (ok-injective h)) m, tt)
  after_cursor-Follows (some s) w e stored law h m =
      let (values, k, d, f, same) =
        decoded (decode_cursor env.engine s) (keyset_after order) (λ k. and (w ∷ k ∷ [])) e h in
      let (first, rest) = both_true (env.engine.matches db from w stored) _ (
        sym (law.each_part db from (w ∷ k ∷ []) stored)
        ∙ ap (λ x. env.engine.matches db from x stored) same
        ∙ m) in
      (first, (values, k, d, f, (both_true (env.engine.matches db from k stored) true rest).0))

  -- a row that a statement of the read returned, under the filter, the scope and the cursor
  pub Returned-Shows :
      (scope : Scope) (select : Option (List String)) (after : Option String) (own e : SqlExpr)
      (columns : List String) (row : Row)
      → Conjoins env.engine
      → after_cursor env order after (within_scope env own scope) ≡ ok e
      → Returned env from scope select db e columns row
      → Shows env from scope db own columns (Follows env db from order after) row
  unfolding Returned Shows read_row scope_admits
  Returned-Shows scope select after own e columns row law h (stored, m, k, f) =
      let (inside, later) =
        after_cursor-Follows after (within_scope env own scope) e stored law h k in
      let (mine, admitted) = within_scope-admits env law db from own scope stored inside in
      (stored, m, mine, admitted, later, finish_row-cells env from scope select _ row f)
