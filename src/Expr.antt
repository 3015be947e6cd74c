-- ===== src/Expr.antt =====
-- Predicates: packages/server/src/runtime/read-engine.ts.
pub mod Eval
pub mod Meaning
pub mod Columns
pub mod Sql
use pramen.Base.{
  String, Bool, true, false, ◌||◌, ◌==◌, Option, none, some, List, [], ◌∷◌, add, Result, ok,
}
use pramen.Cell.{Cell, null}

pub data CmpOp : Type 0 where
  eq ne gt ge lt le like : CmpOp

pub data StrMode : Type 0 where
  contains prefix suffix : StrMode

-- `always` and `never` are the nodes "true" and "false". The parts of a group are a list of
-- their own.
mutual
  pub data SqlExpr : Type 0 where
    always never : SqlExpr
    cmp : CmpOp → String → Cell → SqlExpr
    in_list : String → List Cell → Bool → SqlExpr
    is_null : String → Bool → SqlExpr
    strmatch : String → String → StrMode → SqlExpr
    conj disj : Parts → SqlExpr
    negation : SqlExpr → SqlExpr
    sub : String → String → String → SqlExpr → Bool → SqlExpr

  pub data Parts : Type 0 where
    nil : Parts
    cons : SqlExpr → Parts → Parts

unfoldable pub parts_of : List SqlExpr → Parts
parts_of [] = nil
parts_of (e ∷ es) = cons e (parts_of es)

-- `and(...parts)`, `or(...parts)`
abbrev pub and : List SqlExpr → SqlExpr
and es = conj (parts_of es)

abbrev pub or : List SqlExpr → SqlExpr
or es = disj (parts_of es)

-- `eq`: equality to null is IS NULL
unfoldable pub equals : String → Cell → SqlExpr
equals col null = is_null col false
equals col v = cmp eq col v

-- `hasSub`
unfoldable mutual
  pub has_sub : SqlExpr → Bool
  has_sub (sub _ _ _ _ _) = true
  has_sub (conj ps) = some_sub ps
  has_sub (disj ps) = some_sub ps
  has_sub (negation e) = has_sub e
  has_sub _ = false

  pub some_sub : Parts → Bool
  some_sub nil = false
  some_sub (cons e ps) = has_sub e || some_sub ps

-- `columnsInExpr`, into the set of its second argument
unfoldable mutual
  pub columns_in_expr : SqlExpr → List String → List String
  columns_in_expr (cmp _ col _) out = add col out
  columns_in_expr (in_list col _ _) out = add col out
  columns_in_expr (is_null col _) out = add col out
  columns_in_expr (strmatch col _ _) out = add col out
  columns_in_expr (conj ps) out = columns_in_parts ps out
  columns_in_expr (disj ps) out = columns_in_parts ps out
  columns_in_expr (negation e) out = columns_in_expr e out
  columns_in_expr (sub outer _ _ _ _) out = add outer out
  columns_in_expr _ out = out

  pub columns_in_parts : Parts → List String → List String
  columns_in_parts nil out = out
  columns_in_parts (cons e ps) out = columns_in_parts ps (columns_in_expr e out)
