-- ===== src/Where/Compile.antt =====
-- `compileWhere` of runtime/read-engine.ts: a rule whose markers are resolved, as a predicate.
-- A group or an operand of another type than the rule's declared one throws a plain error.
use pramen.Base.{
  String, Bool, true, false, not, ◌==◌, ◌||◌, List, [], ◌∷◌, Result, ok, err, failure, ◌>>=◌,
  if◌then◌else◌,
}
use pramen.Cell.{Cell, null, boolean, number, text, object, Host, to_text}
use pramen.Cell.Int.{pos, eqb_ℤ}
use pramen.Expr.{
  SqlExpr, always, cmp, in_list, is_null, strmatch, negation, and, or, equals, parts_of, CmpOp,
  contains, prefix, suffix,
}
use pramen.Where.{WhereRule, end, entry, WhereValue, cell, nested, list, Values, nil, cons, Objects}

-- `!val`
unfoldable pub falsy : Cell → Bool
falsy null = true
falsy (boolean b) = not b
falsy (number n) = eqb_ℤ n (pos 0)
falsy (text s) = s == ""
falsy (object p) = false

module _ (host : Host) (objects : Objects) where
  -- an operand as a cell value
  unfoldable pub cell_of : WhereValue → Cell
  cell_of (cell c) = c
  cell_of v = object (objects.reference v)

  unfoldable pub cells_of : Values → List Cell
  unfolding cell_of
  cells_of nil = []
  cells_of (cons v vs) = cell_of v ∷ cells_of vs

  unfoldable pub membership : String → WhereValue → Bool → Result SqlExpr
  unfolding cells_of
  membership col (list vs) negate = ok (in_list col (cells_of vs) negate)
  membership col v negate = err failure

  -- `ne`: inequality to null is IS NOT NULL
  unfoldable pub differs : String → Cell → SqlExpr
  differs col null = is_null col true
  differs col v = cmp CmpOp.ne col v

  -- the switch of `columnPredicate`
  unfoldable pub operator : String → String → WhereValue → Result SqlExpr
  unfolding cell_of membership differs equals falsy to_text
  operator col op v =
      let c = cell_of v in
      if op == "eq"
      then ok (equals col c)
      else if op == "ne"
      then ok (differs col c)
      else if op == "gt"
      then ok (cmp CmpOp.gt col c)
      else if op == "gte"
      then ok (cmp CmpOp.ge col c)
      else if op == "lt"
      then ok (cmp CmpOp.lt col c)
      else if op == "lte"
      then ok (cmp CmpOp.le col c)
      else if op == "like"
      then ok (cmp CmpOp.like col c)
      else if op == "contains"
      then ok (strmatch col (to_text host c) contains)
      else if op == "startsWith"
      then ok (strmatch col (to_text host c) prefix)
      else if op == "endsWith"
      then ok (strmatch col (to_text host c) suffix)
      else if op == "in"
      then membership col v false
      else if op == "notIn"
      then membership col v true
      else if op == "isNull"
      then ok (is_null col (falsy c))
      else err failure

  unfoldable pub operators : String → WhereRule → Result (List SqlExpr)
  unfolding operator
  operators col end = ok []
  operators col (entry op v rest) = do e ← operator col op v; es ← operators col rest; ok (e ∷ es)

  -- `parts.length ? and(...parts) : TRUE`
  unfoldable pub all_of : List SqlExpr → SqlExpr
  unfolding parts_of
  all_of [] = always
  all_of (e ∷ es) = and (e ∷ es)

  unfoldable pub column_predicate : String → WhereValue → Result SqlExpr
  unfolding operators all_of cell_of equals
  column_predicate col (nested ops) = do es ← operators col ops; ok (all_of es)
  column_predicate col v = ok (equals col (cell_of v))

  unfoldable mutual
    unfolding column_predicate all_of parts_of

    pub compile_entries : WhereRule → Result (List SqlExpr)
    compile_entries end = ok []
    compile_entries (entry k v rest) = do
      e ← compile_entry k v
      es ← compile_entries rest
      ok (e ∷ es)

    pub compile_entry : String → WhereValue → Result SqlExpr
    compile_entry k (list vs) =
        if k == "AND"
        then (do es ← compile_all vs; ok (and es))
        else if k == "OR"
        then (do es ← compile_all vs; ok (or es))
        else if k == "NOT"
        then err failure
        else column_predicate k (list vs)
    compile_entry k (nested r) =
        if k == "AND" || k == "OR"
        then err failure
        else if k == "NOT"
        then (do es ← compile_entries r; ok (negation (all_of es)))
        else column_predicate k (nested r)
    compile_entry k v =
        if k == "AND" || k == "OR" || k == "NOT" then err failure else column_predicate k v

    pub compile_all : Values → Result (List SqlExpr)
    compile_all nil = ok []
    compile_all (cons (nested r) vs) = do
      parts ← compile_entries r
      es ← compile_all vs
      ok (all_of parts ∷ es)
    compile_all (cons v vs) = err failure

  -- `compileWhere`
  unfoldable pub compile_where : WhereRule → Result SqlExpr
  unfolding compile_entries all_of
  compile_where input = do es ← compile_entries input; ok (all_of es)
