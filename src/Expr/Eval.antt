-- ===== src/Expr/Eval.antt =====
-- `evalExpr` of read-engine.ts: a predicate on a row in memory.
use pramen.Base.{
  String, Bool, true, false, not, Option, none, some, List, any, lookup, Result, ok, err, failure,
  ◌>>=◌, if◌then◌else◌,
}
use pramen.Cell.{Cell, null, text, Row, Host, column, bind, strict_eq, less, less_eq, to_text}
use pramen.Cell.Text.{units, like_units, includes, starts, ends}
use pramen.Expr.{
  SqlExpr, always, never, cmp, in_list, is_null, strmatch, conj, disj, negation, sub, Parts, nil,
  cons, CmpOp, eq, ne, gt, ge, lt, le, like, StrMode, contains, prefix, suffix,
}

-- `v === null || v === undefined`
unfoldable pub missing : Option Cell → Bool
missing none = true
missing (some null) = true
missing (some v) = false

module _ (host : Host) where
  -- `typeof left === "string" && likeToRegex(String(right)).test(left)`
  unfoldable pub like_matches : Cell → Cell → Bool
  unfolding like_units units to_text
  like_matches (text s) right = like_units host.fold (units (to_text host right)) (units s)
  like_matches left right = false

  unfoldable pub compare_bound : CmpOp → Cell → Cell → Bool
  unfolding strict_eq less less_eq like_matches
  compare_bound eq left right = strict_eq left right
  compare_bound ne left right = not (strict_eq left right)
  compare_bound gt left right = less host right left
  compare_bound ge left right = less_eq host right left
  compare_bound lt left right = less host left right
  compare_bound le left right = less_eq host left right
  compare_bound like left right = like_matches left right

  -- the "cmp" case
  unfoldable pub eval_cmp : CmpOp → Option Cell → Cell → Bool
  unfolding compare_bound bind
  eval_cmp op left null = false
  eval_cmp op none right = false
  eval_cmp op (some null) right = false
  eval_cmp op (some v) right = compare_bound op (bind v) (bind right)

  -- the "in" case
  unfoldable pub eval_in : Option Cell → List Cell → Bool → Bool
  unfolding any bind strict_eq
  eval_in none values negate = false
  eval_in (some null) values negate = false
  eval_in (some v) values negate =
      let found = any (λ x. strict_eq (bind x) (bind v)) values in
      if negate then not found else found

  -- the "strmatch" case
  unfoldable pub eval_strmatch : Option Cell → String → StrMode → Bool
  unfolding includes starts ends units
  eval_strmatch (some (text s)) needle contains =
      includes (units (host.lower s)) (units (host.lower needle))
  eval_strmatch (some (text s)) needle prefix =
      starts (units (host.lower s)) (units (host.lower needle))
  eval_strmatch (some (text s)) needle suffix =
      ends (units (host.lower s)) (units (host.lower needle))
  eval_strmatch _ needle mode = false

  -- the "null" case
  unfoldable pub eval_null : Option Cell → Bool → Bool
  unfolding missing
  eval_null v negate = if negate then not (missing v) else missing v

  -- A relation predicate cannot be evaluated on a row: it throws. `every` and `some` stop at the
  -- first part that decides.
  unfoldable mutual
    unfolding lookup eval_cmp eval_in eval_strmatch eval_null

    pub eval_expr : SqlExpr → Row → Result Bool
    eval_expr always row = ok true
    eval_expr never row = ok false
    eval_expr (cmp op col value) row = ok (eval_cmp op (column row col) value)
    eval_expr (in_list col values negate) row = ok (eval_in (column row col) values negate)
    eval_expr (is_null col negate) row = ok (eval_null (column row col) negate)
    eval_expr (strmatch col needle mode) row = ok (eval_strmatch (column row col) needle mode)
    eval_expr (conj ps) row = eval_every ps row
    eval_expr (disj ps) row = eval_some ps row
    eval_expr (negation e) row = do b ← eval_expr e row; ok (not b)
    eval_expr (sub _ _ _ _ _) row = err failure

    pub eval_every : Parts → Row → Result Bool
    eval_every nil row = ok true
    eval_every (cons e ps) row = do b ← eval_expr e row; if b then eval_every ps row else ok false

    pub eval_some : Parts → Row → Result Bool
    eval_some nil row = ok false
    eval_some (cons e ps) row = do b ← eval_expr e row; if b then ok true else eval_some ps row
