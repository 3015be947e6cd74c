-- ===== src/Expr/Meaning.antt =====
-- What a predicate means on a row, relation predicates included, and its agreement with
-- `evalExpr`. `linked` stands for the database: does the row satisfy a subquery node?
use pramen.Base.{
  String, Bool, true, false, not, ◌&&◌, ◌||◌, ◌≡◌, refl, Result, ok, if◌then◌else◌, or-eq-false,
}
use pramen.Cell.{Row, Host, column}
use pramen.Expr.{
  SqlExpr, always, never, cmp, in_list, is_null, strmatch, conj, disj, negation, sub, Parts, nil,
  cons, has_sub, some_sub,
}
use pramen.Expr.Eval.{eval_cmp, eval_in, eval_strmatch, eval_null, eval_expr, eval_every, eval_some}

-- the fields of a "sub" node: outerCol, from, selectCol, where, negate
abbrev pub Linked : Type 0
Linked = String → String → String → SqlExpr → Bool → Row → Bool

every_step :
    (b : Bool) (r : Result Bool) (c : Bool) → r ≡ ok c → (if b then r else ok false) ≡ ok (b && c)
every_step true r c h = h
every_step false r c h = refl

some_step :
    (b : Bool) (r : Result Bool) (c : Bool) → r ≡ ok c → (if b then ok true else r) ≡ ok (b || c)
some_step true r c h = refl
some_step false r c h = h

module _ (host : Host) (linked : Linked) where
  unfoldable mutual
    pub holds : SqlExpr → Row → Bool
    holds always row = true
    holds never row = false
    holds (cmp op col value) row = eval_cmp host op (column row col) value
    holds (in_list col values negate) row = eval_in host (column row col) values negate
    holds (is_null col negate) row = eval_null host (column row col) negate
    holds (strmatch col needle mode) row = eval_strmatch host (column row col) needle mode
    holds (conj ps) row = all_hold ps row
    holds (disj ps) row = some_holds ps row
    holds (negation e) row = not (holds e row)
    holds (sub outer from select where_ negate) row = linked outer from select where_ negate row

    pub all_hold : Parts → Row → Bool
    all_hold nil row = true
    all_hold (cons e ps) row = holds e row && all_hold ps row

    pub some_holds : Parts → Row → Bool
    some_holds nil row = false
    some_holds (cons e ps) row = holds e row || some_holds ps row

  mutual
    unfolding holds eval_expr has_sub

    eval_lem :
        (e : SqlExpr) (row : Row) → has_sub e ≡ false → eval_expr host e row ≡ ok (holds e row)
    eval_lem always row h = refl
    eval_lem never row h = refl
    eval_lem (cmp op col value) row h = refl
    eval_lem (in_list col values negate) row h = refl
    eval_lem (is_null col negate) row h = refl
    eval_lem (strmatch col needle mode) row h = refl
    eval_lem (conj ps) row h = every_lem ps row h
    eval_lem (disj ps) row h = some_lem ps row h
    eval_lem (negation e) row h = rw (eval_lem e row h)
    eval_lem (sub _ _ _ _ _) row h = cc

    every_lem :
        (ps : Parts) (row : Row)
        → some_sub ps ≡ false
        → eval_every host ps row ≡ ok (all_hold ps row)
    every_lem nil row h = refl
    every_lem (cons e ps) row h =
        let (here, later) = or-eq-false (has_sub e) (some_sub ps) h in
        rw (eval_lem e row here) (every_step (holds e row) _ _ (every_lem ps row later))

    some_lem :
        (ps : Parts) (row : Row)
        → some_sub ps ≡ false
        → eval_some host ps row ≡ ok (some_holds ps row)
    some_lem nil row h = refl
    some_lem (cons e ps) row h =
        let (here, later) = or-eq-false (has_sub e) (some_sub ps) h in
        rw (eval_lem e row here) (some_step (holds e row) _ _ (some_lem ps row later))

  -- a predicate with no relation in it is evaluated in memory without an error
  pub eval_expr-holds :
      (e : SqlExpr) (row : Row) → has_sub e ≡ false → eval_expr host e row ≡ ok (holds e row)
  eval_expr-holds e row h = eval_lem e row h
