-- ===== src/Db/Read.antt =====
-- The reads of `Db`: `find`, `page`, `count` and `aggregate`, and what they share.
use pramen.Base.{
  String, Bool, true, false, not, Option, none, some, List, [], ◌∷◌, ◌++◌, map, keep, contains, add,
  add_all, set_of, Action, read, Result, ok, err, acl_denied, guard, if◌then◌else◌,
}
use pramen.Base.{◌>>=◌ as ◌then◌}
use pramen.Cell.{Row}
use pramen.Cell.Int.{ℤ}
use pramen.Expr.{SqlExpr, always, and}
use pramen.Where.{WhereRule, nested}
use pramen.Acl.Merge.{Scope}
use pramen.Acl.Fields.{
  effective_fields, possible_fields, has_fields_fn, scope_input_columns, flag_columns, project_row,
  pick,
}
use pramen.Acl.Readable.{check_where}
use pramen.Acl.Scoped.{pk_of}
use pramen.Acl.Scoped.Hops.{compile_scoped_where}
use pramen.Db.{
  Database, Env, Run, pure, lift, ◌>>=◌, ◌>>◌, get, modify, touch, touch_tables, rows_of,
  in_partition, scope_for, all_cols, hidden_cols, strip_hidden, strip_flags, decode_row, limited,
  skipped, flag_row,
}

-- every column of `cs` is readable, or the first that is not is refused
unfoldable pub refuse_where : String → (String → Bool) → List String → Result (Unit {0})
refuse_where from bad [] = ok tt
refuse_where from bad (c ∷ cs) =
    let rest = refuse_where from bad cs in
    if bad c then err (acl_denied from read (some c)) else rest

unfoldable pub outside : Option (List String) → String → Bool
unfolding contains
outside none c = false
outside (some fs) c = not (contains c fs)

module _ (env : Env) where
  unfoldable pub is_hidden : String → String → Bool
  unfolding contains hidden_cols
  is_hidden from c = contains c (hidden_cols env.acl.schema from)

  -- `assertReadableCols`: the hidden columns first
  unfoldable pub check_readable : String → Scope → List String → Result (Unit {0})
  unfolding refuse_where outside is_hidden
  check_readable from scope cs = elim (refuse_where from (is_hidden from) cs) [
    | err e ↦ err e
    | ok _ ↦ refuse_where from (outside scope.fields) cs
  ]

  -- `assertSelectable`
  unfoldable pub check_selectable : String → Scope → List String → Result (Unit {0})
  unfolding refuse_where outside is_hidden possible_fields
  check_selectable from scope cs = elim (refuse_where from (is_hidden from) cs) [
    | err e ↦ err e
    | ok _ ↦ refuse_where from (outside (possible_fields scope)) cs
  ]

  -- the caller's filter, and the scope's
  unfoldable pub user_where : String → Option WhereRule → Scope → Result SqlExpr
  unfolding check_where compile_scoped_where
  user_where from none scope = ok always
  user_where from (some w) scope = elim (check_where (nested w) from scope.fields env.acl.schema) [
    | err e ↦ err e
    | ok _ ↦ compile_scoped_where env.acl from false true 0 w
  ]

  unfoldable pub within_scope : SqlExpr → Scope → SqlExpr
  within_scope e scope = elim scope.where_ [ none ↦ e | some w ↦ and (e ∷ w ∷ []) ]

  -- `readWhere`
  unfoldable pub read_where : String → Option WhereRule → Scope → Run SqlExpr
  unfolding user_where within_scope touch_tables
  read_where from w scope = do
    e ← lift (user_where from w scope)
    modify (touch_tables (within_scope e scope))
    pure (within_scope e scope)

  -- the opening of each read: the table is touched, the partition and the scope are checked
  unfoldable pub enter : String → Action → Run Scope
  unfolding touch in_partition scope_for
  enter from action = do
    modify (touch from)
    lift (in_partition env from)
    scope ← lift (scope_for env from action)
    lift (guard scope.allowed (acl_denied from action none))
    pure scope

  unfoldable pub unhidden : String → List String → List String
  unfolding keep is_hidden
  unhidden from cs = keep (λ c. not (is_hidden from c)) cs

  unfoldable pub scope_cols : String → Option (List String) → List String
  unfolding unhidden all_cols
  scope_cols from none = unhidden from (all_cols env.acl.schema from)
  scope_cols from (some fs) = unhidden from fs

  unfoldable pub visible_cols : String → Scope → Option (List String) → List String
  unfolding unhidden scope_cols possible_fields has_fields_fn all_cols
  visible_cols from scope select =
      let of_scope = scope_cols from (possible_fields scope) in
      elim select [
        | none ↦ of_scope
        | some sel ↦ if has_fields_fn scope then of_scope else unhidden from sel
      ]

  -- `projectionColumns`; `joins` are the join columns of the relations that are loaded. No column is
  -- `SELECT *`.
  unfoldable pub projection_columns :
      String → Scope → Option (List String) → List String → List String → List String
  unfolding visible_cols set_of add add_all scope_input_columns pk_of all_cols keep contains
  projection_columns from scope select order joins =
      let all = all_cols env.acl.schema from in
      let needed = add_all joins (
        add_all (scope_input_columns scope) (
          add_all order
            (add (pk_of env.acl.schema from) (set_of (visible_cols from scope select))))) in
      keep (λ c. contains c all) needed

  unfoldable pub select_cols : List String → Row → Row
  unfolding pick
  select_cols [] row = row
  select_cols (c ∷ cs) row = pick row (c ∷ cs)

  -- one row that a SELECT returns
  unfoldable pub selected : Database → String → List String → List (String × SqlExpr) → Row → Row
  unfolding select_cols flag_row
  selected db from columns flags row = select_cols columns row ++ flag_row env db from flags row

  unfoldable pub matching : Database → String → SqlExpr → List Row
  unfolding keep rows_of
  matching db from where_ = keep (env.engine.matches db from where_) (rows_of db from)

  unfoldable pub select_rows :
      Database
      → String
      → SqlExpr
      → List (String × Bool)
      → Option ℤ
      → Option ℤ
      → List String
      → List (String × SqlExpr)
      → List Row
  unfolding matching limited skipped selected
  select_rows db from where_ order limit offset columns flags =
      map (selected db from columns flags)
        (limited limit (skipped offset (env.engine.ordered order (matching db from where_))))

  -- `selectRaw`
  unfoldable pub select_raw :
      String
      → SqlExpr
      → List (String × Bool)
      → Option ℤ
      → Option ℤ
      → List String
      → List (String × SqlExpr)
      → Run (List Row)
  unfolding select_rows decode_row
  select_raw from where_ order limit offset columns flags = do
    s ← get
    pure (
        map (decode_row env from)
          (select_rows s.tables from where_ order limit offset columns flags))

  -- the fields of a row that are shown: those of the scope, narrowed to the selected ones
  unfoldable pub shown_fields : Option (List String) → Option (List String) → Option (List String)
  unfolding keep contains
  shown_fields none none = none
  shown_fields none (some sel) = some sel
  shown_fields (some eff) none = some eff
  shown_fields (some eff) (some sel) = some (keep (λ f. contains f sel) eff)

  -- the flags are dropped where there are any
  unfoldable pub without_flags : List (String × SqlExpr) → Row → Row
  unfolding strip_flags
  without_flags [] row = row
  without_flags (f ∷ fs) row = strip_flags row

  -- one row of `finishRows`
  unfoldable pub finish_row : String → Scope → Option (List String) → Row → Result Row
  unfolding effective_fields shown_fields project_row without_flags strip_hidden
  finish_row from scope select r = elim (effective_fields env.acl.host env.acl.identity r r scope) [
    | err e ↦ err e
    | ok eff ↦ ok (
        strip_hidden env.acl.schema from
          (without_flags (flag_columns scope) (project_row r (shown_fields eff select))))
  ]

  unfoldable pub finish_rows : String → Scope → Option (List String) → List Row → Result (List Row)
  unfolding finish_row
  finish_rows from scope select [] = ok []
  finish_rows from scope select (r ∷ rs) = elim (finish_row from scope select r) [
    | err e ↦ err e
    | ok row ↦ elim (finish_rows from scope select rs) [ err e ↦ err e | ok rows ↦ ok (row ∷ rows) ]
  ]
