-- ===== src/Db/Queries.antt =====
-- `find`, `page`, `count` and `aggregate` of runtime/db.ts.
pub mod Rows
pub mod Columns
pub mod Pages
pub mod Statements
pub mod Shown
use pramen.Base.{
  ℕ, suc, ◌+◌, String, Bool, true, false, ltb, Option, none, some, List, [], ◌∷◌, ◌++◌, map, length,
  any, contains, add, set_of, ◌==◌, Result, ok, err, bad_request, read, guard, if◌then◌else◌, not,
}
use pramen.Cell.{Row}
use pramen.Cell.Int.{ℤ, pos}
use pramen.Expr.{SqlExpr, and}
use pramen.Where.{WhereRule}
use pramen.Acl.Merge.{Scope}
use pramen.Acl.Fields.{flag_columns}
use pramen.Acl.Scoped.{pk_of, relations_of}
use pramen.Schema.{RelationDef, SchemaDef}
use pramen.Acl.Readable.{owns_key}
use pramen.Db.{Env, Store, Run, pure, lift, ◌>>=◌, ◌>>◌, get, json_cols, Aggregation}
use pramen.Db.Read.{
  enter, read_where, check_readable, check_selectable, projection_columns, select_raw, finish_rows,
  is_hidden, outside, refuse_where, matching,
}
use pramen.Db.Relations.{Related, load_relation}
use pramen.Base.{lookup}
use pramen.Db.{take_rows}
use pramen.Db.Cursor.{Order, encode_cursor, decode_cursor, keyset_after}

-- `with` names the relations that are loaded, and `select` the columns; no column is every one.
pub record FindSpec : Type 0 where
  pub from : String
  pub where_ : Option WhereRule
  pub order_by : Order
  pub limit : Option ℤ
  pub offset : Option ℤ
  pub relations : List String
  pub select : List String

-- a row with what its relations attach
pub record Found : Type 0 where
  pub row : Row
  pub related : List (String × Related)

unfoldable pub selection : List String → Option (List String)
unfolding set_of
selection [] = none
selection (c ∷ cs) = some (set_of (c ∷ cs))

unfoldable pub order_cols : Order → List String
order_cols [] = []
order_cols ((c, desc) ∷ os) = c ∷ order_cols os

-- `joinColOf`
unfoldable pub join_cols : SchemaDef → String → List String → List String
unfolding relations_of owns_key pk_of
join_cols schema from [] = []
join_cols schema from (name ∷ names) =
    let rest = join_cols schema from names in
    elim (lookup name (relations_of schema from)) [
      | none ↦ rest
      | some rel ↦ (if owns_key rel.kind then rel.column else pk_of schema from) ∷ rest
    ]

unfoldable pub attach : String → List Related → List Found → List Found
attach name (x ∷ xs) (f ∷ fs) =
    record f { related = f.related ++ (name, x) ∷ [] } ∷ attach name xs fs
attach name _ _ = []

unfoldable pub bare : List Row → List Found
bare [] = []
bare (r ∷ rs) = record { row = r; related = [] } ∷ bare rs

unfoldable pub with_rows : List Row → List Found → List Found
with_rows (r ∷ rs) (f ∷ fs) = record f { row = r } ∷ with_rows rs fs
with_rows _ _ = []

module _ (env : Env) where
  unfoldable pub check_selection : String → Scope → Option (List String) → Result (Unit {0})
  unfolding check_selectable
  check_selection from scope none = ok tt
  check_selection from scope (some sel) = check_selectable env from scope sel

  -- the relations of `finishRows`, one after the other
  unfoldable pub load_all : String → Scope → List Row → List String → List Found → Run (List Found)
  unfolding load_relation attach
  load_all from scope raw [] found = pure found
  load_all from scope raw (name ∷ names) found = do
    related ← load_relation env from raw name scope
    load_all from scope raw names (attach name related found)

  -- `finishRows`
  unfoldable pub finish :
      String → Scope → List Row → List String → Option (List String) → Run (List Found)
  unfolding load_all bare finish_rows with_rows
  finish from scope raw relations select = do
    found ← load_all from scope raw relations (bare raw)
    rows ← lift (finish_rows env from scope select raw)
    pure (with_rows rows found)

  unfoldable pub find : FindSpec → Run (List Found)
  unfolding enter read_where check_readable order_cols check_selection selection projection_columns
      join_cols select_raw finish
  find spec = do
    scope ← enter env spec.from read
    where_ ← read_where env spec.from spec.where_ scope
    lift (check_readable env spec.from scope (order_cols spec.order_by))
    lift (check_selection spec.from scope (selection spec.select))
    raw ←
        select_raw env spec.from where_ spec.order_by spec.limit spec.offset
          (projection_columns env spec.from scope (selection spec.select) (order_cols spec.order_by)
            (join_cols env.acl.schema spec.from spec.relations))
          (flag_columns scope)
    finish spec.from scope raw spec.relations (selection spec.select)

-- A page's limit is no negative number.
pub record PageSpec : Type 0 where
  pub from : String
  pub where_ : Option WhereRule
  pub order_by : Order
  pub limit : Option ℕ
  pub after : Option String
  pub relations : List String
  pub select : List String

pub record Page : Type 0 where
  pub items : List Found
  pub cursor : Option String
  pub has_more : Bool

unfoldable pub last_desc : Order → Bool → Bool
last_desc [] desc = desc
last_desc ((c, d) ∷ os) desc = last_desc os d

-- `orderWithPk`: the primary key breaks ties, in the direction of the last column
unfoldable pub order_with_pk : SchemaDef → String → Order → Order
unfolding pk_of contains order_cols last_desc
order_with_pk schema from order =
    if contains (pk_of schema from) (order_cols order)
    then order
    else order ++ (pk_of schema from, last_desc order false) ∷ []

unfoldable pub last_row : List Row → Option Row
last_row [] = none
last_row (r ∷ []) = some r
last_row (r ∷ s ∷ rs) = last_row (s ∷ rs)

abbrev pub default_page_size : ℕ
default_page_size = 50

unfoldable pub page_size : Option ℕ → ℕ
page_size none = default_page_size
page_size (some n) = n

module _ (env : Env) where
  unfoldable pub after_cursor : Order → Option String → SqlExpr → Result SqlExpr
  unfolding decode_cursor keyset_after
  after_cursor order none where_ = ok where_
  after_cursor order (some s) where_ = elim (decode_cursor env.engine s) [
    | err e ↦ err e
    | ok values ↦ elim (keyset_after order values) [
      | err e ↦ err e
      | ok e ↦ ok (and (where_ ∷ e ∷ []))
    ]
  ]

  unfoldable pub cursor_of : Order → Option Row → Result (Option String)
  unfolding encode_cursor
  cursor_of order none = ok none
  cursor_of order (some row) = elim (encode_cursor env.engine order row) [
    | err e ↦ err e
    | ok s ↦ ok (some s)
  ]

  unfoldable pub page : PageSpec → Run Page
  unfolding enter order_with_pk order_cols check_readable read_where after_cursor check_selection
      selection projection_columns join_cols select_raw page_size take_rows finish cursor_of
      last_row
  page spec = do
    scope ← enter env spec.from read
    lift (
        check_readable env spec.from scope
          (order_cols (order_with_pk env.acl.schema spec.from spec.order_by)))
    own ← read_where env spec.from spec.where_ scope
    where_ ←
        lift (after_cursor (order_with_pk env.acl.schema spec.from spec.order_by) spec.after own)
    lift (check_selection env spec.from scope (selection spec.select))
    raw ←
        select_raw env spec.from where_ (order_with_pk env.acl.schema spec.from spec.order_by)
          (some (pos (suc (page_size spec.limit)))) none
          (projection_columns env spec.from scope (selection spec.select)
            (order_cols (order_with_pk env.acl.schema spec.from spec.order_by))
            (join_cols env.acl.schema spec.from spec.relations))
          (flag_columns scope)
    cursor ← lift (
        cursor_of (order_with_pk env.acl.schema spec.from spec.order_by)
          (last_row (take_rows (page_size spec.limit) raw)))
    items ←
        finish env spec.from scope (take_rows (page_size spec.limit) raw) spec.relations
          (selection spec.select)
    pure (record {
      items = items;
      cursor = cursor;
      has_more = ltb (page_size spec.limit) (length raw);
    })

  unfoldable pub count : String → Option WhereRule → Run ℕ
  unfolding enter read_where matching
  count from w = do
    scope ← enter env from read
    where_ ← read_where env from w scope
    s ← get
    pure (length (matching env s.tables from where_))

  -- the columns of the aggregations
  unfoldable pub aggregated_cols : List (String × Aggregation) → List String
  aggregated_cols [] = []
  aggregated_cols ((key, agg) ∷ rest) = elim agg.column [
    | none ↦ aggregated_cols rest
    | some c ↦ c ∷ aggregated_cols rest
  ]

  unfoldable pub check_aggregate : String → Scope → List String → Result (Unit {0})
  unfolding contains json_cols check_readable
  check_aggregate from scope cols =
      if any (λ c. contains c (json_cols env.acl.schema from)) cols
      then err bad_request
      else check_readable env from scope cols

  unfoldable pub aggregate :
      String → Option WhereRule → List String → List (String × Aggregation) → Run (List Row)
  unfolding enter aggregated_cols check_aggregate read_where matching
  aggregate from w group_by aggregations = do
    scope ← enter env from read
    lift (check_aggregate from scope (group_by ++ aggregated_cols aggregations))
    where_ ← read_where env from w scope
    s ← get
    pure (env.engine.grouped group_by aggregations (matching env s.tables from where_))
