-- ===== src/Db/Relations.antt =====
-- `loadRelation` of runtime/db.ts: the rows that a relation attaches to each row of a read.
--
-- What is attached is kept beside the row, under the relation's name, which is no column's.
use pramen.Base.{
  String, Bool, true, false, not, ◌||◌, Option, none, some, List, [], ◌∷◌, ◌++◌, any, lookup, add,
  read, Result, ok, err, failure, acl_denied, guard, if◌then◌else◌,
}
use pramen.Cell.{Cell, null, Row, column, strict_eq}
use pramen.Expr.{in_list}
use pramen.Schema.{
  RelationDef, RelationKind, belongs_to, one_has_one, has_many, one_has_one_inverse, many_to_many,
}
use pramen.Acl.Merge.{Scope, allow_all}
use pramen.Acl.Fields.{effective_fields, flag_columns, project_row}
use pramen.Acl.Scoped.{pk_of, relations_of}
use pramen.Acl.Scoped.Hops.{resolve_relation_scope, resolve_scope, and_scope}
use pramen.Db.{Env, Run, pure, lift, ◌>>=◌, ◌>>◌, modify, touch, strip_hidden, strip_flags}
use pramen.Db.Read.{is_hidden, projection_columns, select_raw, outside}

pub data Related : Type 0 where
  one : Option Row → Related
  many : List Row → Related

-- `row[col]`; undefined counts as null
unfoldable pub cell_at : String → Row → Cell
unfolding lookup
cell_at col row = elim (column row col) [ none ↦ null | some v ↦ v ]

unfoldable pub is_null_cell : Cell → Bool
is_null_cell null = true
is_null_cell _ = false

-- `[...new Set(vs)]`
unfoldable pub distinct_cells : List Cell → List Cell → List Cell
unfolding any strict_eq
distinct_cells [] out = out
distinct_cells (v ∷ vs) out =
    distinct_cells vs (if any (strict_eq v) out then out else out ++ v ∷ [])

-- the values of a column, less the nulls
unfoldable pub values_of : String → List Row → List Cell
unfolding cell_at is_null_cell
values_of col [] = []
values_of col (r ∷ rs) =
    let rest = values_of col rs in
    if is_null_cell (cell_at col r) then rest else cell_at col r ∷ rest

abbrev pub Keyed : Type 0
Keyed = List (Cell × Row)

-- the maps by key: the first entry, the last one, and all of them in order
unfoldable pub first_for : Cell → Keyed → Option Row
unfolding strict_eq
first_for k [] = none
first_for k ((j, r) ∷ rest) = if strict_eq j k then some r else first_for k rest

unfoldable pub last_for : Cell → Keyed → Option Row
unfolding strict_eq
last_for k [] = none
last_for k ((j, r) ∷ rest) = elim (last_for k rest) [
  | some later ↦ some later
  | none ↦ if strict_eq j k then some r else none
]

unfoldable pub all_for : Cell → Keyed → List Row
unfolding strict_eq
all_for k [] = []
all_for k ((j, r) ∷ rest) =
    let others = all_for k rest in if strict_eq j k then r ∷ others else others

unfoldable pub each : {A B : Type 0} → (A → Result B) → List A → Result (List B)
each f [] = ok []
each f (x ∷ xs) = elim (f x) [
  | err e ↦ err e
  | ok y ↦ elim (each f xs) [ err e ↦ err e | ok ys ↦ ok (y ∷ ys) ]
]

unfoldable pub select_marked : List Bool → List Row → List Row
select_marked (true ∷ bs) (r ∷ rs) = r ∷ select_marked bs rs
select_marked (false ∷ bs) (r ∷ rs) = select_marked bs rs
select_marked _ _ = []

module _ (env : Env) where
  -- `joinVisible`
  unfoldable pub join_visible : String → Scope → String → Row → Result Bool
  unfolding is_hidden effective_fields outside
  join_visible entity scope col row =
      if is_hidden env entity col
      then ok false
      else (elim (effective_fields env.acl.host env.acl.identity row row scope) [
        | err e ↦ err e
        | ok fields ↦ ok (not (outside fields col))
      ])

  -- `project` of `loadRelation`
  unfoldable pub project_target : String → Scope → Row → Result Row
  unfolding effective_fields project_row strip_flags strip_hidden
  project_target target scope row =
      elim (effective_fields env.acl.host env.acl.identity row row scope) [
        | err e ↦ err e
        | ok fields ↦ ok (strip_hidden env.acl.schema target (strip_flags (project_row row fields)))
      ]

  unfoldable pub keyed_row : String → Scope → String → Row → Result (Cell × Row)
  unfolding project_target cell_at
  keyed_row target scope col row = elim (project_target target scope row) [
    | err e ↦ err e
    | ok shown ↦ ok (cell_at col row, shown)
  ]

  unfoldable pub with_column : String → List String → List String
  unfolding add
  with_column col [] = []
  with_column col (c ∷ cs) = add col (c ∷ cs)

  -- the rows of a table whose column is among the values, within a scope
  unfoldable pub read_by : String → Scope → String → List String → List Cell → Run (List Row)
  unfolding select_raw projection_columns
  read_by table scope col columns values =
      select_raw env table (and_scope (in_list col values false) scope.where_) [] none none columns
        (flag_columns scope)

  unfoldable pub marks : Bool → String → Scope → String → List Row → Result (List Bool)
  unfolding each join_visible
  marks checked table scope col rows =
      each (λ r. if checked then join_visible table scope col r else ok true) rows

  -- `fetchBy`
  unfoldable pub fetch_by : String → Scope → Bool → String → List Cell → Run Keyed
  unfolding read_by marks select_marked each keyed_row with_column projection_columns
  fetch_by target scope target_fk col [] = pure []
  fetch_by target scope target_fk col (v ∷ vs) = do
    rows ←
        read_by target scope col (with_column col (projection_columns env target scope none [] []))
          (v ∷ vs)
    visible ← lift (marks target_fk target scope col rows)
    lift (each (keyed_row target scope col) (select_marked visible rows))

  unfoldable pub single_of : String → Keyed → List (Row × Bool) → List Related
  unfolding last_for cell_at
  single_of col found [] = []
  single_of col found ((r, joins) ∷ rest) =
      one (if joins then last_for (cell_at col r) found else none) ∷ single_of col found rest

  unfoldable pub joins_row : String → Scope → String → Row → Result (Row × Bool)
  unfolding join_visible cell_at is_null_cell
  joins_row parent scope col r =
      if is_null_cell (cell_at col r)
      then ok (r, false)
      else (elim (join_visible parent scope col r) [ err e ↦ err e | ok b ↦ ok (r, b) ])

  unfoldable pub joined : List (Row × Bool) → List Row
  joined [] = []
  joined ((r, b) ∷ rest) = let others = joined rest in if b then r ∷ others else others

  -- the links of a junction whose two columns the caller may read
  unfoldable pub read_links : String → Scope → String → String → List Cell → Run (List Row)
  unfolding read_by marks select_marked with_column projection_columns
  read_links through scope source target values = do
    rows ←
        read_by through scope source
          (with_column target
            (with_column source (projection_columns env through scope none [] [])))
          values
    by_source ← lift (marks true through scope source rows)
    by_target ← lift (marks true through scope target (select_marked by_source rows))
    pure (select_marked by_target (select_marked by_source rows))

  unfoldable pub through_links : String → String → Keyed → List Row → Keyed
  unfolding last_for cell_at
  through_links source target found [] = []
  through_links source target found (l ∷ ls) =
      let rest = through_links source target found ls in
      elim (last_for (cell_at target l) found) [
        | none ↦ rest
        | some t ↦ (cell_at source l, t) ∷ rest
      ]

  unfoldable pub inverse_of : String → Keyed → List Row → List Related
  unfolding first_for cell_at
  inverse_of pk found [] = []
  inverse_of pk found (r ∷ rs) = one (first_for (cell_at pk r) found) ∷ inverse_of pk found rs

  unfoldable pub lists_of : String → Keyed → List Row → List Related
  unfolding all_for cell_at
  lists_of pk found [] = []
  lists_of pk found (r ∷ rs) = many (all_for (cell_at pk r) found) ∷ lists_of pk found rs

  unfoldable pub no_links : List Cell → Scope → Bool → Bool
  no_links [] scope hidden = true
  no_links (v ∷ vs) scope hidden = not scope.allowed || hidden

  -- the scope of a junction's own reads
  unfoldable pub junction_scope : String → Result Scope
  unfolding resolve_scope
  junction_scope through =
      if env.acl.system then ok allow_all else resolve_scope env.acl through read 0

  unfoldable pub load_many_to_many :
      String → RelationDef → String → String → Scope → List Row → Run (List Related)
  unfolding touch junction_scope no_links values_of distinct_cells read_links through_links fetch_by
      pk_of lists_of is_hidden
  load_many_to_many parent rel through target_column scope rows =
      let pk = pk_of env.acl.schema parent in
      let ids = distinct_cells (values_of pk rows) [] in
      let hidden = is_hidden env through rel.column || is_hidden env through target_column in
      modify (touch through)
      >> (lift (junction_scope through) >>= λ j_scope.
          if no_links ids j_scope hidden
          then pure (lists_of pk [] rows)
          else (read_links through j_scope rel.column target_column ids >>= λ links.
              fetch_by rel.target scope false (pk_of env.acl.schema rel.target)
                (distinct_cells (values_of target_column links) [])
              >>= λ found.
                  pure (lists_of pk (through_links rel.column target_column found links) rows)))

  unfoldable pub load_single : String → RelationDef → Scope → Scope → List Row → Run (List Related)
  unfolding each joins_row fetch_by pk_of joined values_of distinct_cells single_of
  load_single parent rel parent_scope scope rows = do
    marked ← lift (each (joins_row parent parent_scope rel.column) rows)
    found ←
        fetch_by rel.target scope false (pk_of env.acl.schema rel.target)
          (distinct_cells (values_of rel.column (joined marked)) [])
    pure (single_of rel.column found marked)

  unfoldable pub load_kind :
      String → RelationDef → Scope → Scope → List Row → RelationKind → Run (List Related)
  unfolding load_many_to_many load_single fetch_by pk_of values_of distinct_cells inverse_of
      lists_of
  load_kind parent rel parent_scope scope rows (belongs_to _) =
      load_single parent rel parent_scope scope rows
  load_kind parent rel parent_scope scope rows (one_has_one _) =
      load_single parent rel parent_scope scope rows
  load_kind parent rel parent_scope scope rows (many_to_many through target_column) =
      load_many_to_many parent rel through target_column scope rows
  load_kind parent rel parent_scope scope rows one_has_one_inverse =
      let pk = pk_of env.acl.schema parent in
      fetch_by rel.target scope true rel.column (distinct_cells (values_of pk rows) []) >>= λ found.
      pure (inverse_of pk found rows)
  load_kind parent rel parent_scope scope rows has_many =
      let pk = pk_of env.acl.schema parent in
      fetch_by rel.target scope true rel.column (distinct_cells (values_of pk rows) []) >>= λ found.
      pure (lists_of pk found rows)

  unfoldable pub load_known : String → String → Scope → List Row → RelationDef → Run (List Related)
  unfolding touch resolve_relation_scope load_kind
  load_known parent name parent_scope rows rel = do
    modify (touch rel.target)
    scope ← lift (resolve_relation_scope env.acl parent name rel.target)
    lift (guard scope.allowed (acl_denied rel.target read none))
    load_kind parent rel parent_scope scope rows rel.kind

  -- `loadRelation`, with what it attaches to each row
  unfoldable pub load_relation : String → List Row → String → Scope → Run (List Related)
  unfolding load_known relations_of lookup
  load_relation parent rows name parent_scope =
      elim (lookup name (relations_of env.acl.schema parent)) [
        | none ↦ lift (err failure)
        | some rel ↦ load_known parent name parent_scope rows rel
      ]
