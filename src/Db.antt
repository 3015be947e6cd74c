-- ===== src/Db.antt =====
-- The repository that handlers use: the class `Db` of packages/server/src/runtime/db.ts.
--
-- A database is its tables, each the list of its rows as they are stored. The SQL engine is the
-- record `Engine`: which rows a predicate selects, how it orders them, the row that an INSERT
-- stores, and the codecs of values. A `Run` passes the state of one `Db` along: the database, the
-- outbox, and what the live queries and the drain are told.
pub mod Read
pub mod Relations
pub mod Cursor
pub mod Queries
pub mod Values
pub mod Triggers
pub mod Echo
pub mod Insert
pub mod Preimage
pub mod Update
pub mod Steps
pub mod Selected
pub mod Authorized
pub mod Minted
pub mod Writes
pub mod Partition
use pramen.Base.{
  ℕ, zero, suc, ◌+◌, ◌-◌, String, Bool, true, false, not, ◌&&◌, ◌||◌, ◌==◌, eqb, Option, none, some,
  List, [], ◌∷◌, ◌++◌, map, keep, keys, lookup, contains, add, add_all, any, Action, Result, ok,
  err, bad_request, guard, if◌then◌else◌,
}
use pramen.Cell.{Cell, null, boolean, number, text, Row, column}
use pramen.Cell.Int.{ℤ, pos, negsuc, eqb_ℤ}
use pramen.Cell.Text.{units, starts}
use pramen.Expr.{SqlExpr, sub, conj, disj, negation, Parts, nil, cons}
use pramen.Schema.{
  SchemaDef, EntityDef, FieldDef, FieldType, json, file_ref, boolean as boolean_type, partition_of,
  TriggerOp,
}
use pramen.Acl.{AclContext}
use pramen.Acl.Merge.{Scope, allow_all}
use pramen.Acl.Scoped.Hops.{resolve_scope}
use pramen.Outbox.{Task}

abbrev pub Database : Type 0
Database = List (String × List Row)

pub data AggFn : Type 0 where
  count sum avg minimum maximum : AggFn

-- `Aggregation`; no column is `*`
pub record Aggregation : Type 0 where
  pub fn : AggFn
  pub column : Option String

pub record Engine : Type 0 where
  -- is the predicate true of a row of the table?
  pub matches : Database → String → SqlExpr → Row → Bool
  -- ORDER BY, a column with whether it is descending
  pub ordered : List (String × Bool) → List Row → List Row
  -- the row that an INSERT of these values stores
  pub filled : Database → String → Row → Row
  -- do the constraints allow a table these rows? An INSERT or an UPDATE that they refuse throws.
  pub accepts : Database → String → List Row → Bool
  -- what a DELETE of the rows that a predicate selects leaves, with what the foreign keys do to other rows;
  -- none where a foreign key refuses it, and it throws
  pub removed : Database → String → SqlExpr → Option Database
  -- `dialect.encode`, `JSON.stringify` and `JSON.parse`
  pub encode : Cell → Cell
  pub stringify : Cell → String
  pub parse : String → Option Cell
  -- `btoa(JSON.stringify(values))`, which throws on a character outside Latin-1, and back where it is an
  -- array
  pub pack : List Cell → Option String
  pub unpack : String → Option (List Cell)
  -- the groups and aggregations over the rows that are selected
  pub grouped : List String → List (String × Aggregation) → List Row → List Row

-- What a `Db` is made with, and the world around one run of it.
pub record Env : Type 0 where
  pub acl : AclContext
  pub partition : Option String
  pub suppress_triggers : Bool
  pub engine : Engine
  -- the wall clock, and `crypto.randomUUID()` by how many were taken before
  pub now : ℕ
  pub mint : ℕ → String
  -- the JSON of a trigger's payload
  pub payload : String → TriggerOp → Option Cell → Row → String
  -- what others write between the two statements of an attempt to update
  pub others : ℕ → Database → Database

pub record Store : Type 0 where
  pub tables : Database
  pub outbox : List Task
  pub touched : List String
  pub task_enqueues : ℕ
  pub minted : ℕ

abbrev pub Run : Type 0 → Type 0
Run A = Store → Result A × Store

abbrev pub pure : {A : Type 0} → A → Run A
pure a s = (ok a, s)

-- a thrown error leaves what has been done
abbrev pub lift : {A : Type 0} → Result A → Run A
lift m s = (m, s)

abbrev pub after : {A B : Type 0} → Result A × Store → (A → Run B) → Result B × Store
after (ok a, s) k = k a s
after (err e, s) k = (err e, s)

infixl 5 ◌>>=◌ ◌>>◌
abbrev pub ◌>>=◌ : {A B : Type 0} → Run A → (A → Run B) → Run B
m >>= k = λ s. after (m s) k

abbrev pub ◌>>◌ : {B : Type 0} → Run (Unit {0}) → Run B → Run B
m >> k = m >>= λ _. k

abbrev pub get : Run Store
get s = (ok s, s)

abbrev pub modify : (Store → Store) → Run (Unit {0})
modify f s = (ok tt, f s)

unfoldable pub touch : String → Store → Store
unfolding add
touch table s = record s { touched = add table s.touched }

-- `addTouchedTables`: the tables of the subqueries
unfoldable mutual
  unfolding add

  pub sub_tables : SqlExpr → List String → List String
  sub_tables (sub _ from _ e _) out = sub_tables e (add from out)
  sub_tables (conj ps) out = parts_tables ps out
  sub_tables (disj ps) out = parts_tables ps out
  sub_tables (negation e) out = sub_tables e out
  sub_tables _ out = out

  pub parts_tables : Parts → List String → List String
  parts_tables nil out = out
  parts_tables (cons e ps) out = parts_tables ps (sub_tables e out)

unfoldable pub touch_tables : SqlExpr → Store → Store
unfolding sub_tables
touch_tables e s = record s { touched = sub_tables e s.touched }

unfoldable pub rows_of : Database → String → List Row
unfolding lookup
rows_of db table = elim (lookup table db) [ none ↦ [] | some rows ↦ rows ]

-- `assertInPartition`
unfoldable pub in_partition : Env → String → Result (Unit {0})
unfolding partition_of
in_partition env table = elim env.partition [
  | none ↦ ok tt
  | some self ↦ guard (partition_of env.acl.schema table == self) bad_request
]

-- `scopeFor`
unfoldable pub scope_for : Env → String → Action → Result Scope
unfolding resolve_scope
scope_for env entity action =
    if env.acl.system then ok allow_all else resolve_scope env.acl entity action 0

unfoldable pub fields_of : SchemaDef → String → List (String × FieldDef)
unfolding lookup
fields_of schema table = elim (lookup table schema) [ none ↦ [] | some def ↦ def.fields ]

unfoldable pub names_where : (FieldDef → Bool) → List (String × FieldDef) → List String
names_where p [] = []
names_where p ((n, f) ∷ rest) =
    let others = names_where p rest in if p f then n ∷ others else others

unfoldable pub is_json : FieldType → Bool
is_json json = true
is_json file_ref = true
is_json _ = false

unfoldable pub is_boolean : FieldType → Bool
is_boolean boolean_type = true
is_boolean _ = false

-- `allColsOf`, `jsonColsOf`, `boolColsOf`, `hiddenColsOf`
unfoldable pub all_cols : SchemaDef → String → List String
unfolding fields_of keys
all_cols schema table = keys (fields_of schema table)

unfoldable pub json_cols : SchemaDef → String → List String
unfolding fields_of names_where is_json
json_cols schema table = names_where (λ f. is_json f.type) (fields_of schema table)

unfoldable pub bool_cols : SchemaDef → String → List String
unfolding fields_of names_where is_boolean
bool_cols schema table = names_where (λ f. is_boolean f.type) (fields_of schema table)

unfoldable pub hidden_cols : SchemaDef → String → List String
unfolding fields_of names_where
hidden_cols schema table = names_where (λ f. f.hidden) (fields_of schema table)

-- the columns of a row that `p` keeps
unfoldable pub keep_cols : (String → Bool) → Row → Row
keep_cols p [] = []
keep_cols p ((c, v) ∷ rest) =
    let others = keep_cols p rest in if p c then (c, v) ∷ others else others

-- `stripHidden`
unfoldable pub strip_hidden : SchemaDef → String → Row → Row
unfolding hidden_cols keep_cols contains
strip_hidden schema table row = keep_cols (λ c. not (contains c (hidden_cols schema table))) row

abbrev pub acl_flag_prefix : String
acl_flag_prefix = "__pramen_acl_"

unfoldable pub is_flag : String → Bool
unfolding starts units
is_flag c = starts (units c) (units acl_flag_prefix)

-- `stripFlags`
unfoldable pub strip_flags : Row → Row
unfolding keep_cols is_flag
strip_flags row = keep_cols (λ c. not (is_flag c)) row

module _ (env : Env) (table : String) where
  -- one cell of `decodeRows`: JSON text that parses, and 0 or 1
  unfoldable pub decode_cell : String → Cell → Cell
  unfolding contains json_cols bool_cols
  decode_cell c (text s) =
      if contains c (json_cols env.acl.schema table)
      then elim (env.engine.parse s) [ none ↦ text s | some v ↦ v ]
      else text s
  decode_cell c (number n) =
      if contains c (bool_cols env.acl.schema table)
      then boolean (not (eqb_ℤ n (pos 0)))
      else number n
  decode_cell c v = v

  unfoldable pub decode_row : Row → Row
  unfolding decode_cell
  decode_row [] = []
  decode_row ((c, v) ∷ rest) = (c, decode_cell c v) ∷ decode_row rest

  -- `encodeCell`
  unfoldable pub encode_cell : String → Cell → Cell
  unfolding contains json_cols
  encode_cell c null = env.engine.encode null
  encode_cell c v =
      if contains c (json_cols env.acl.schema table)
      then env.engine.encode (text (env.engine.stringify v))
      else env.engine.encode v

  unfoldable pub encode_row : Row → Row
  unfolding encode_cell
  encode_row [] = []
  encode_row ((c, v) ∷ rest) = (c, encode_cell c v) ∷ encode_row rest

unfoldable pub take_rows : ℕ → List Row → List Row
take_rows zero rs = []
take_rows (suc n) [] = []
take_rows (suc n) (r ∷ rs) = r ∷ take_rows n rs

unfoldable pub drop_rows : ℕ → List Row → List Row
drop_rows zero rs = rs
drop_rows (suc n) [] = []
drop_rows (suc n) (r ∷ rs) = drop_rows n rs

-- `LIMIT`: a negative one is none; `OFFSET`: a negative one is 0
unfoldable pub limited : Option ℤ → List Row → List Row
unfolding take_rows
limited (some (pos n)) rs = take_rows n rs
limited _ rs = rs

unfoldable pub skipped : Option ℤ → List Row → List Row
unfolding drop_rows
skipped (some (pos n)) rs = drop_rows n rs
skipped _ rs = rs

unfoldable pub flag_cell : Bool → Cell
flag_cell true = number (pos 1)
flag_cell false = number (pos 0)

-- the 0/1 columns of `flags` on a row
unfoldable pub flag_row : Env → Database → String → List (String × SqlExpr) → Row → Row
unfolding flag_cell
flag_row env db table [] row = []
flag_row env db table ((alias, e) ∷ flags) row =
    (alias, flag_cell (env.engine.matches db table e row)) ∷ flag_row env db table flags row
