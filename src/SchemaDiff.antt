-- ===== src/SchemaDiff.antt =====
-- The shape of a schema and the diff of two shapes: packages/server/src/runtime/schema-diff.ts.
--
-- An object is its entries in order. The text `detail` of a change is left out, as is which
-- modifiers differ. How `JSON.stringify` writes a default is the parameter `stringify`.
pub mod Laws
use Prim.Native.String.{◌++◌ as append}
use pramen.Base.{
  ℕ, String, Bool, true, false, not, ◌&&◌, ◌||◌, ◌==◌, Option, none, some, List, [], ◌∷◌, ◌++◌,
  lookup, keys, if◌then◌else◌,
}
use pramen.Cell.{Cell}
use pramen.Schema.{
  FieldType, text, integer, real, boolean, json, file_ref, uuid, FieldDef, EntityDef, SchemaDef,
  partition_of,
}
use pramen.Schema.Validate.{declared}

-- An absent flag is false.
pub record ColumnFingerprint : Type 0 where
  pub type : String
  pub not_null : Bool
  pub unique : Bool
  pub primary_key : Bool
  pub generated : Bool
  pub hidden : Bool
  pub default : Option String

pub record TableFingerprint : Type 0 where
  pub partition : String
  pub columns : List (String × ColumnFingerprint)

abbrev pub SchemaFingerprint : Type 0
SchemaFingerprint = List (String × TableFingerprint)

unfoldable pub type_name : FieldType → String
type_name text = "text"
type_name integer = "integer"
type_name real = "real"
type_name boolean = "boolean"
type_name json = "json"
type_name file_ref = "fileRef"
type_name uuid = "uuid"

module _ (stringify : Cell → String) where
  unfoldable pub default_text : Option String → Option Cell → Option String
  default_text (some e) d = some (append "(" (append e ")"))
  default_text none (some d) = some (stringify d)
  default_text none none = none

  -- `columnFingerprint`
  unfoldable pub column_fingerprint : FieldDef → ColumnFingerprint
  unfolding type_name default_text
  column_fingerprint f = record {
    type = type_name f.type;
    not_null = f.not_null;
    unique = f.unique;
    primary_key = f.primary_key;
    generated = f.generated;
    hidden = f.hidden;
    default = default_text f.default_expr f.default;
  }

  unfoldable pub columns_of : List (String × FieldDef) → List (String × ColumnFingerprint)
  unfolding column_fingerprint
  columns_of [] = []
  columns_of ((col, f) ∷ rest) = (col, column_fingerprint f) ∷ columns_of rest

  unfoldable pub tables_of : SchemaDef → List (String × EntityDef) → SchemaFingerprint
  unfolding columns_of partition_of
  tables_of schema [] = []
  tables_of schema ((table, def) ∷ rest) =
      (table, record { partition = partition_of schema table; columns = columns_of def.fields })
      ∷ tables_of schema rest

  -- `schemaFingerprint`
  unfoldable pub schema_fingerprint : SchemaDef → SchemaFingerprint
  unfolding tables_of
  schema_fingerprint schema = tables_of schema schema

unfoldable pub adds : Bool → Bool → Bool
adds prev next = next && not prev

-- `tightensConstraint`
unfoldable pub tightens_constraint : ColumnFingerprint → ColumnFingerprint → Bool
unfolding adds
tightens_constraint prev next =
    adds prev.not_null next.not_null
    || adds prev.unique next.unique
    || adds prev.primary_key next.primary_key

unfoldable pub same_flag : Bool → Bool → Bool
same_flag true b = b
same_flag false b = not b

unfoldable pub same_default : Option String → Option String → Bool
same_default none none = true
same_default (some a) (some b) = a == b
same_default _ _ = false

-- is the `modifierDiff` null?
unfoldable pub same_modifiers : ColumnFingerprint → ColumnFingerprint → Bool
unfolding same_flag same_default
same_modifiers prev next =
    same_flag prev.not_null next.not_null
    && same_flag prev.unique next.unique
    && same_flag prev.primary_key next.primary_key
    && same_flag prev.generated next.generated
    && same_flag prev.hidden next.hidden
    && same_default prev.default next.default

pub data ChangeKind : Type 0 where
  add_table drop_table move_partition : ChangeKind
  add_column drop_column change_type change_column : String → ChangeKind

pub record SchemaChange : Type 0 where
  pub kind : ChangeKind
  pub table : String
  pub destructive : Bool
  pub applies_on_boot : Bool

unfoldable pub change : ChangeKind → String → Bool → Bool → SchemaChange
change kind table destructive applies = record {
  kind = kind;
  table = table;
  destructive = destructive;
  applies_on_boot = applies;
}

module _ (table : String) where
  -- the change of a column that both shapes have
  unfoldable pub changed_column : String → ColumnFingerprint → ColumnFingerprint → List SchemaChange
  unfolding change same_modifiers tightens_constraint
  changed_column col prev next =
      if prev.type == next.type
      then (if same_modifiers prev next
          then []
          else change (change_column col) table (tightens_constraint prev next) true ∷ [])
      else change (change_type col) table true true ∷ []

  -- a column of the next shape
  unfoldable pub column_changes :
      String → Option ColumnFingerprint → Option ColumnFingerprint → List SchemaChange
  unfolding change changed_column
  column_changes col none next = change (add_column col) table false true ∷ []
  column_changes col (some prev) none = []
  column_changes col (some prev) (some next) = changed_column col prev next

  unfoldable pub all_column_changes :
      List String
      → List (String × ColumnFingerprint)
      → List (String × ColumnFingerprint)
      → List SchemaChange
  unfolding column_changes lookup
  all_column_changes [] prev next = []
  all_column_changes (c ∷ cs) prev next =
      column_changes c (lookup c prev) (lookup c next) ++ all_column_changes cs prev next

  unfoldable pub dropped_columns :
      List String → List (String × ColumnFingerprint) → List SchemaChange
  unfolding change declared
  dropped_columns [] next = []
  dropped_columns (c ∷ cs) next =
      let rest = dropped_columns cs next in
      if declared c next then rest else change (drop_column c) table true true ∷ rest

  -- a table of the next shape
  unfoldable pub table_changes :
      Option TableFingerprint → Option TableFingerprint → List SchemaChange
  unfolding change all_column_changes dropped_columns keys
  table_changes none next = change add_table table false true ∷ []
  table_changes (some prev) none = []
  table_changes (some prev) (some next) =
      (if prev.partition == next.partition
        then []
        else change move_partition table false false ∷ [])
      ++ all_column_changes (keys next.columns) prev.columns next.columns
      ++ dropped_columns (keys prev.columns) next.columns

unfoldable pub all_table_changes :
    List String → SchemaFingerprint → SchemaFingerprint → List SchemaChange
unfolding table_changes lookup
all_table_changes [] prev next = []
all_table_changes (t ∷ ts) prev next =
    table_changes t (lookup t prev) (lookup t next) ++ all_table_changes ts prev next

unfoldable pub dropped_tables : List String → SchemaFingerprint → List SchemaChange
unfolding change declared
dropped_tables [] next = []
dropped_tables (t ∷ ts) next =
    let rest = dropped_tables ts next in
    if declared t next then rest else change drop_table t true true ∷ rest

-- `diffSchemaFingerprint`
unfoldable pub diff_schema_fingerprint : SchemaFingerprint → SchemaFingerprint → List SchemaChange
unfolding all_table_changes dropped_tables keys
diff_schema_fingerprint prev next =
    all_table_changes (keys next) prev next ++ dropped_tables (keys prev) next
