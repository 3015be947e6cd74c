-- ===== src/Schema.antt =====
-- The schema as data: packages/server/src/sdk/schema.ts.
pub mod Validate
pub mod Wired
use pramen.Base.{
  ℕ, String, Bool, true, false, Option, none, some, List, [], ◌∷◌, ◌++◌, lookup, keys, keep,
  contains, ◌==◌, if◌then◌else◌,
}
use pramen.Base.{any, Result, ok, failure, guard, ◌>>=◌, ◌>>◌, ◌&&◌}
use pramen.Cell.{Cell}

pub data FieldType : Type 0 where
  text integer real boolean json file_ref uuid : FieldType

-- An omitted flag is false.
pub record FieldDef : Type 0 where
  pub type : FieldType
  pub primary_key : Bool
  pub auto_increment : Bool
  pub not_null : Bool
  pub unique : Bool
  pub index : Bool
  pub generated : Bool
  pub default : Option Cell
  pub default_expr : Option String
  pub renamed_from : Option String
  pub hidden : Bool

pub data OnDelete : Type 0 where
  cascade set_null restrict : OnDelete

pub data RelationKind : Type 0 where
  belongs_to one_has_one : Option OnDelete → RelationKind
  has_many one_has_one_inverse : RelationKind
  -- `through` and `targetColumn`; the relation's column is `sourceColumn`
  many_to_many : String → String → RelationKind

pub record RelationDef : Type 0 where
  pub kind : RelationKind
  pub target : String
  pub column : String

-- `on.update`: absent or false, true, or the columns that are watched
pub data UpdateTrigger : Type 0 where
  off on : UpdateTrigger
  watching : List String → UpdateTrigger

pub record TriggerDef : Type 0 where
  pub task : String
  pub on_create : Bool
  pub on_update : UpdateTrigger
  pub on_delete : Bool

pub record EntityDef : Type 0 where
  pub fields : List (String × FieldDef)
  pub relations : List (String × RelationDef)
  pub partition : String
  pub triggers : List TriggerDef
  pub uniques : List (List String)

abbrev pub SchemaDef : Type 0
SchemaDef = List (String × EntityDef)

abbrev pub default_partition : String
default_partition = "default"

partition_or_default : Option EntityDef → String
partition_or_default none = default_partition
partition_or_default (some def) = def.partition

-- `partitionOf`
unfoldable pub partition_of : SchemaDef → String → String
unfolding partition_or_default lookup
partition_of schema entity = partition_or_default (lookup entity schema)

-- the loop of `partitionsOf`; the set `seen` holds what `out` holds
unfoldable pub distinct : (String → String) → List String → List String → List String
distinct part [] out = out
distinct part (e ∷ es) out =
    distinct part es (if contains (part e) out then out else out ++ part e ∷ [])

unfoldable pub partitions_of : SchemaDef → List String
unfolding distinct keys contains
partitions_of schema = distinct (partition_of schema) (keys schema) []

unfoldable pub entities_in_partition : SchemaDef → String → List String
unfolding keep keys
entities_in_partition schema partition =
    keep (λ entity. partition_of schema entity == partition) (keys schema)

pub data TriggerOp : Type 0 where
  create update delete : TriggerOp

-- `triggerFires`: on an update, for the columns that are watched
unfoldable pub trigger_fires : TriggerDef → TriggerOp → List String → Bool
unfolding any contains
trigger_fires t create written = t.on_create
trigger_fires t delete written = t.on_delete
trigger_fires t update written = elim t.on_update [
  | off ↦ false
  | on ↦ true
  | watching cols ↦ any (λ f. contains f written) cols
]

triggers_or_none : Option EntityDef → List TriggerDef
triggers_or_none none = []
triggers_or_none (some def) = def.triggers

-- `triggersOf`
unfoldable pub triggers_of : SchemaDef → String → List TriggerDef
unfolding triggers_or_none lookup
triggers_of schema entity = triggers_or_none (lookup entity schema)

unfoldable pub known_tasks : List String → List TriggerDef → Bool
unfolding contains
known_tasks known [] = true
known_tasks known (t ∷ ts) = contains t.task known && known_tasks known ts

-- `validateTriggerTasks`: each trigger names a task that has a handler
unfoldable pub validate_trigger_tasks : SchemaDef → List String → Result (Unit {0})
unfolding known_tasks
validate_trigger_tasks [] known = ok tt
validate_trigger_tasks ((entity, def) ∷ rest) known = do
  guard (known_tasks known def.triggers) failure
  validate_trigger_tasks rest known
