-- ===== src/Schema/Validate.antt =====
-- `validateSchema`: the static invariants of a schema, checked before a migration.
use pramen.Base.{
  String, Bool, true, false, not, ◌&&◌, ◌||◌, ◌==◌, none, some, List, [], ◌∷◌, length, leb, lookup,
  Result, ok, err, failure, guard, ◌>>◌,
}
use pramen.Schema.{
  EntityDef, RelationDef, RelationKind, many_to_many, TriggerDef, UpdateTrigger, off, watching,
  FieldDef, SchemaDef, partition_of,
}

-- `key in obj`
unfoldable pub declared {ℓ} : {V : Type ℓ} → String → List (String × V) → Bool
unfolding lookup
declared key obj = elim (lookup key obj) [ none ↦ false | some v ↦ true ]

unfoldable pub all_declared {ℓ} : {V : Type ℓ} → List String → List (String × V) → Bool
unfolding declared
all_declared [] obj = true
all_declared (c ∷ cs) obj = declared c obj && all_declared cs obj

unfoldable pub fires_on_update : UpdateTrigger → Bool
fires_on_update off = false
fires_on_update _ = true

unfoldable pub watched : UpdateTrigger → List String
watched (watching cols) = cols
watched _ = []

unfoldable pub check_triggers : List (String × FieldDef) → List TriggerDef → Result (Unit {0})
unfolding all_declared fires_on_update watched
check_triggers fields [] = ok tt
check_triggers fields (t ∷ ts) = do
  guard (not (t.task == "")) failure
  guard (t.on_create || fires_on_update t.on_update || t.on_delete) failure
  guard (all_declared (watched t.on_update) fields) failure
  check_triggers fields ts

unfoldable pub check_uniques : List (String × FieldDef) → List (List String) → Result (Unit {0})
unfolding all_declared
check_uniques fields [] = ok tt
check_uniques fields (cols ∷ rest) = do
  guard (leb 2 (length cols)) failure
  guard (all_declared cols fields) failure
  check_uniques fields rest

module _ (schema : SchemaDef) where
  -- the checks of a manyToMany junction
  unfoldable pub check_junction : String → RelationDef → RelationKind → Result (Unit {0})
  unfolding lookup declared partition_of
  check_junction entity rel (many_to_many through target_column) = elim (lookup through schema) [
    | none ↦ err failure
    | some def ↦ do
      guard (declared rel.column def.fields) failure
      guard (declared target_column def.fields) failure
      guard (partition_of schema through == partition_of schema entity) failure
  ]
  check_junction entity rel _ = ok tt

  unfoldable pub check_relation : String → RelationDef → Result (Unit {0})
  unfolding declared check_junction
  check_relation entity rel = do
    guard (declared rel.target schema) failure
    guard (partition_of schema entity == partition_of schema rel.target) failure
    check_junction entity rel rel.kind

  unfoldable pub check_relations : String → List (String × RelationDef) → Result (Unit {0})
  check_relations entity [] = ok tt
  check_relations entity ((name, rel) ∷ rels) = do
    check_relation entity rel
    check_relations entity rels

  unfoldable pub check_entities : List (String × EntityDef) → Result (Unit {0})
  unfolding check_relations check_triggers check_uniques
  check_entities [] = ok tt
  check_entities ((entity, def) ∷ rest) = do
    check_relations entity def.relations
    check_triggers def.fields def.triggers
    check_uniques def.fields def.uniques
    check_entities rest

unfoldable pub validate_schema : SchemaDef → Result (Unit {0})
unfolding check_entities
validate_schema schema = check_entities schema schema
