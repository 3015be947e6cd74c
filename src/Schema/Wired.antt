-- ===== src/Schema/Wired.antt =====
-- What `validateSchema` promises of the schemas it accepts.
use pramen.Base.{String, ◌≡◌, ◌≤◌, true, false, ◌||◌, ◌==◌, some, List, length, lookup, All}
use pramen.Schema.{
  EntityDef, RelationDef, RelationKind, many_to_many, SchemaDef, partition_of, TriggerDef, FieldDef,
}
use pramen.Schema.Validate.{declared, all_declared, fires_on_update, watched}

-- A watched or unique column exists, a trigger names a task and an event, a unique group has two columns.
module _ (fields : List (String × FieldDef)) where
  abbrev pub Fires : TriggerDef → Type 0
  Fires t =
      ((t.task == "") ≡ false)
      × ((t.on_create || fires_on_update t.on_update || t.on_delete) ≡ true)
      × (all_declared (watched t.on_update) fields ≡ true)

  abbrev pub Groups : List String → Type 0
  Groups cols = (2 ≤ length cols) × (all_declared cols fields ≡ true)

module _ (schema : SchemaDef) where
  -- The junction of a manyToMany relation exists, has both columns and shares the partition.
  unfoldable pub Junction : String → RelationDef → RelationKind → Type 0
  Junction entity rel (many_to_many through target_column) =
      (def : EntityDef) × (lookup through schema ≡ some def)
      × (declared rel.column def.fields ≡ true)
      × (declared target_column def.fields ≡ true)
      × ((partition_of schema through == partition_of schema entity) ≡ true)
  Junction entity rel _ = Unit

  -- The target of a relation exists and shares the partition.
  abbrev pub Wired : String → RelationDef → Type 0
  Wired entity rel =
      (declared rel.target schema ≡ true)
      × ((partition_of schema entity == partition_of schema rel.target) ≡ true)
      × Junction entity rel rel.kind

  abbrev pub WellFormed : String × EntityDef → Type 0
  WellFormed (entity, def) =
      All (λ (r : String × RelationDef). Wired entity r.1) def.relations
      × All (Fires def.fields) def.triggers
      × All (Groups def.fields) def.uniques
