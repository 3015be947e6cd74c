-- ===== src/Db/Insert.antt =====
-- `insert` of runtime/db.ts.
use pramen.Base.{
  String, Bool, true, false, none, some, List, [], ◌∷◌, ◌++◌, keys, create, Result, ok, err,
  acl_denied, failure, if◌then◌else◌,
}
use pramen.Cell.{Row}
use pramen.Schema.{
  FieldDef, FieldType, uuid, TriggerDef, TriggerOp, trigger_fires, triggers_of, watching,
  UpdateTrigger,
}
use pramen.Schema as Schema
use pramen.Acl.Policies.{put}
use pramen.Acl.Merge.{Scope}
use pramen.Acl.Fields.{flag_columns}
use pramen.Acl.Scoped.Hops.{WriteRules}
use pramen.Db.{
  Database, Env, Run, lift, ◌>>=◌, ◌>>◌, get, fields_of, encode_row, decode_row, rows_of,
}
use pramen.Db.Read.{enter}
use pramen.Db.Values.{
  assign, write_rules, run_validators, check_write_fields, where_on_unstored, with_defaults,
  fill_uuids, check_uuids,
}
use pramen.Db.Triggers.{fire_triggers}
use pramen.Db.Echo.{project_write}

module _ (env : Env) where
  -- the gate of an insert: the row that the field check reads, if the create scope admits it
  unfoldable pub is_plain : Scope → Bool
  is_plain scope = elim scope.where_ [
    | some e ↦ false
    | none ↦ elim scope.grants [ [] ↦ true | (g ∷ gs) ↦ false ]
  ]

  unfoldable pub admitted_row : Database → String → Scope → Row → Result Row
  unfolding is_plain where_on_unstored with_defaults
  admitted_row db table scope vals =
      if is_plain scope
      then ok vals
      else (elim (where_on_unstored env db table (with_defaults env table vals) scope.where_
          (flag_columns scope)) [
            | err e ↦ err e
            | ok (row, holds) ↦ if holds then ok row else err (acl_denied table create none)
          ])

  -- the checks of an insert, before its statement
  unfoldable pub authorize_insert :
      Database → String → Scope → WriteRules → List String → Row → Result (Unit {0})
  unfolding admitted_row check_write_fields run_validators check_uuids fields_of keys
  authorize_insert db table scope written_rules generated vals =
      elim (admitted_row db table scope vals) [
        | err e ↦ err e
        | ok eval_row ↦
            elim (check_write_fields env table create scope (keys vals) eval_row
              (keys written_rules.set ++ generated) eval_row) [
                | err e ↦ err e
                | ok _ ↦ elim (run_validators env written_rules.validators vals) [
                  | err e ↦ err e
                  | ok _ ↦ check_uuids env (fields_of env.acl.schema table) vals
                ]
              ]
      ]

  unfoldable pub add_row : Database → String → Row → Database
  unfolding put rows_of
  add_row db table row = put table (rows_of db table ++ row ∷ []) db

  -- the INSERT
  unfoldable pub insert_row : String → Row → Run Row
  unfolding add_row encode_row decode_row rows_of
  insert_row table vals s =
      let stored = env.engine.filled s.tables table (encode_row env table vals) in
      if env.engine.accepts s.tables table (rows_of s.tables table ++ stored ∷ [])
      then (ok (decode_row env table stored), record s { tables = add_row s.tables table stored })
      else (err failure, s)

  -- the values of an insert, the server's own last, with the columns it minted
  unfoldable pub insert_values : String → Row → Run (Row × List String)
  unfolding fill_uuids assign write_rules fields_of
  insert_values table values s =
      let (vals, (generated, n)) =
        fill_uuids env (fields_of env.acl.schema table) s.minted
          (assign values (write_rules env table create).set) [] in
      (ok (vals, generated), record s { minted = n })

  unfoldable pub insert : String → Row → Run Row
  unfolding enter insert_values authorize_insert write_rules insert_row fire_triggers project_write
      keys
  insert table values = do
    scope ← enter env table create
    filled ← insert_values table values
    s ← get
    lift (authorize_insert s.tables table scope (write_rules env table create) filled.1 filled.0)
    persisted ← insert_row table filled.0
    fire_triggers env table Schema.create persisted (keys filled.0) none
    s' ← get
    lift (project_write env s'.tables table persisted (keys filled.0))
