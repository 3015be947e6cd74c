-- ===== src/Db/Update.antt =====
-- `update` and `delete` of runtime/db.ts.
pub mod Guard
pub mod Decided
pub mod Attempts
use Prim.Native.Char.{code}
use pramen.Base.{
  ℕ, zero, suc, ◌+◌, String, Bool, true, false, not, ◌&&◌, ◌||◌, eqb, leb, ◌==◌, Option, none, some,
  List, [], ◌∷◌, ◌++◌, ◌-◌, length, any, contains, add, add_all, set_of, keep, keys, lookup, Action,
  update, delete, read, Result, ok, err, bad_request, conflict, acl_denied, failure, guard,
  if◌then◌else◌,
}
use pramen.Cell.{Cell, null, text, object, number, Row, column, strict_eq}
use pramen.Cell.Text.{units}
use pramen.Expr.{SqlExpr, has_sub, and, cmp, eq, is_null, equals, columns_in_expr}
use pramen.Expr.Eval.{eval_expr, missing}
use pramen.Schema.{
  FieldDef, FieldType, uuid, TriggerDef, TriggerOp, trigger_fires, triggers_of, watching,
  UpdateTrigger,
}
use pramen.Schema as Schema
use pramen.Acl.{Validator, Identity}
use pramen.Acl.Policies.{put}
use pramen.Acl.Merge.{Scope, RowPredicate}
use pramen.Acl.Fields.{effective_fields, flag_columns, predicate_holds, project_row, pick}
use pramen.Acl.Scoped.{pk_of}
use pramen.Acl.Scoped.Hops.{WriteRules, resolve_write_rules}
use pramen.Outbox.{Task, EnqueueOpts, enqueue_task}
use pramen.Db.{
  Database, Env, Store, Run, pure, lift, ◌>>=◌, ◌>>◌, get, modify, fields_of, all_cols, hidden_cols,
  strip_hidden, encode_row, decode_row, flag_row, rows_of, scope_for, is_flag, keep_cols,
}
use pramen.Db.Read.{enter, outside, is_hidden}
use pramen.Db.Relations.{cell_at}
use pramen.Db.Values.{
  assign, scope_where_flag, is_hex, hex_run, dash, hex_then, is_valid_uuid, is_uuid, write_rules,
  run_validators, refuse_written, check_write_fields, probe_cols, probe_row, zero_flags,
  probe_flags, with_flags, where_flags, judge, where_on_unstored, fill_defaults, with_defaults,
  fill_uuids, check_uuids,
}
use pramen.Db.Triggers.{cell_equal, changed, is_changed, enqueue_trigger, fire_all, fire_triggers}
use pramen.Db.Echo.{echo, echo_within, echo_scoped, project_write}
use pramen.Acl.Merge.{BoundGrant, present}
use pramen.Acl.Fields.{
  has_check, has_fields_fn, any_grant_applies, scope_input_columns, check_flag_predicates,
}
use pramen.Db.{strip_flags}
use pramen.Db.Preimage.{
  predicate_columns, grant_columns, decision_columns, asserted, unchanged, held_flag,
  held_admission, held_admissions, preimage_guard,
}
use pramen.Db.Read.{matching, within_scope}

abbrev pub update_attempts : ℕ
update_attempts = 3

-- What a round of the loop of `update` ends in: the row it wrote with the row as it was, no row, or a
-- lost race.
pub data Attempt : Type 0 where
  wrote : Row → Option Row → Attempt
  no_row lost : Attempt

-- the pre-image that a decision reads: as stored, and decoded with its flags
pub record Preimage : Type 0 where
  pub raw : Row
  pub stored : Row

module _ (env : Env) (table : String) where
  -- the row of an id, within a scope
  unfoldable pub by_id : Cell → Option SqlExpr → List SqlExpr → SqlExpr
  unfolding equals pk_of
  by_id id where_ guards = elim where_ [
    | none ↦ and (equals (pk_of env.acl.schema table) id ∷ guards)
    | some w ↦ and (equals (pk_of env.acl.schema table) id ∷ w ∷ guards)
  ]

  unfoldable pub flag_columns_if : Bool → Scope → List (String × SqlExpr)
  flag_columns_if true scope = flag_columns scope
  flag_columns_if false scope = []

  unfoldable pub first_row : List Row → Option Row
  first_row [] = none
  first_row (r ∷ rs) = some r

  -- `fetchOne`, with the flags of its scope if they are asked for
  unfoldable pub fetch_one : Database → Cell → Scope → Bool → Option Preimage
  unfolding first_row matching by_id flag_row flag_columns_if decode_row
  fetch_one db id scope flagged =
      elim (first_row (matching env db table (by_id id scope.where_ []))) [
        | none ↦ none
        | some row ↦
            let raw = row ++ flag_row env db table (flag_columns_if flagged scope) row in
            some (record { raw = raw; stored = decode_row env table raw })
      ]

  -- what an UPDATE sets on a row
  unfoldable pub rewrite : Row → Row → Row
  unfolding assign encode_row
  rewrite patch row = assign row (encode_row env table patch)

  unfoldable pub rewrite_rows : (Row → Bool) → Row → List Row → List Row
  unfolding rewrite
  rewrite_rows p patch [] = []
  rewrite_rows p patch (r ∷ rs) =
      let rest = rewrite_rows p patch rs in if p r then rewrite patch r ∷ rest else r ∷ rest

  unfoldable pub set_rows : Database → List Row → Database
  unfolding put
  set_rows db rows = put table rows db

  unfoldable pub returned_row : Row → Option Row → Option Row
  unfolding rewrite decode_row
  returned_row patch none = none
  returned_row patch (some r) = some (decode_row env table (rewrite patch r))

  -- the UPDATE, with the first row it returns
  unfoldable pub update_rows : SqlExpr → Row → Run (Option Row)
  unfolding first_row matching returned_row set_rows rewrite_rows rows_of
  update_rows where_ patch s =
      let rows =
        rewrite_rows (env.engine.matches s.tables table where_) patch (rows_of s.tables table) in
      if env.engine.accepts s.tables table rows
      then (
        ok (returned_row patch (first_row (matching env s.tables table where_))),
        record s { tables = set_rows s.tables rows },
      )
      else (err failure, s)

  -- the rows that the decision is made on: after the write, and before it
  unfoldable pub post_image : Database → Scope → Bool → Row → Option Preimage → Row
  unfolding with_flags assign strip_flags
  post_image db scope true patch (some pre) =
      with_flags env db table (assign (strip_flags pre.stored) patch) (check_flag_predicates scope)
  post_image db scope _ patch pre = patch

  unfoldable pub pre_image : Row → Option Preimage → Row
  pre_image patch none = patch
  pre_image patch (some pre) = pre.stored

  unfoldable pub check_applies : Scope → Row → Row → Result (Unit {0})
  unfolding has_check any_grant_applies
  check_applies scope eval_row stored =
      if has_check scope
      then (elim (any_grant_applies env.acl.host scope eval_row stored) [
        | err e ↦ err e
        | ok applies ↦ guard applies (acl_denied table update none)
      ])
      else ok tt

  unfoldable pub guards_of : Scope → Bool → Option Preimage → Result (List SqlExpr)
  unfolding preimage_guard
  guards_of scope true (some pre) = preimage_guard env scope pre.raw pre.stored
  guards_of scope _ pre = ok []

  -- the decision on a pre-image: an error, or the clauses that assert it
  unfoldable pub decide :
      Database → Scope → WriteRules → Bool → Row → Option Preimage → Result (List SqlExpr)
  unfolding post_image pre_image check_applies check_write_fields run_validators check_uuids
      fields_of keys guards_of
  decide db scope written_rules per_row patch pre =
      let eval_row = post_image db scope per_row patch pre in
      elim (if per_row then check_applies scope eval_row (pre_image patch pre) else ok tt) [
        | err e ↦ err e
        | ok _ ↦
            elim (check_write_fields env table update scope (keys patch) eval_row
              (keys written_rules.set) (pre_image patch pre)) [
                | err e ↦ err e
                | ok _ ↦ elim (run_validators env written_rules.validators patch) [
                  | err e ↦ err e
                  | ok _ ↦ elim (check_uuids env (fields_of env.acl.schema table) patch) [
                    | err e ↦ err e
                    | ok _ ↦ guards_of scope per_row pre
                  ]
                ]
              ]
      ]

  -- `needCellEval`
  unfoldable pub needs_row : Scope → Bool
  unfolding has_check
  needs_row scope = has_check scope || (elim scope.fields [
    | none ↦ false
    | some fs ↦ elim scope.grants [ [] ↦ false | (g ∷ gs) ↦ true ]
  ])

  unfoldable pub watches : TriggerDef → Bool
  watches t = elim t.on_update [ watching cols ↦ true | _ ↦ false ]

  -- `needBefore`
  unfoldable pub needs_before : Bool
  unfolding any watches triggers_of
  needs_before = not env.suppress_triggers && any watches (triggers_of env.acl.schema table)

  unfoldable pub before_of : Option Preimage → Option Row
  unfolding strip_flags
  before_of none = none
  before_of (some pre) = some (strip_flags pre.stored)

  -- what the others write between the two statements of the n-th attempt
  unfoldable pub interleave : ℕ → Store → Store
  interleave n s = record s { tables = env.others n s.tables }

  unfoldable pub outcome : Bool → Option Row → Option Row → Attempt
  outcome per_row before (some row) = wrote row before
  outcome true before none = lost
  outcome false before none = no_row

  unfoldable pub write_decided :
      Cell → Scope → WriteRules → Bool → Row → Option Preimage → ℕ → Run Attempt
  unfolding decide interleave update_rows by_id outcome before_of
  write_decided id scope written_rules per_row patch pre n = do
    s ← get
    guards ← lift (decide s.tables scope written_rules per_row patch pre)
    modify (interleave n)
    updated ← update_rows (by_id id scope.where_ guards) patch
    pure (outcome per_row (before_of pre) updated)

  -- a round of the loop
  unfoldable pub attempt : Cell → Scope → WriteRules → Row → ℕ → Run Attempt
  unfolding needs_row needs_before fetch_one write_decided
  attempt id scope written_rules patch n s =
      if needs_row scope || needs_before
      then (elim (fetch_one s.tables id scope (needs_row scope)) [
        | none ↦ (ok no_row, s)
        | some pre ↦ write_decided id scope written_rules (needs_row scope) patch (some pre) n s
      ])
      else write_decided id scope written_rules (needs_row scope) patch none n s

  -- what follows a round: the triggers and the echo, or the answer that there is no row
  unfoldable pub conclude : Row → Row → Option Row → Run (Option Row)
  unfolding fire_triggers project_write keys
  conclude patch row before = do
    fire_triggers env table Schema.update row (keys patch) before
    s ← get
    shown ← lift (project_write env s.tables table row (keys patch))
    pure (some shown)

  -- the loop, from the n-th attempt, with so many after it
  unfoldable pub update_from : Cell → Scope → WriteRules → Row → ℕ → ℕ → Run (Option Row)
  unfolding attempt conclude
  update_from id scope written_rules patch zero n = attempt id scope written_rules patch n >>= λ r.
      elim r [
        | wrote row before ↦ conclude patch row before
        | no_row ↦ pure none
        | lost ↦ lift (err conflict)
      ]
  update_from id scope written_rules patch (suc left) n =
      attempt id scope written_rules patch n >>= λ r. elim r [
        | wrote row before ↦ conclude patch row before
        | no_row ↦ pure none
        | lost ↦ update_from id scope written_rules patch left (suc n)
      ]

  unfoldable pub update_values : Cell → Scope → WriteRules → Row → Run (Option Row)
  unfolding update_from
  update_values id scope written_rules [] = pure none
  update_values id scope written_rules (x ∷ xs) =
      update_from id scope written_rules (x ∷ xs) (update_attempts - 1) 1

  unfoldable pub update_row : Cell → Row → Run (Option Row)
  unfolding enter write_rules assign update_values
  update_row id patch = do
    scope ← enter env table update
    update_values id scope (write_rules env table update)
        (assign patch (write_rules env table update).set)

  -- the DELETE, with the first row it returns
  unfoldable pub delete_rows : SqlExpr → Run (Option Row)
  unfolding first_row matching
  delete_rows where_ s = elim (env.engine.removed s.tables table where_) [
    | none ↦ (err failure, s)
    | some db ↦ (ok (first_row (matching env s.tables table where_)), record s { tables = db })
  ]

  unfoldable pub after_delete : Option Row → Run Bool
  unfolding fire_triggers decode_row
  after_delete none = pure false
  after_delete (some row) =
      fire_triggers env table Schema.delete (decode_row env table row) [] none >> pure true

  unfoldable pub delete_row : Cell → Run Bool
  unfolding enter by_id delete_rows after_delete
  delete_row id = do
    scope ← enter env table delete
    deleted ← delete_rows (by_id id scope.where_ [])
    after_delete deleted
