-- ===== src/Db/Triggers.antt =====
-- The triggers that a write fires (runtime/db.ts).
use pramen.Base.{
  suc, String, Bool, true, false, not, ◌&&◌, ◌||◌, ◌==◌, Option, none, some, List, [], ◌∷◌, any,
  contains, lookup, ok, err, if◌then◌else◌,
}
use pramen.Cell.{Cell, null, object, Row, column, strict_eq}
use pramen.Schema.{
  FieldDef, FieldType, uuid, TriggerDef, TriggerOp, trigger_fires, triggers_of, watching,
  UpdateTrigger,
}
use pramen.Schema as Schema
use pramen.Acl.Scoped.{pk_of}
use pramen.Outbox.{enqueue_task}
use pramen.Db.{Env, Run, pure, ◌>>◌, strip_hidden}
use pramen.Db.Relations.{cell_at}

module _ (env : Env) where
  -- `cellEqual`
  unfoldable pub cell_equal : Option Cell → Option Cell → Bool
  unfolding strict_eq
  cell_equal none none = true
  cell_equal (some (object p)) (some w) =
      strict_eq (object p) w
      || (not (strict_eq w null) && env.engine.stringify (object p) == env.engine.stringify w)
  cell_equal (some v) (some (object q)) =
      not (strict_eq v null) && env.engine.stringify v == env.engine.stringify (object q)
  cell_equal (some v) (some w) = strict_eq v w
  cell_equal _ _ = false

  -- a watched column was written, and its value is another
  unfoldable pub changed : List String → List String → Row → Row → Bool
  unfolding any contains cell_equal lookup
  changed cols written before row =
      any (λ c. contains c written && not (cell_equal (column before c) (column row c))) cols

  unfoldable pub is_changed : UpdateTrigger → TriggerOp → List String → Option Row → Row → Bool
  unfolding changed
  is_changed (watching cols) Schema.update written (some before) row =
      changed cols written before row
  is_changed _ op written before row = true

  unfoldable pub enqueue_trigger : String → TriggerOp → Row → TriggerDef → Run (Unit {0})
  unfolding enqueue_task cell_at strip_hidden lookup
  enqueue_trigger entity op row t s =
      elim (enqueue_task true (env.mint s.minted) env.now
        (record {
          kind = t.task;
          payload =
              env.payload entity op (column row (pk_of env.acl.schema entity))
                (strip_hidden env.acl.schema entity row);
          delay_ms = none;
          key = none;
        })
        s.outbox) [
          | err e ↦ (err e, record s { minted = suc s.minted })
          | ok (outbox, wrote) ↦ (
            ok tt,
            record s {
              outbox = outbox;
              task_enqueues = suc s.task_enqueues;
              minted = suc s.minted;
            },
          )
        ]

  unfoldable pub fire_all :
      String → TriggerOp → Row → List String → Option Row → List TriggerDef → Run (Unit {0})
  unfolding trigger_fires is_changed enqueue_trigger
  fire_all entity op row written before [] = pure tt
  fire_all entity op row written before (t ∷ ts) =
      let rest = fire_all entity op row written before ts in
      if trigger_fires t op written && is_changed t.on_update op written before row
      then enqueue_trigger entity op row t >> rest
      else rest

  -- `fireTriggers`
  unfoldable pub fire_triggers :
      String → TriggerOp → Row → List String → Option Row → Run (Unit {0})
  unfolding fire_all triggers_of
  fire_triggers entity op row written before =
      if env.suppress_triggers
      then pure tt
      else fire_all entity op row written before (triggers_of env.acl.schema entity)
