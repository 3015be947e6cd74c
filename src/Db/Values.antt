-- ===== src/Db/Values.antt =====
-- What the writes of `Db` share (runtime/db.ts): the rules and checks of the values, and the judgement
-- of a row that is not stored.
use pramen.Base.{
  ℕ, zero, suc, String, Bool, true, false, not, ◌&&◌, ◌||◌, eqb, leb, Option, none, some, List, [],
  ◌∷◌, ◌++◌, contains, keep, keys, lookup, Action, Result, ok, err, bad_request, acl_denied,
  if◌then◌else◌,
}
use pramen.Cell.{Cell, null, text, object, number, Row, column, strict_eq}
use pramen.Cell.Text.{units}
use pramen.Expr.{SqlExpr, has_sub}
use pramen.Expr.Eval.{eval_expr, missing}
use pramen.Schema.{FieldDef, FieldType, uuid}
use pramen.Acl.{Validator}
use pramen.Acl.Policies.{put}
use pramen.Acl.Merge.{Scope}
use pramen.Acl.Fields.{effective_fields, predicate_holds}
use pramen.Acl.Scoped.Hops.{WriteRules, resolve_write_rules}
use pramen.Db.{Database, Env, fields_of, all_cols, encode_row, flag_row, is_flag}
use pramen.Db.Read.{outside}
use pramen.Db.Relations.{cell_at}

-- `Object.assign(row, more)`
unfoldable pub assign : Row → Row → Row
unfolding put
assign row [] = row
assign row ((c, v) ∷ rest) = assign (put c v row) rest

-- the flag of a scope's own `where`
abbrev pub scope_where_flag : String
scope_where_flag = "__pramen_acl_where"

unfoldable pub is_hex : ℕ → Bool
is_hex c = (leb b'0' c && leb c b'9') || (leb b'a' c && leb c b'f') || (leb b'A' c && leb c b'F')

unfoldable pub hex_run : ℕ → List ℕ → Option (List ℕ)
unfolding is_hex
hex_run zero cs = some cs
hex_run (suc n) [] = none
hex_run (suc n) (c ∷ cs) = let rest = hex_run n cs in if is_hex c then rest else none

unfoldable pub dash : Option (List ℕ) → Option (List ℕ)
dash (some (c ∷ cs)) = if eqb c b'-' then some cs else none
dash _ = none

unfoldable pub hex_then : ℕ → Option (List ℕ) → Option (List ℕ)
unfolding hex_run
hex_then n none = none
hex_then n (some cs) = hex_run n cs

-- `isValidUuid` of sdk/uuid.ts: 8-4-4-4-12 hexadecimal digits
unfoldable pub is_valid_uuid : Cell → Bool
unfolding hex_run hex_then dash units
is_valid_uuid (text s) =
    elim (hex_then 12
      (dash (hex_then 4 (dash (hex_then 4 (dash (hex_then 4 (dash (hex_run 8 (units s)))))))))) [
        | some [] ↦ true
        | _ ↦ false
      ]
is_valid_uuid _ = false

unfoldable pub is_uuid : FieldType → Bool
is_uuid uuid = true
is_uuid _ = false

module _ (env : Env) where
  -- `writeRules`
  unfoldable pub write_rules : String → Action → WriteRules
  unfolding resolve_write_rules
  write_rules table action =
      if env.acl.system
      then record { set = []; validators = [] }
      else resolve_write_rules env.acl table action

  -- `runValidators`: what a validator throws becomes a 400
  unfoldable pub run_validators : List Validator → Row → Result (Unit {0})
  run_validators [] row = ok tt
  run_validators (v ∷ vs) row =
      let rest = run_validators vs row in
      elim (v env.acl.identity row) [ err e ↦ err bad_request | ok _ ↦ rest ]

  unfoldable pub refuse_written :
      String → Action → (String → Bool) → List String → Result (Unit {0})
  refuse_written table action bad [] = ok tt
  refuse_written table action bad (c ∷ cs) =
      let rest = refuse_written table action bad cs in
      if bad c then err (acl_denied table action (some c)) else rest

  -- `checkWriteFields`
  unfoldable pub check_write_fields :
      String → Action → Scope → List String → Row → List String → Row → Result (Unit {0})
  unfolding effective_fields refuse_written outside contains
  check_write_fields table action scope written eval_row set_cols stored =
      elim (effective_fields env.acl.host env.acl.identity eval_row stored scope) [
        | err e ↦ err e
        | ok allowed ↦
            refuse_written table action (λ c. not (contains c set_cols) && outside allowed c)
              written
      ]

  -- `withFlags`: the predicates on a row that is not stored, by a probe over that one row
  unfoldable pub probe_cols : String → Row → List String
  unfolding all_cols keep is_flag keys
  probe_cols table row = elim (all_cols env.acl.schema table) [
    | [] ↦ keep (λ c. not (is_flag c)) (keys row)
    | (c ∷ cs) ↦ c ∷ cs
  ]

  unfoldable pub probe_row : List String → Row → Row
  unfolding cell_at
  probe_row [] row = []
  probe_row (c ∷ cs) row = (c, cell_at c row) ∷ probe_row cs row

  unfoldable pub zero_flags : List (String × SqlExpr) → Row
  zero_flags [] = []
  zero_flags ((alias, e) ∷ rest) = (alias, number (pramen.Cell.Int.pos 0)) ∷ zero_flags rest

  unfoldable pub probe_flags : Database → String → List String → Row → List (String × SqlExpr) → Row
  unfolding flag_row encode_row probe_row zero_flags
  probe_flags db table [] row preds = zero_flags preds
  probe_flags db table (c ∷ cs) row preds =
      flag_row env db table preds (encode_row env table (probe_row (c ∷ cs) row))

  unfoldable pub with_flags : Database → String → Row → List (String × SqlExpr) → Row
  unfolding assign probe_flags probe_cols
  with_flags db table row [] = row
  with_flags db table row (p ∷ ps) =
      assign row (probe_flags db table (probe_cols table row) row (p ∷ ps))

  unfoldable pub where_flags : Option SqlExpr → List (String × SqlExpr)
  unfolding has_sub
  where_flags none = []
  where_flags (some e) = if has_sub e then (scope_where_flag, e) ∷ [] else []

  unfoldable pub judge : Option SqlExpr → Row → Result Bool
  unfolding has_sub predicate_holds eval_expr
  judge none row = ok true
  judge (some e) row =
      if has_sub e
      then predicate_holds env.acl.host (some (record { expr = e; flag = some scope_where_flag }))
          row
      else eval_expr env.acl.host e row

  -- `whereOnUnstored`
  unfoldable pub where_on_unstored :
      Database → String → Row → Option SqlExpr → List (String × SqlExpr) → Result (Row × Bool)
  unfolding with_flags where_flags judge
  where_on_unstored db table row where_ extra =
      let flagged = with_flags db table row (extra ++ where_flags where_) in
      elim (judge where_ flagged) [ err e ↦ err e | ok holds ↦ ok (flagged, holds) ]

  -- `withDefaults`
  unfoldable pub fill_defaults : List (String × FieldDef) → Row → Row
  unfolding lookup put
  fill_defaults [] row = row
  fill_defaults ((n, f) ∷ rest) row = elim (column row n) [
    | some v ↦ fill_defaults rest row
    | none ↦ elim f.default [
      | none ↦ fill_defaults rest row
      | some d ↦ fill_defaults rest (put n d row)
    ]
  ]

  unfoldable pub with_defaults : String → Row → Row
  unfolding fill_defaults fields_of
  with_defaults table row = fill_defaults (fields_of env.acl.schema table) row

  -- `fillGeneratedUuids`, with the columns it fills and how many were minted so far
  unfoldable pub fill_uuids :
      List (String × FieldDef) → ℕ → Row → List String → Row × (List String × ℕ)
  unfolding is_uuid missing lookup put
  fill_uuids [] n row filled = (row, (filled, n))
  fill_uuids ((name, f) ∷ rest) n row filled =
      if is_uuid f.type && f.generated && missing (column row name)
      then fill_uuids rest (suc n) (put name (text (env.mint n)) row) (filled ++ name ∷ [])
      else fill_uuids rest n row filled

  -- `assertValidUuids`
  unfoldable pub check_uuids : List (String × FieldDef) → Row → Result (Unit {0})
  unfolding is_uuid missing lookup is_valid_uuid cell_at
  check_uuids [] row = ok tt
  check_uuids ((name, f) ∷ rest) row =
      let others = check_uuids rest row in
      if is_uuid f.type && not (missing (column row name)) && not (is_valid_uuid (cell_at name row))
      then err bad_request
      else others
