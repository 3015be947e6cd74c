-- ===== src/Db/Authorized.antt =====
-- What the checks of `insert` of runtime/db.ts promise of the values that they let through.
use pramen.Base.{
  String, ◌≡◌, refl, sym, ap, Bool, true, false, not, ◌&&◌, ◌||◌, Option, none, some, List, [], ◌∷◌,
  ◌++◌, keys, contains, All, Action, create, Result, ok, err, ok-injective, ◌⊎◌, inl, inr,
  Bool-cases, acl_denied, bad_request, if◌then◌else◌, arith,
}
use pramen.Cell.{Row, column}
use pramen.Expr.{SqlExpr}
use pramen.Expr.Eval.{missing}
use pramen.Schema.{FieldDef}
use pramen.Acl.{Validator}
use pramen.Acl.Merge.{Scope, BoundGrant}
use pramen.Db.Queries.Rows.{All_mono}
use pramen.Acl.Fields.{effective_fields, flag_columns}
use pramen.Acl.Scoped.Hops.{WriteRules}
use pramen.Db.{Database, Env, fields_of}
use pramen.Db.Read.{outside}
use pramen.Db.Relations.{cell_at}
use pramen.Db.Values.{
  is_uuid, is_valid_uuid, refuse_written, run_validators, check_uuids, check_write_fields,
  where_on_unstored, with_defaults,
}
use pramen.Db.Insert.{is_plain, admitted_row, authorize_insert}

module _ (env : Env) (table : String) where
  -- The checks hold of the values: the create scope is open, or its predicate holds of the values with the
  -- defaults; each column is forced, minted, or among the fields of the scope for this row; each validator
  -- accepts the values; and each uuid among them is well-formed.
  unfoldable pub Passes : Database → Scope → WriteRules → List String → Row → Type 0
  Passes db scope rules generated vals =
      (eval_row : Row) × (fields : Option (List String)) × (((scope.where_ ≡ none)
          × (scope.grants ≡ [])
          × (eval_row ≡ vals))
        ⊎ (where_on_unstored env db table (with_defaults env table vals) scope.where_
              (flag_columns scope)
            ≡ ok (eval_row, true)))
      × (effective_fields env.acl.host env.acl.identity eval_row eval_row scope ≡ ok fields)
      × All (λ c. (contains c (keys rules.set ++ generated) || not (outside fields c)) ≡ true)
          (keys vals)
      × All (λ v. (x : _) × (v env.acl.identity vals ≡ ok x)) rules.validators
      × All
          (λ ((name, f) : String × FieldDef).
            (is_uuid f.type
              && not (missing (column vals name))
              && not (is_valid_uuid (cell_at name vals)))
            ≡ false)
          (fields_of env.acl.schema table)

  refuse_written-All :
      (action : Action) (bad : String → Bool) (cs : List String)
      → refuse_written env table action bad cs ≡ ok tt
      → All (λ c. bad c ≡ false) cs
  unfolding refuse_written
  refuse_written-All action bad [] h = tt
  refuse_written-All action bad (c ∷ cs) h = elim (Bool-cases (bad c)) [
    | inl e ↦ let refused = rw e at h in cc
    | inr e ↦ (e, refuse_written-All action bad cs (rw e at h))
  ]

  check_uuids-All :
      (vals : Row) (fields : List (String × FieldDef))
      → check_uuids env fields vals ≡ ok tt
      → All
          (λ ((name, f) : String × FieldDef).
            (is_uuid f.type
              && not (missing (column vals name))
              && not (is_valid_uuid (cell_at name vals)))
            ≡ false)
          fields
  unfolding check_uuids
  check_uuids-All vals [] h = tt
  check_uuids-All vals ((name, f) ∷ rest) h =
      elim (Bool-cases (
        is_uuid f.type
        && not (missing (column vals name))
        && not (is_valid_uuid (cell_at name vals)))) [
          | inl e ↦ let refused = rw e at h in cc
          | inr e ↦ (e, check_uuids-All vals rest (rw e at h))
        ]

  passed :
      {A : Type 0} (m : Result A) (f : _ → _) (n : Result (Unit {0}))
      → elim m as (λ _. Result (Unit {0})) [ err e ↦ err (f e) | ok _ ↦ n ] ≡ ok tt
      → (a : A) × (m ≡ ok a) × (n ≡ ok tt)
  passed (ok a) f n h = (a, refl, h)
  passed (err e) f n h = cc

  run_validators-All :
      (vals : Row) (vs : List Validator)
      → run_validators env vs vals ≡ ok tt
      → All (λ v. (x : _) × (v env.acl.identity vals ≡ ok x)) vs
  unfolding run_validators
  run_validators-All vals [] h = tt
  run_validators-All vals (v ∷ vs) h =
      let (x, e, rest) = passed (v env.acl.identity vals) (λ _. bad_request) _ h in
      ((x, e), run_validators-All vals vs rest)

  passed_with :
      {A : Type 0} (m : Result A) (k : A → Result (Unit {0}))
      → elim m as (λ _. Result (Unit {0})) [ err e ↦ err e | ok a ↦ k a ] ≡ ok tt
      → (a : A) × (m ≡ ok a) × (k a ≡ ok tt)
  passed_with (ok a) k h = (a, refl, h)
  passed_with (err e) k h = cc

  plain-open :
      (scope : Scope) → is_plain env scope ≡ true → (scope.where_ ≡ none) × (scope.grants ≡ [])
  unfolding is_plain
  plain-open scope h = opened scope.where_ scope.grants h
    where
      opened :
          (w : Option SqlExpr) (gs : List BoundGrant)
          → (elim w [ some e ↦ false | none ↦ elim gs [ [] ↦ true | (g ∷ rest) ↦ false ] ]) ≡ true
          → (w ≡ none) × (gs ≡ [])
      opened none [] k = (refl, refl)
      opened none (g ∷ gs) k = cc
      opened (some e) gs k = cc

  held :
      (m : Result (Row × Bool)) (row : Row)
      → elim m as (λ _. Result Row) [
        | err e ↦ err e
        | ok (r, holds) ↦ if holds then ok r else err (acl_denied table create none)
      ]
        ≡ ok row
      → m ≡ ok (row, true)
  held (ok (r, true)) row h = ap (λ x. ok (x, true)) (ok-injective h)
  held (ok (r, false)) row h = cc
  held (err e) row h = cc

  admitted_row-ok :
      (db : Database) (scope : Scope) (vals row : Row)
      → admitted_row env db table scope vals ≡ ok row
      → ((scope.where_ ≡ none) × (scope.grants ≡ []) × (row ≡ vals))
        ⊎ (where_on_unstored env db table
              (with_defaults env table vals)
              scope.where_
              (flag_columns scope)
            ≡ ok (row, true))
  unfolding admitted_row
  admitted_row-ok db scope vals row h = elim (Bool-cases (is_plain env scope)) [
    | inl e ↦ let (w, g) = plain-open scope e in inl (w, g, sym (ok-injective (rw e at h)))
    | inr e ↦ inr (held _ row (rw e at h))
  ]

  pub authorize_insert-Passes :
      (db : Database) (scope : Scope) (rules : WriteRules) (generated : List String) (vals : Row)
      → authorize_insert env db table scope rules generated vals ≡ ok tt
      → Passes db scope rules generated vals
  unfolding authorize_insert check_write_fields Passes
  authorize_insert-Passes db scope rules generated vals h =
      let (row, admitted, h1) = passed_with (admitted_row env db table scope vals) _ h in
      let (_, fields_ok, h2) =
        passed_with
          (check_write_fields env table create scope (keys vals) row (keys rules.set ++ generated)
            row)
          _ h1 in
      let (_, validated, uuids) = passed_with (run_validators env rules.validators vals) _ h2 in
      let (fields, effective, written) =
        passed_with (effective_fields env.acl.host env.acl.identity row row scope) _ fields_ok in
      (
        row,
        fields,
        admitted_row-ok db scope vals row admitted,
        effective,
        All_mono (keys vals) (λ c e. ground (arith, e))
            (refuse_written-All create _ (keys vals) written),
        run_validators-All vals rules.validators validated,
        check_uuids-All vals (fields_of env.acl.schema table) uuids,
      )
