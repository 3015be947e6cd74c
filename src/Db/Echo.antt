-- ===== src/Db/Echo.antt =====
-- The echo of a write: `projectWrite` of runtime/db.ts.
use pramen.Base.{
  String, Bool, true, false, not, none, some, List, ◌∷◌, add_all, set_of, keep, read, Result, ok,
  err, if◌then◌else◌,
}
use pramen.Cell.{Row}
use pramen.Acl.Merge.{Scope}
use pramen.Acl.Fields.{effective_fields, flag_columns, pick}
use pramen.Acl.Scoped.{pk_of}
use pramen.Db.{Database, Env, strip_hidden, scope_for}
use pramen.Db.Read.{is_hidden}
use pramen.Db.Values.{where_on_unstored}

module _ (env : Env) where
  -- the columns that the echo of a write may show, less the hidden ones
  unfoldable pub echo : String → Row → List String → Row
  unfolding keep is_hidden pick
  echo table row visible = pick row (keep (λ c. not (is_hidden env table c)) visible)

  unfoldable pub echo_within : String → Row → List String → Scope → Row × Bool → Result Row
  unfolding effective_fields echo strip_hidden add_all
  echo_within table row visible scope (judged, false) = ok (echo table row visible)
  echo_within table row visible scope (judged, true) =
      elim (effective_fields env.acl.host env.acl.identity judged judged scope) [
        | err e ↦ err e
        | ok none ↦ ok (strip_hidden env.acl.schema table row)
        | ok (some fs) ↦ ok (echo table row (add_all fs visible))
      ]

  unfoldable pub echo_scoped : Database → String → Row → List String → Scope → Result Row
  unfolding echo where_on_unstored echo_within
  echo_scoped db table row visible scope =
      if scope.allowed
      then (elim (where_on_unstored env db table row scope.where_ (flag_columns scope)) [
        | err e ↦ err e
        | ok judged ↦ echo_within table row visible scope judged
      ])
      else ok (echo table row visible)

  -- `projectWrite`
  unfoldable pub project_write : Database → String → Row → List String → Result Row
  unfolding strip_hidden scope_for echo_scoped set_of pk_of
  project_write db table row written =
      if env.acl.system
      then ok (strip_hidden env.acl.schema table row)
      else (elim (scope_for env table read) [
        | err e ↦ err e
        | ok scope ↦ echo_scoped db table row (set_of (pk_of env.acl.schema table ∷ written)) scope
      ])
