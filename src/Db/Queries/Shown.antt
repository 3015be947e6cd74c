-- ===== src/Db/Queries/Shown.antt =====
-- What `find` and `page` of runtime/db.ts show: which rows, which columns and how many.
use pramen.Base.{ℕ, ◌≤◌, ◌≡◌, subst, true, Option, none, some, List, read, ok, All, length}
use pramen.Expr.{SqlExpr}
use pramen.Acl.Merge.{Scope}
use pramen.Db.{Env, Store, in_partition, scope_for}
use pramen.Db.Read.{within_scope}
use pramen.Db.Queries.{
  FindSpec, PageSpec, Page, Found, selection, find, page, page_size, order_with_pk, after_cursor,
}
use pramen.Db.Queries.Rows.{Orders, All_mono, Shows, Filters, user_where-Filters}
use pramen.Db.Selected.{Conjoins}
use pramen.Db.Queries.Pages.{Follows, Returned-Shows}
use pramen.Base.{refl}
use pramen.Db.Queries.Statements.{find_columns, page_columns, find-Returned, page-Returned}

module _ (env : Env) where
  -- Where a `find` succeeds on an engine whose ORDER BY gives rows that it was given and whose AND selects what
  -- each part selects: the table is of the object's partition, the caller may read it, and the caller's
  -- filter, if there is one, reads columns that the caller may read. Each row found consists of cells
  -- that the read has of one stored row of the table, and the engine selects this row under the
  -- compiled filter and under the predicate of the read scope, if it has one.
  pub find-Shows :
      (spec : FindSpec) (s s' : Store) (found : List Found)
      → Orders env.engine
      → Conjoins env.engine
      → find env spec s ≡ (ok found, s')
      → (scope : Scope) × (own : SqlExpr) × (in_partition env spec.from ≡ ok tt)
        × (scope_for env spec.from read ≡ ok scope)
        × (scope.allowed ≡ true)
        × Filters env spec.from scope spec.where_ own
        × All
            (λ f.
              Shows env spec.from scope s.tables own
                (find_columns env spec scope)
                (λ stored. Unit)
                f.row)
            found
  unfolding after_cursor Follows
  find-Shows spec s s' found law conj h =
      let (scope, own, part, mine, allowed, u, shows) = find-Returned env spec s s' found law h in
      (
        scope,
        own,
        part,
        mine,
        allowed,
        user_where-Filters env spec.from scope spec.where_ own u,
        All_mono found
            (λ f r.
              Returned-Shows env s.tables spec.from spec.order_by scope (selection spec.select) none
                own (within_scope env own scope) (find_columns env spec scope) f.row conj refl r)
            shows,
      )

  page_size-limit : (limit : Option ℕ) → page_size limit ≡ (elim limit [ none ↦ 50 | some n ↦ n ])
  unfolding page_size
  page_size-limit none = refl
  page_size-limit (some n) = refl

  -- Where a `page` succeeds on an engine whose ORDER BY gives rows that it was given and whose AND selects what
  -- each part selects: it has at most as many items as its limit, 50 where none is given; the table is of
  -- the object's partition, the caller may read it, and the caller's filter, if there is one, reads
  -- columns that the caller may read. Each item consists of cells that the read has of one stored row
  -- of the table, and the engine selects this row under the compiled filter, under the predicate of the read
  -- scope, if it has one, and, where a cursor is given, under the keyset predicate of its values.
  pub page-Shows :
      (spec : PageSpec) (s s' : Store) (p : Page)
      → Orders env.engine
      → Conjoins env.engine
      → page env spec s ≡ (ok p, s')
      → (length p.items ≤ (elim spec.limit [ none ↦ 50 | some n ↦ n ]))
        × (scope : Scope) × (own : SqlExpr) × (in_partition env spec.from ≡ ok tt)
        × (scope_for env spec.from read ≡ ok scope)
        × (scope.allowed ≡ true)
        × Filters env spec.from scope spec.where_ own
        × All
            (λ f.
              Shows env spec.from scope s.tables own
                (page_columns env spec scope)
                (Follows env s.tables spec.from
                  (order_with_pk env.acl.schema spec.from spec.order_by)
                  spec.after)
                f.row)
            p.items
  page-Shows spec s s' p law conj h =
      let (short, scope, own, e, part, mine, allowed, u, cursor, shows) =
        page-Returned env spec s s' p law h in
      (
        subst (λ n. length p.items ≤ n) (page_size-limit spec.limit) short,
        scope,
        own,
        part,
        mine,
        allowed,
        user_where-Filters env spec.from scope spec.where_ own u,
        All_mono p.items
            (λ f r.
              Returned-Shows env s.tables spec.from
                (order_with_pk env.acl.schema spec.from spec.order_by) scope (selection spec.select)
                spec.after own e (page_columns env spec scope) f.row conj cursor r)
            shows,
      )
