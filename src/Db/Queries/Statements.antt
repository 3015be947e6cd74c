-- ===== src/Db/Queries/Statements.antt =====
-- The rows that the statements of `find` and `page` of runtime/db.ts return, and how many.
use pramen.Base.{
  ℕ, zero, suc, ◌≤◌, String, ◌≡◌, sym, ap, subst, ◌∙◌, true, Option, none, some, List, [], ◌∷◌,
  read, ok, All, ok-injective, length, arith, map,
}
use pramen.Cell.{Row}
use pramen.Cell.Int.{pos}
use pramen.Expr.{SqlExpr}
use pramen.Acl.Merge.{Scope}
use pramen.Acl.Fields.{flag_columns}
use pramen.Db.{Env, Store, touch, in_partition, scope_for, take_rows, decode_row}
use pramen.Db.Read.{
  enter, check_readable, read_where, user_where, within_scope, select_raw, select_rows, finish_row,
  finish_rows, projection_columns,
}
use pramen.Db.Queries.{
  FindSpec, PageSpec, Page, Found, selection, order_cols, join_cols, bare, with_rows,
  check_selection, load_all, finish, find, page, page_size, order_with_pk, after_cursor,
}
use pramen.Db.Queries.Rows.{
  Orders, All-take_rows, Returned, All-select_rows, All-finish, read_where-ok, both_ok,
}
use pramen.Db.Steps.{after-ok, lift-ok, enter-ok}
use pramen.Db.Queries.{cursor_of, last_row}

take_rows-length : (n : ℕ) (rows : List Row) → length (take_rows n rows) ≤ n
unfolding take_rows
take_rows-length zero rows = ground arith
take_rows-length (suc n) [] = ground arith
take_rows-length (suc n) (r ∷ rs) = ground (arith, take_rows-length n rs)

with_rows-length :
    (rows : List Row) (found : List Found) → length (with_rows rows found) ≤ length rows
unfolding with_rows
with_rows-length [] found = ground arith
with_rows-length (r ∷ rs) [] = ground arith
with_rows-length (r ∷ rs) (f ∷ fs) = ground (arith, with_rows-length rs fs)

-- the columns that the statement of a `find` reads, and of a `page`
abbrev pub find_columns : Env → FindSpec → Scope → List String
find_columns env spec scope =
    projection_columns env spec.from scope (selection spec.select) (order_cols spec.order_by)
      (join_cols env.acl.schema spec.from spec.relations)

abbrev pub page_columns : Env → PageSpec → Scope → List String
page_columns env spec scope =
    projection_columns env spec.from scope (selection spec.select)
      (order_cols (order_with_pk env.acl.schema spec.from spec.order_by))
      (join_cols env.acl.schema spec.from spec.relations)

module _ (env : Env) where
  finish_rows-length :
      (from : String) (scope : Scope) (select : Option (List String)) (raw rows : List Row)
      → finish_rows env from scope select raw ≡ ok rows
      → length rows ≡ length raw
  unfolding finish_rows
  finish_rows-length from scope select [] rows h = ap length (sym (ok-injective h))
  finish_rows-length from scope select (r ∷ rs) rows h =
      let (row, rest, f, g, same) =
        both_ok (finish_row env from scope select r) (finish_rows env from scope select rs) rows
          h in
      ap length (sym same) ∙ ap suc (finish_rows-length from scope select rs rest g)

  finish-length :
      (from : String) (scope : Scope) (raw : List Row) (relations : List String)
      (select : Option (List String)) (found : List Found) (s s' : Store)
      → finish env from scope raw relations select s ≡ (ok found, s')
      → length found ≤ length raw
  unfolding finish
  finish-length from scope raw relations select found s s' e =
      let (loaded, t, _, k) =
        after-ok (load_all env from scope raw relations (bare raw) s) _ found s' e in
      let (rows, f, g) = lift-ok (finish_rows env from scope select raw) t _ found s' k in
      ground (
        arith,
        with_rows-length rows loaded,
        finish_rows-length from scope select raw rows f,
        ap length (ok-injective (ap (λ r. r.0) g)),
      )

  pub find-Returned :
      (spec : FindSpec) (s s' : Store) (found : List Found)
      → Orders env.engine
      → find env spec s ≡ (ok found, s')
      → (scope : Scope) × (own : SqlExpr) × (in_partition env spec.from ≡ ok tt)
        × (scope_for env spec.from read ≡ ok scope)
        × (scope.allowed ≡ true)
        × (user_where env spec.from spec.where_ scope ≡ ok own)
        × All
            (λ f.
              Returned env spec.from scope
                (selection spec.select)
                s.tables
                (within_scope env own scope)
                (find_columns env spec scope)
                f.row)
            found
  unfolding find select_raw touch
  find-Returned spec s s' found law h =
      let (scope, s1, opened, h1) = after-ok (enter env spec.from read s) _ found s' h in
      let (touched, part, mine, allowed) = enter-ok env spec.from read s s1 scope opened in
      let (e, s2, filter, h2) =
        after-ok (read_where env spec.from spec.where_ scope s1) _ found s' h1 in
      let (own, u, within, kept) = read_where-ok env spec.from spec.where_ scope s1 s2 e filter in
      let (_, _, h3) =
        lift-ok (check_readable env spec.from scope (order_cols spec.order_by)) s2 _ found s' h2 in
      let (_, _, h4) =
        lift-ok (check_selection env spec.from scope (selection spec.select)) s2 _ found s' h3 in
      let same = kept ∙ ap (λ t. t.tables) touched in
      let columns = find_columns env spec scope in
      (
        scope,
        own,
        part,
        mine,
        allowed,
        u,
        subst
            (λ db.
              All
                (λ f.
                  Returned env spec.from scope (selection spec.select) db
                    (within_scope env own scope) columns f.row)
                found)
            same
            (subst
              (λ w.
                All
                  (λ f.
                    Returned env spec.from scope (selection spec.select) s2.tables w columns f.row)
                  found)
              within
              (All-finish env spec.from scope (selection spec.select)
                (Returned env spec.from scope (selection spec.select) s2.tables e columns) _
                spec.relations found s2 s'
                (All-select_rows env spec.from scope (selection spec.select) s2.tables e
                  spec.order_by spec.limit spec.offset columns law)
                h4)),
      )

  pub page-Returned :
      (spec : PageSpec) (s s' : Store) (p : Page)
      → Orders env.engine
      → page env spec s ≡ (ok p, s')
      → (length p.items ≤ page_size spec.limit)
        × (scope : Scope) × (own e : SqlExpr) × (in_partition env spec.from ≡ ok tt)
        × (scope_for env spec.from read ≡ ok scope)
        × (scope.allowed ≡ true)
        × (user_where env spec.from spec.where_ scope ≡ ok own)
        × (after_cursor env
              (order_with_pk env.acl.schema spec.from spec.order_by)
              spec.after
              (within_scope env own scope)
            ≡ ok e)
        × All
            (λ f.
              Returned env spec.from scope
                (selection spec.select)
                s.tables
                e
                (page_columns env spec scope)
                f.row)
            p.items
  unfolding page select_raw touch
  page-Returned spec s s' p law h =
      let (scope, s1, opened, h1) = after-ok (enter env spec.from read s) _ p s' h in
      let (touched, part, mine, allowed) = enter-ok env spec.from read s s1 scope opened in
      let order = order_with_pk env.acl.schema spec.from spec.order_by in
      let (_, _, h2) =
        lift-ok (check_readable env spec.from scope (order_cols order)) s1 _ p s' h1 in
      let (own_e, s2, filter, h3) =
        after-ok (read_where env spec.from spec.where_ scope s1) _ p s' h2 in
      let (own, u, within, kept) =
        read_where-ok env spec.from spec.where_ scope s1 s2 own_e filter in
      let (e, cursor, h4) = lift-ok (after_cursor env order spec.after own_e) s2 _ p s' h3 in
      let (_, _, h5) =
        lift-ok (check_selection env spec.from scope (selection spec.select)) s2 _ p s' h4 in
      let columns = page_columns env spec scope in
      let raw = map (decode_row env spec.from) (
        select_rows env s2.tables spec.from e order (some (pos (suc (page_size spec.limit)))) none
          columns (flag_columns scope)) in
      let (_, _, h6) =
        lift-ok (cursor_of env order (last_row (take_rows (page_size spec.limit) raw))) s2 _ p s'
          h5 in
      let (items, s3, fin, k) =
        after-ok
          (finish env spec.from scope (take_rows (page_size spec.limit) raw) spec.relations
            (selection spec.select) s2)
          _ p s' h6 in
      let listed : items ≡ p.items = ap (λ q. q.items) (ok-injective (ap (λ r. r.0) k)) in
      let short =
        finish-length spec.from scope (take_rows (page_size spec.limit) raw) spec.relations
          (selection spec.select) items s2 s3 fin in
      (
        ground (arith, short, take_rows-length (page_size spec.limit) raw, ap length listed),
        scope,
        own,
        e,
        part,
        mine,
        allowed,
        u,
        subst (λ w. after_cursor env order spec.after w ≡ ok e) within cursor,
        subst
            (λ fs.
              All
                (λ f. Returned env spec.from scope (selection spec.select) s.tables e columns f.row)
                fs)
            listed
            (subst
              (λ db.
                All (λ f. Returned env spec.from scope (selection spec.select) db e columns f.row)
                  items)
              (kept ∙ ap (λ t. t.tables) touched)
              (All-finish env spec.from scope (selection spec.select)
                (Returned env spec.from scope (selection spec.select) s2.tables e columns) _
                spec.relations items s2 s3
                (All-take_rows _ (page_size spec.limit) raw (
                  All-select_rows env spec.from scope (selection spec.select) s2.tables e order
                    (some (pos (suc (page_size spec.limit)))) none columns law))
                fin)),
      )
