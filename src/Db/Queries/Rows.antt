-- ===== src/Db/Queries/Rows.antt =====
-- The rows that `find` and `page` return.
use mathlib.Core.List.{Memᴰ}
use pramen.Base.{
  ℕ, zero, suc, String, ◌≡◌, refl, sym, ap, subst, Bool, true, false, Option, none, some, List, [],
  ◌∷◌, map, keep, Result, ok, err, All, Bool-cases, ok-injective, inl, inr,
}
use pramen.Cell.{Row}
use pramen.Cell.Int.{ℤ, pos}
use pramen.Expr.{SqlExpr}
use pramen.Acl.Merge.{Scope}
use pramen.Acl.Fields.{flag_columns}
use pramen.Where.{WhereRule}
use pramen.Db.{
  Database, Env, Engine, Store, touch_tables, rows_of, decode_row, take_rows, drop_rows, limited,
  skipped,
}
use pramen.Db.Read.{
  read_where, user_where, within_scope, matching, selected, select_rows, finish_row, finish_rows,
}
use pramen.Db.Queries.{Order, Found, bare, with_rows, load_all, finish}
use pramen.Db.Selected.{scope_admits}
use pramen.Where.{nested}
use pramen.Expr.{always}
use pramen.Acl.Readable.{check_where}
use pramen.Acl.Scoped.Hops.{compile_scoped_where}
use pramen.Db.Steps.{after-ok, lift-ok}

-- ORDER BY gives rows that it was given.
pub record Orders (engine : Engine) : Type 1 where
  pub only_given :
      (P : Row → Type 0) (order : List (String × Bool)) (rows : List Row)
      → All P rows
      → All P (engine.ordered order rows)

module _ {ℓ κ μ} {A : Type ℓ} {P : A → Type κ} {Q : A → Type μ} where
  pub All_mono : (xs : List A) → ((x : A) → P x → Q x) → All P xs → All Q xs
  All_mono [] f h = tt
  All_mono (x ∷ xs) f (h, hs) = (f x h, All_mono xs f hs)

pub All-members : {A : Type 0} (xs : List A) → All (λ x. Memᴰ x xs) xs
All-members [] = tt
All-members (x ∷ xs) = (Memᴰ.head refl, All_mono xs (λ y m. Memᴰ.tail m) (All-members xs))

module _ (P : Row → Type 0) where
  All-keep :
      (p : Row → Bool) (rows : List Row) → All P rows → All (λ r. P r × (p r ≡ true)) (keep p rows)
  unfolding keep
  All-keep p [] h = tt
  All-keep p (r ∷ rs) (h, hs) = elim (Bool-cases (p r)) [
    | inl kept ↦ rw kept ((h, kept), All-keep p rs hs)
    | inr dropped ↦ rw dropped (All-keep p rs hs)
  ]

  pub All-take_rows : (n : ℕ) (rows : List Row) → All P rows → All P (take_rows n rows)
  unfolding take_rows
  All-take_rows zero rows h = tt
  All-take_rows (suc n) [] h = tt
  All-take_rows (suc n) (r ∷ rs) (h, hs) = (h, All-take_rows n rs hs)

  All-drop_rows : (n : ℕ) (rows : List Row) → All P rows → All P (drop_rows n rows)
  unfolding drop_rows
  All-drop_rows zero rows h = h
  All-drop_rows (suc n) [] h = tt
  All-drop_rows (suc n) (r ∷ rs) (h, hs) = All-drop_rows n rs hs

  All-limited : (n : Option ℤ) (rows : List Row) → All P rows → All P (limited n rows)
  unfolding limited
  All-limited none rows h = h
  All-limited (some (pos n)) rows h = All-take_rows n rows h
  All-limited (some (ℤ.negsuc n)) rows h = h

  All-skipped : (n : Option ℤ) (rows : List Row) → All P rows → All P (skipped n rows)
  unfolding skipped
  All-skipped none rows h = h
  All-skipped (some (pos n)) rows h = All-drop_rows n rows h
  All-skipped (some (ℤ.negsuc n)) rows h = h

  All-mapped : (f : Row → Row) (rows : List Row) → All (λ r. P (f r)) rows → All P (map f rows)
  All-mapped f [] h = tt
  All-mapped f (r ∷ rs) (h, hs) = (h, All-mapped f rs hs)

  All-with_rows :
      (rows : List Row) (found : List Found)
      → All P rows
      → All (λ f. P f.row) (with_rows rows found)
  unfolding with_rows
  All-with_rows [] found h = tt
  All-with_rows (r ∷ rs) [] h = tt
  All-with_rows (r ∷ rs) (f ∷ fs) (h, hs) = (h, All-with_rows rs fs hs)

pub both_ok :
    (m : Result Row) (n : Result (List Row)) (rows : List Row)
    → (elim m as (λ _. Result (List Row)) [
      | err e ↦ err e
      | ok row ↦ elim n as (λ _. Result (List Row)) [ err e ↦ err e | ok rest ↦ ok (row ∷ rest) ]
    ])
      ≡ ok rows
    → (row : Row) × (rest : List Row) × (m ≡ ok row) × (n ≡ ok rest) × (row ∷ rest ≡ rows)
both_ok (ok row) (ok rest) rows h = (row, rest, refl, refl, ok-injective h)
both_ok (ok row) (err e) rows h = cc
both_ok (err e) n rows h = cc

-- what a read of these columns, with the flags of its scope, makes of a stored row
unfoldable pub read_row : Env → String → Scope → Database → List String → Row → Row
unfolding selected
read_row env from scope db columns stored =
    decode_row env from (selected env db from columns (flag_columns scope) stored)

module _ (env : Env) (from : String) (scope : Scope) (select : Option (List String)) where
  -- a row that a read returns: a stored row that the engine selects, projected for the scope
  unfoldable pub Returned : Database → SqlExpr → List String → Row → Type 0
  unfolding read_row
  Returned db where_ columns row =
      (stored : Row) × Memᴰ stored (rows_of db from)
      × (env.engine.matches db from where_ stored ≡ true)
      × (finish_row env from scope select (read_row env from scope db columns stored) ≡ ok row)

  All-finish_rows :
      (P : Row → Type 0) (raw rows : List Row)
      → All (λ r. (row : Row) → finish_row env from scope select r ≡ ok row → P row) raw
      → finish_rows env from scope select raw ≡ ok rows
      → All P rows
  unfolding finish_rows
  All-finish_rows P [] rows h e = subst (All P) (ok-injective e) tt
  All-finish_rows P (r ∷ rs) rows (h, hs) e =
      let (row, rest, f, g, same) =
        both_ok (finish_row env from scope select r) (finish_rows env from scope select rs) rows
          e in
      subst (All P) same (h row f, All-finish_rows P rs rest hs g)

  -- what the statement returned, decoded
  pub All-select_rows :
      (db : Database) (where_ : SqlExpr) (order : Order) (limit offset : Option ℤ)
      (columns : List String)
      → Orders env.engine
      → All
          (λ r.
            (row : Row)
            → finish_row env from scope select r ≡ ok row
            → Returned db where_ columns row)
          (map
            (decode_row env from)
            (select_rows env db from where_ order limit offset columns (flag_columns scope)))
  unfolding select_rows matching Returned
  All-select_rows db where_ order limit offset columns law = All-mapped _ (decode_row env from) _ (
      All-mapped _ (selected env db from columns (flag_columns scope)) _ (
        All-limited _ limit _ (
          All-skipped _ offset _ (
            law.only_given _ order _ (
              All_mono (matching env db from where_) (λ stored (m, k) row f. (stored, m, k, f))
                (All-keep (λ r. Memᴰ r (rows_of db from)) (env.engine.matches db from where_)
                  (rows_of db from) (All-members (rows_of db from))))))))

  -- what `finish` returns, of rows that the statement returned
  pub All-finish :
      (P : Row → Type 0) (raw : List Row) (relations : List String) (found : List Found)
      (s s' : Store)
      → All (λ r. (row : Row) → finish_row env from scope select r ≡ ok row → P row) raw
      → finish env from scope raw relations select s ≡ (ok found, s')
      → All (λ f. P f.row) found
  unfolding finish
  All-finish P raw relations found s s' h e =
      let (loaded, t, _, k) =
        after-ok (load_all env from scope raw relations (bare raw) s) _ found s' e in
      let (rows, f, g) = lift-ok (finish_rows env from scope select raw) t _ found s' k in
      subst (All (λ f. P f.row)) (ok-injective (ap (λ r. r.0) g))
        (All-with_rows P rows loaded (All-finish_rows P raw rows h f))

module _ (env : Env) (from : String) (w : Option WhereRule) (scope : Scope) where
  pub read_where-ok :
      (s s' : Store) (e : SqlExpr)
      → read_where env from w scope s ≡ (ok e, s')
      → (own : SqlExpr) × (user_where env from w scope ≡ ok own)
        × (e ≡ within_scope env own scope)
        × (s'.tables ≡ s.tables)
  unfolding read_where touch_tables
  read_where-ok s s' e h =
      let (own, u, k) = lift-ok (user_where env from w scope) s _ e s' h in
      (own, u, sym (ok-injective (ap (λ r. r.0) k)), ap (λ r. r.1.tables) (sym k))

module _ (env : Env) (from : String) (scope : Scope) where
  -- A row that a read returns: cells of a stored row, as the read decodes it, which the engine selects under
  -- the caller's filter and, where the scope has a predicate, under that one.
  unfoldable pub Shows : Database → SqlExpr → List String → (Row → Type 0) → Row → Type 0
  unfolding read_row scope_admits
  Shows db own columns Follows row =
      (stored : Row) × Memᴰ stored (rows_of db from)
      × (env.engine.matches db from own stored ≡ true)
      × (scope_admits env.engine db from scope.where_ stored ≡ true)
      × Follows stored
      × All (λ cell. Memᴰ cell (read_row env from scope db columns stored)) row

  -- the caller's filter: readable to the caller and compiled, or no filter
  unfoldable pub Filters : Option WhereRule → SqlExpr → Type 0
  Filters none own = own ≡ always
  Filters (some w) own =
      (check_where (nested w) from scope.fields env.acl.schema ≡ ok tt)
      × (compile_scoped_where env.acl from false true 0 w ≡ ok own)

  filtered :
      (m : Result (Unit {0})) (n : Result SqlExpr) (own : SqlExpr)
      → elim m as (λ _. Result SqlExpr) [ err e ↦ err e | ok _ ↦ n ] ≡ ok own
      → (m ≡ ok tt) × (n ≡ ok own)
  filtered (ok tt) n own h = (refl, h)
  filtered (err e) n own h = cc

  pub user_where-Filters :
      (w : Option WhereRule) (own : SqlExpr) → user_where env from w scope ≡ ok own → Filters w own
  unfolding user_where Filters
  user_where-Filters none own h = sym (ok-injective h)
  user_where-Filters (some w) own h = filtered _ _ own h
