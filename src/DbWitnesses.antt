-- ===== src/DbWitnesses.antt =====
-- The theorems on the class `Db` at concrete inputs.
use pramen.Base.{
  ℕ, zero, suc, String, ◌≡◌, refl, ap, sym, ◌∙◌, subst, ◌≤◌, ◌⊎◌, Bool, true, false, ◌&&◌, ◌==◌,
  eq_iff, Bool-cases, Option-cases, inl, inr, Option, none, some, List, [], ◌∷◌, ◌++◌, contains,
  keys, lookup, read, create, update, delete, Result, ok, err, bad_request, conflict, arith, All,
  length,
}
use pramen.Cell.{number, text, Row}
use pramen.Cell.Int.{pos}
use pramen.Expr.{
  SqlExpr, cmp, eq, is_null, conj, disj, negation, sub, in_list, strmatch, always, never, nil, cons,
  and, Parts, columns_in_expr,
}
use pramen.Expr.Meaning.{holds}
use pramen.Schema.{FieldDef, FieldType, EntityDef, SchemaDef}
use pramen.Acl.{AclContext, PolicyRules, rules, allow}
use pramen.Acl.Merge.{Scope, BoundGrant}
use pramen.Acl.Fields.{predicate_holds}
use pramen.Acl.Scoped.Hops.{WriteRules}
use pramen.Db.{Database, Engine, Env, Store, touch, decode_row, scope_for, in_partition, is_flag}
use pramen.Db.Cursor.{Order, values_at, encode_cursor, decode_cursor, keyset_after}
use pramen.Db.Cursor.Laws.{comes_after, keyset_after-holds, decode_cursor-encode_cursor}
use pramen.Db.Queries.{
  FindSpec, PageSpec, Found, Page, find, page, count, aggregate, selection, order_with_pk,
}
use pramen.Base.{◌≢◌, any, ◌>>=◌}
use pramen.Db.{rows_of}
use pramen.Acl.Policies.{put}
use pramen.Db.Selected.{picks, without, rewritten, is_referenced}
use pramen.Db.Queries.Pages.{Follows}
use pramen.Db.Queries.Statements.{find_columns, page_columns}
use pramen.Db.Queries.Shown.{find-Shows, page-Shows}
use pramen.Db.Queries.Rows.{Shows, Filters}
use pramen.Db.Update.Decided.{Reads, IsRead, is_judged}
use pramen.Db.Update.Attempts.{attempt-Decides, attempt-lost, update_values-conflict}
use pramen.Db.Update.Guard.{comparable_cells}
use pramen.DbSamples.{engine-Conjoins, engine-Removes, packed, unpacked, other_post}
use pramen.Db.Insert.{insert}
use pramen.Db.Update.{attempt, update_values, update_row, delete_row, by_id, Preimage, decide}
use pramen.Db.Preimage.{preimage_guard}
use pramen.Db.Update.Guard.{preimage_guard-keeps_admission, preimage_guard-reasserts_flag}
use pramen.Db.Writes.{Opened, Inserts, delete_row-within_scope, insert-authorized}
use pramen.Db.Partition.{operations-in_partition}
use pramen.DbSamples.{
  engine, engine-Compares, engine-Orders, env, host, post, selects, store, with_token,
}

abbrev of_posts : FindSpec
of_posts = record {
  from = "post";
  where_ = none;
  order_by = ("id", false) ∷ [];
  limit = none;
  offset = none;
  relations = [];
  select = [];
}

abbrev first_page : PageSpec
first_page = record {
  from = "post";
  where_ = none;
  order_by = [];
  limit = some 1;
  after = none;
  relations = [];
  select = [];
}

abbrev shown : List Found
shown = record { row = ("id", text "p1") ∷ ("author_id", text "u1") ∷ []; related = [] } ∷ []

find-Shows_example :
    (scope : Scope) × (own : SqlExpr) × (in_partition env "post" ≡ ok tt)
    × (scope_for env "post" read ≡ ok scope)
    × (scope.allowed ≡ true)
    × Filters env "post" scope none own
    × All
        (λ f.
          Shows env "post" scope store.tables own
            (find_columns env of_posts scope)
            (λ stored. Unit)
            f.row)
        shown
unfolding find selects pramen.Acl.Fields.admit_flags selection
find-Shows_example =
    find-Shows env of_posts store (touch "post" store) shown engine-Orders engine-Conjoins refl

abbrev listed : Page
listed = record { items = shown; cursor = some "WyJwMSJd"; has_more = false }

page-Shows_example :
    (length shown ≤ 1)
    × (scope : Scope) × (own : SqlExpr) × (in_partition env "post" ≡ ok tt)
    × (scope_for env "post" read ≡ ok scope)
    × (scope.allowed ≡ true)
    × Filters env "post" scope none own
    × All
        (λ f.
          Shows env "post" scope store.tables own
            (page_columns env first_page scope)
            (Follows env store.tables "post" (order_with_pk env.acl.schema "post" []) none)
            f.row)
        shown
unfolding page selects pramen.Acl.Fields.admit_flags selection packed
page-Shows_example =
    page-Shows env first_page store (touch "post" store) listed engine-Orders engine-Conjoins refl

abbrev pub new_post : Row
new_post = ("id", text "p3") ∷ ("author_id", text "u1") ∷ []

unfoldable posts_of : Database → ℕ
posts_of [] = 0
posts_of ((table, rows) ∷ rest) = length rows

new_post-changes : (insert env "post" new_post store).1.tables ≢ store.tables
unfolding insert selects pramen.Acl.Fields.admit_flags posts_of
new_post-changes h = let counted : 3 ≡ 2 = ap posts_of h in ground (arith, counted)

insert-authorized_example :
    Inserts env "post" new_post store.tables (insert env "post" new_post store).1.tables
insert-authorized_example = insert-authorized env "post" new_post store new_post-changes

abbrev deleted : Store
deleted = record (touch "post" store) { tables = ("post", other_post ∷ []) ∷ [] }

delete_row-within_scope_example :
    (scope : Scope) × Opened env "post" delete scope
    × (deleted.tables
        ≡ put "post"
            (without
              (picks env store.tables "post" (text "p1") scope.where_ [])
              (rows_of store.tables "post"))
            store.tables)
    × (true
        ≡ any
            (picks env store.tables "post" (text "p1") scope.where_ [])
            (rows_of store.tables "post"))
unfolding delete_row selects pramen.Acl.Fields.admit_flags without is_referenced
    pramen.Expr.parts_of put
delete_row-within_scope_example =
    delete_row-within_scope env "post" (text "p1") store deleted true engine-Conjoins
      (engine-Removes env.acl.schema) refl refl

-- an update scope whose decision reads the token, the rules of a policy that sets nothing, and a patch
abbrev with_tokens : BoundGrant
with_tokens = record {
  admit = some (record { expr = is_null "token" true; flag = none });
  check = some (record { expr = is_null "token" true; flag = none });
  fields = none;
  conditional = [];
  fields_fns = [];
}

abbrev update_scope : Scope
update_scope = record { allowed = true; where_ = none; fields = none; grants = with_tokens ∷ [] }

abbrev no_rules : WriteRules
no_rules = record { set = []; validators = [] }

-- the same world, where nothing is written between the two statements
abbrev quiet : Env
quiet = record env { others = λ n db. db }

abbrev moved_post : Row
moved_post = ("id", text "p1") ∷ ("author_id", text "u3") ∷ ("token", text "t") ∷ []

abbrev moved : Store
moved = record store { tables = ("post", moved_post ∷ other_post ∷ []) ∷ [] }

attempt-Decides_example :
    (pre : Option Preimage) × (guards : List SqlExpr) × Reads quiet "post"
      (text "p1")
      update_scope
      no_rules
      (("author_id", text "u3") ∷ [])
      (is_judged update_scope)
      store.tables
      pre
    × (decide quiet "post" store.tables update_scope no_rules
          (is_judged update_scope)
          (("author_id", text "u3") ∷ [])
          pre
        ≡ ok guards)
    × (moved.tables
        ≡ put "post"
            (rewritten quiet "post"
              (picks quiet store.tables "post" (text "p1") none guards)
              (("author_id", text "u3") ∷ [])
              (rows_of store.tables "post"))
            store.tables)
unfolding attempt selects pramen.Expr.parts_of pramen.Acl.Fields.check_flags pramen.Base.add
    pramen.Acl.Fields.admit_flags
attempt-Decides_example =
    attempt-Decides quiet "post" (text "p1") update_scope no_rules (("author_id", text "u3") ∷ []) 1
      store moved moved_post (some post) engine-Conjoins refl

abbrev tried : ℕ → Store
tried n = record store { tables = ("post", with_token n ∷ []) ∷ [] }

attempt-lost_example :
    (pre : Preimage) × (guards : List SqlExpr) × (is_judged update_scope ≡ true)
    × IsRead env "post" store.tables (text "p1") update_scope pre
    × (decide env "post" store.tables update_scope no_rules true
          (("author_id", text "u3") ∷ [])
          (some pre)
        ≡ ok guards)
    × All
        (λ row. picks env (env.others 1 store.tables) "post" (text "p1") none guards row ≡ false)
        (rows_of (env.others 1 store.tables) "post")
unfolding attempt selects pramen.Expr.parts_of pramen.Acl.Fields.check_flags with_token
    pramen.Base.add
attempt-lost_example =
    attempt-lost env "post" (text "p1") update_scope no_rules ("author_id", text "u3") [] 1 store
      (tried 1) engine-Conjoins refl

update_values-conflict_example :
    update_values env "post" (text "p1") update_scope no_rules (("author_id", text "u3") ∷ []) store
    ≡ (err conflict, tried 3)
unfolding attempt selects pramen.Expr.parts_of pramen.Acl.Fields.check_flags with_token
    pramen.Base.add
update_values-conflict_example =
    update_values-conflict env "post" (text "p1") update_scope no_rules ("author_id", text "u3") []
      store (tried 1) (tried 2) (tried 3) refl refl refl

abbrev elsewhere : Env
elsewhere = record env { partition = some "tenant" }

operations-in_partition_example :
    (find elsewhere (record of_posts { from = "post" }) store
      ≡ (err bad_request, touch "post" store))
    × (page elsewhere (record first_page { from = "post" }) store
        ≡ (err bad_request, touch "post" store))
    × (count elsewhere "post" none store ≡ (err bad_request, touch "post" store))
    × (aggregate elsewhere "post" none [] [] store ≡ (err bad_request, touch "post" store))
    × (insert elsewhere "post" new_post store ≡ (err bad_request, touch "post" store))
    × (update_row elsewhere "post" (text "p1") new_post store
        ≡ (err bad_request, touch "post" store))
    × (delete_row elsewhere "post" (text "p1") store ≡ (err bad_request, touch "post" store))
unfolding pramen.Schema.partition_of
operations-in_partition_example =
    operations-in_partition elsewhere "post" "tenant" store of_posts first_page none [] [] new_post
      (text "p1") refl refl

-- a scope whose grant admits the posts of u1, by a predicate or by a flag of the database
abbrev by_u1 : SqlExpr
by_u1 = cmp eq "author_id" (text "u1")

abbrev admitting : Option String → BoundGrant
admitting flag = record with_tokens {
  admit = some (record { expr = by_u1; flag = flag });
  check = none;
}

abbrev scope_of : Option String → Scope
scope_of flag = record update_scope { grants = admitting flag ∷ [] }

only_author : (c : String) → contains c (columns_in_expr by_u1 []) ≡ true → "author_id" ≡ c
unfolding columns_in_expr contains pramen.Base.add
only_author c h = (eq_iff "author_id" c).0 (ground (arith, h))

author-is_flag : (c : String) → contains c (columns_in_expr by_u1 []) ≡ true → is_flag c ≡ false
unfolding is_flag
author-is_flag c h = subst (λ x. is_flag x ≡ false) (only_author c h) refl

post-comparable :
    (c : String)
    → contains c (columns_in_expr by_u1 []) ≡ true
    → comparable_cells (lookup c post) (lookup c (with_token 1)) ≡ true
unfolding with_token comparable_cells lookup
post-comparable c h =
    subst (λ x. comparable_cells (lookup x post) (lookup x (with_token 1)) ≡ true) (only_author c h)
      refl

preimage_guard-keeps_admission_example :
    predicate_holds host
      (some (record { expr = by_u1; flag = none }))
      (decode_row env "post" (with_token 1))
    ≡ predicate_holds host
        (some (record { expr = by_u1; flag = none }))
        (decode_row env "post" post)
unfolding preimage_guard selects pramen.Base.add contains by_id pramen.Expr.parts_of with_token
preimage_guard-keeps_admission_example =
    preimage_guard-keeps_admission env "post" (scope_of none) store.tables (text "p1") post
      (with_token 1) (by_u1 ∷ []) [] [] (admitting none) (record { expr = by_u1; flag = none })
      engine-Conjoins engine-Compares refl refl refl author-is_flag post-comparable refl refl

abbrev flagged_post : Row
flagged_post = post ++ ("__pramen_acl_0", number (pos 1)) ∷ []

preimage_guard-reasserts_flag_example : env.engine.matches store.tables "post" by_u1 post ≡ true
unfolding preimage_guard selects decode_row pramen.Base.add by_id pramen.Expr.parts_of
preimage_guard-reasserts_flag_example =
    preimage_guard-reasserts_flag env "post" (scope_of (some "__pramen_acl_0")) store.tables
      (text "p1") flagged_post post (by_u1 ∷ by_u1 ∷ []) [] [] (admitting (some "__pramen_acl_0"))
      (record { expr = by_u1; flag = some "__pramen_acl_0" }) "__pramen_acl_0" engine-Conjoins refl
      refl refl refl refl refl

abbrev by_token : Order
by_token = ("token", true) ∷ ("id", false) ∷ []

keyset_after-holds_example :
    holds host
      (λ outer from select where_ negate row. true)
      (disj (
        cons
          (disj (cons (cmp pramen.Expr.lt "token" (text "t")) (cons (is_null "token" false) nil)))
          (cons
            (conj
              (cons (cmp eq "token" (text "t")) (cons (cmp pramen.Expr.gt "id" (text "p1")) nil)))
            nil)))
      post
    ≡ comes_after host
        (λ outer from select where_ negate row. true)
        post
        by_token
        (text "t" ∷ text "p1" ∷ [])
unfolding keyset_after pramen.Expr.parts_of
keyset_after-holds_example =
    keyset_after-holds host (λ outer from select where_ negate row. true) by_token
      (text "t" ∷ text "p1" ∷ []) post _ refl

abbrev odd_post : Row
odd_post = ("id", text "~aa?") ∷ []

decode_cursor-encode_cursor_example :
    (do s ← encode_cursor engine (("id", false) ∷ []) odd_post; decode_cursor engine s)
    ≡ ok (text "~aa?" ∷ [])
unfolding pramen.Db.Cursor.Laws.IsPlain values_at packed unpacked pramen.Db.Cursor.trim_padding
decode_cursor-encode_cursor_example =
    decode_cursor-encode_cursor engine (("id", false) ∷ []) odd_post "WyJ+YWE/Il0=" refl
      (
        refl,
        refl,
        (
          refl,
          refl,
          (
            refl,
            refl,
            (
              refl,
              refl,
              (
                refl,
                refl,
                (
                  refl,
                  refl,
                  (
                    refl,
                    refl,
                    (refl, refl, (refl, refl, (refl, refl, (refl, refl, (refl, refl, tt))))),
                  ),
                ),
              ),
            ),
          ),
        ),
      )
      refl
