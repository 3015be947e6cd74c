-- ===== src/Witnesses.antt =====
-- The theorems at concrete inputs: a schema of posts and their authors, two grants on a post, a
-- ledger of one migration and an outbox of two tasks.
use pramen.Base.{
  ℕ, String, ◌≡◌, refl, ◌≤◌, Bool, true, false, ◌&&◌, ◌||◌, Option, none, some, List, [], ◌∷◌, any,
  contains, keys, Action, read, Result, ok, arith, leb, keep, length, lookup, add, ◌+◌,
  if◌then◌else◌, ◌>>=◌,
}
use pramen.Cell.{text, Row, Host}
use pramen.Expr.{SqlExpr, cmp, eq, conj, nil, cons, has_sub, sub, always}
use pramen.Expr.Eval.{eval_expr}
use pramen.Expr.Meaning.{Linked, holds}
use pramen.Schema.{
  FieldDef, FieldType, EntityDef, RelationDef, belongs_to, SchemaDef, TriggerDef, on, off,
}
use pramen.Where.{entry, end, cell, Objects}
use pramen.Acl.{AclContext, PolicyRules, rules, allow, deny, Identity}
use pramen.Acl.Merge.{Grant, merge_grants, any_check}
use pramen.Acl.Merge.Rows.{shows, satisfies, admits, applies}
use pramen.Acl.Merge.BaseFields.{applies_gives}
use pramen.Acl.Merge.Correct.{IsEvaluated, merge_grants-admits, effective_fields-merge_grants}
use pramen.Acl.Merge.Checked.{any_grant_applies-merge_grants}
use pramen.Acl.Fields.{
  effective_fields, any_grant_applies, possible_fields, flag_columns, check_flag_predicates,
}
use pramen.Acl.Possible.{effective_fields-possible_fields}
use pramen.Migrations.{
  Ledger, claim_row, release, try_claim, DataMigration, World, Visit, default_lease, attempt,
  run_data_migrations, selected, applied_rows, is_done,
}
use pramen.Migrations.Claim.{
  absent, done, leased, status, is_free, outcome_at, try_claim-outcome, status-claim_row,
  status-release,
}
use pramen.Migrations.Race.{run-at_most_once, next, here, win}
use pramen.Migrations.Run.{attempt-did}
use pramen.Outbox.{
  EnqueueOpts, Task, enqueue_task, new_task, batch, claim, next_run_at, is_pending, is_processing,
  is_stale, drain_outbox, prune,
}
use pramen.Cell.Int.{pos}
use pramen.Outbox.Enqueue.{enqueue_task-repeat, enqueue_task-returning}
use pramen.Outbox.Drain.{claim-disjoint, by_then, next_run_at-by_then, drain_outbox-counts}
use pramen.Schema.{partitions_of, default_partition}
use pramen.Migrations.{validate_migrations}
use pramen.Migrations.Valid.{AreValid, validate_migrations-AreValid}
use pramen.SchemaDiff.{diff_schema_fingerprint, schema_fingerprint}
use pramen.SchemaDiff.Laws.{diff_schema_fingerprint_refl}
use pramen.Acl.Policies.{matched_rules}
use pramen.Acl.Scoped.{compile_scoped, collect_grants}
use pramen.Acl.Scoped.Hops.{relate_at, resolve_scope}
use pramen.Acl.Scoped.Cells.{compile_scoped-flat}
use pramen.Acl.Scoped.Grants.{
  grants_something, resolve_scope-allowed, resolve_scope-effective_fields,
}
use pramen.Expr.Sql.{QuerySpec, compile_expr, compile_select}
use pramen.Expr.Sql.Numbering.{Binds, compile_expr-Binds, compile_select-Binds}
use pramen.Outbox.Settled.{in_processing, drain_outbox-settled}

abbrev host : Host
host = record { number_of = λ s. none; printed = λ v. ""; fold = λ c. c; lower = λ s. s }

abbrev linked : Linked
linked = λ outer from select where_ negate row. true

abbrev objects : Objects
objects = record { inherited = λ j s. none; reference = λ v. 0 }

-- a published post, and one that is a draft
abbrev published : Row
published = ("status", text "published") ∷ ("title", text "One") ∷ ("body", text "Text") ∷ []

abbrev is_published : SqlExpr
is_published = cmp eq "status" (text "published")

abbrev is_draft : SqlExpr
is_draft = cmp eq "status" (text "draft")

-- everyone sees the titles of published posts, an editor the bodies of drafts
abbrev titles : Grant
titles = record {
  where_ = some is_published;
  fields = some ("title" ∷ []);
  conditional = [];
  fields_fns = [];
  check = none;
}

abbrev bodies : Grant
bodies = record {
  where_ = some is_draft;
  fields = some ("body" ∷ []);
  conditional = [];
  fields_fns = [];
  check = some is_draft;
}

abbrev grants : List Grant
grants = titles ∷ bodies ∷ []

grants-IsEvaluated : IsEvaluated host linked none published published grants
unfolding merge_grants any applies admits satisfies holds has_sub pramen.Acl.Fields.admit_flags
    contains pramen.Base.add pramen.Acl.Fields.check_flags pramen.Expr.Eval.eval_cmp lookup
grants-IsEvaluated = record {
  flat = (tt, (tt, tt));
  admit_flags = tt;
  check_flags = tt;
  some_applies = refl;
}

merge_grants-admits_example :
    ((merge_grants grants).allowed && satisfies host linked (merge_grants grants).where_ published)
    ≡ any (λ (g : Grant). admits host linked g published) grants
merge_grants-admits_example = merge_grants-admits host linked grants published

effective_fields-merge_grants_example :
    (o : Option (List String)) × (effective_fields host none published published
        (merge_grants grants)
      ≡ ok o)
    × ((f : String) → shows o f ≡ any (applies_gives host linked none published published f) grants)
effective_fields-merge_grants_example =
    effective_fields-merge_grants host linked none published published grants grants-IsEvaluated

any_grant_applies-merge_grants_example :
    any_grant_applies host (merge_grants grants) published published
    ≡ ok (any (applies host linked published published) grants)
unfolding merge_grants any admits satisfies holds any_check pramen.Acl.Fields.admit_flags contains
    pramen.Base.add pramen.Acl.Fields.check_flags pramen.Expr.Eval.eval_cmp lookup
any_grant_applies-merge_grants_example =
    any_grant_applies-merge_grants host linked none published published grants (tt, (tt, tt)) tt tt
      refl refl

effective_fields-possible_fields_example : contains "title" ("title" ∷ "body" ∷ []) ≡ true
unfolding merge_grants possible_fields effective_fields shows pramen.Base.add
effective_fields-possible_fields_example =
    effective_fields-possible_fields host none published published (merge_grants grants)
      ("title" ∷ "body" ∷ []) (some ("title" ∷ [])) "title" refl refl refl

-- a ledger of one migration in flight, and a race for it
abbrev in_flight_until_7 : Ledger
in_flight_until_7 =
    record { id = "backfill"; partition = "default"; applied_at = 2; lease_until = some 7 } ∷ []

try_claim-outcome_example :
    (try_claim "backfill" "default" 5 10 in_flight_until_7).1
    ≡ outcome_at (status "backfill" "default" in_flight_until_7) 5
try_claim-outcome_example = try_claim-outcome "backfill" "default" 5 10 in_flight_until_7

status-claim_row_example :
    status "backfill" "default" (claim_row "backfill" "default" 8 10 in_flight_until_7).0 ≡ (
      if is_free (status "backfill" "default" in_flight_until_7) 8
      then leased (8 + 10)
      else status "backfill" "default" in_flight_until_7)
status-claim_row_example = status-claim_row "backfill" "default" 8 10 in_flight_until_7

status-release_example :
    status "backfill" "default" (release "backfill" "default" in_flight_until_7)
    ≡ (elim (status "backfill" "default" in_flight_until_7) [
      | leased until ↦ absent
      | absent ↦ absent
      | done ↦ done
    ])
unfolding pramen.Migrations.find_row
status-release_example = status-release "backfill" "default" in_flight_until_7 (refl, tt)

run-at_most_once_example : (length ((0 + 10) ∷ []) ≤ 1) × (0 ≤ 1)
run-at_most_once_example =
    run-at_most_once "backfill" "default" 10 0
      (record {
        clock = 0;
        ledger = (claim_row "backfill" "default" 0 10 []).0;
        running = (0 + 10) ∷ [];
        finished = 0;
      })
      (omega arith) (next here (win (unfold claim_row in refl)))

abbrev backfill : DataMigration ℕ
backfill = record { id = "backfill"; partition = none; up = λ n. (n + 1, true) }

abbrev untouched : World ℕ
untouched = record { ledger = []; state = 0 }

abbrev visit : Visit
visit = record {
  start = 0;
  rounds = record { others = λ l. l; claim_at = 1; check_at = 2 } ∷ [];
  completed_at = 3;
}

abbrev filled : World ℕ
filled = record {
  ledger =
      record { id = "backfill"; partition = "default"; applied_at = 3; lease_until = none } ∷ [];
  state = 0 + 1;
}

attempt-did_example : status "backfill" "default" filled.ledger ≡ done
unfolding attempt
attempt-did_example = attempt-did true default_lease backfill visit untouched filled refl

-- an outbox of one task under a key
abbrev welcome : EnqueueOpts
welcome = record { kind = "mail"; payload = "{}"; delay_ms = none; key = some "welcome" }

abbrev queued : List Task
queued = new_task "a" 100 welcome (some ("mail", "welcome")) ∷ []

enqueue_task-repeat_example : enqueue_task true "b" 200 welcome queued ≡ ok (queued, false)
unfolding enqueue_task
enqueue_task-repeat_example =
    enqueue_task-repeat "mail" "welcome" "{}" "{}" none none "a" "b" 100 200 [] queued true refl

enqueue_task-returning_example :
    enqueue_task false "b" 200 welcome queued ≡ enqueue_task true "b" 200 welcome queued
unfolding new_task
enqueue_task-returning_example = enqueue_task-returning "b" 200 welcome queued (refl, tt)

claim-disjoint_example : contains "a" (batch 300 50 (claim 200 50 queued).0) ≡ false
unfolding batch contains new_task
claim-disjoint_example = claim-disjoint "a" 200 300 50 50 queued (omega arith) refl

next_run_at-by_then_example : by_then (next_run_at queued) 150 ≡ (
    any (λ (r : Task). is_pending r.status && leb r.run_at 150) queued
    || any (λ (r : Task). is_processing r.status && is_stale 150 r.claimed_at) queued)
next_run_at-by_then_example = next_run_at-by_then queued 150

drain_outbox-counts_example :
    ((drain_outbox (λ kind payload id n. none) (λ id. (1, 2)) 0 200 50 queued).1.succeeded
        + (drain_outbox (λ kind payload id n. none) (λ id. (1, 2)) 0 200 50 queued).1.failed
      ≡ (drain_outbox (λ kind payload id n. none) (λ id. (1, 2)) 0 200 50 queued).1.processed)
    × ((drain_outbox (λ kind payload id n. none) (λ id. (1, 2)) 0 200 50 queued).1.processed
        ≡ length (claim 200 50 (prune 0 queued)).1)
drain_outbox-counts_example =
    drain_outbox-counts (λ kind payload id n. none) (λ id. (1, 2)) 0 200 50 queued

abbrev plain_field : FieldDef
plain_field = record {
  type = FieldType.text;
  primary_key = false;
  auto_increment = false;
  not_null = false;
  unique = false;
  index = false;
  generated = false;
  default = none;
  default_expr = none;
  renamed_from = none;
  hidden = false;
}

abbrev users : EntityDef
users = record {
  fields = ("id", plain_field) ∷ ("name", plain_field) ∷ ("team", plain_field) ∷ [];
  relations = [];
  partition = "default";
  triggers = [];
  uniques = ("name" ∷ "team" ∷ []) ∷ [];
}

abbrev posts : EntityDef
posts = record {
  fields = ("id", plain_field) ∷ ("author_id", plain_field) ∷ [];
  relations =
      ("author", record { kind = belongs_to none; target = "user"; column = "author_id" }) ∷ [];
  partition = "default";
  triggers = record { task = "notify"; on_create = true; on_update = off; on_delete = false } ∷ [];
  uniques = [];
}

abbrev blog : SchemaDef
blog = ("post", posts) ∷ ("user", users) ∷ []

validate_migrations-AreValid_example :
    AreValid (add default_partition (partitions_of blog)) (backfill ∷ [])
unfolding validate_migrations
validate_migrations-AreValid_example = validate_migrations-AreValid blog (backfill ∷ []) refl

diff_schema_fingerprint_refl_example :
    diff_schema_fingerprint (schema_fingerprint (λ c. "") blog) (schema_fingerprint (λ c. "") blog)
    ≡ []
diff_schema_fingerprint_refl_example =
    diff_schema_fingerprint_refl (schema_fingerprint (λ c. "") blog)

-- a caller without a token, whom one policy on a post lets see its own columns and another nothing
abbrev own_posts : PolicyRules
own_posts = record {
  where_ = entry "author_id" (cell (text "u1")) end;
  check = none;
  fields = some ("id" ∷ []);
  conditional_fields = [];
  fields_fn = none;
  relations = [];
  set = [];
  validate = none;
}

abbrev visitor : AclContext
visitor = record {
  acl = ("anonymous", (("post", read), rules own_posts ∷ deny ∷ []) ∷ []) ∷ [];
  identity = none;
  input = none;
  resolved = [];
  system = false;
  schema = blog;
  now = "2026-01-01T00:00:00.000Z";
  host = host;
  objects = objects;
}

abbrev own : SqlExpr
own = conj (cons (cmp eq "author_id" (text "u1")) nil)

abbrev own_grant : Grant
own_grant = record {
  where_ = some own;
  fields = some ("id" ∷ []);
  conditional = [];
  fields_fns = [];
  check = none;
}

abbrev own_post : Row
own_post = ("id", text "p1") ∷ ("author_id", text "u1") ∷ []

compile_scoped-flat_example : has_sub own ≡ false
unfolding compile_scoped
compile_scoped-flat_example =
    compile_scoped-flat visitor (relate_at visitor 0) "post" false own_posts.where_ own refl

resolve_scope-allowed_example :
    (merge_grants (own_grant ∷ [])).allowed
    ≡ any grants_something (matched_rules visitor "post" read)
unfolding resolve_scope matched_rules
resolve_scope-allowed_example =
    resolve_scope-allowed visitor "post" read 0 (merge_grants (own_grant ∷ [])) refl

resolve_scope-effective_fields_example :
    (o : Option (List String)) × ((resolve_scope visitor "post" read 0
        >>= effective_fields host none own_post own_post)
      ≡ ok o)
    × ((f : String)
        → shows o f ≡ any (applies_gives host linked none own_post own_post f) (own_grant ∷ []))
unfolding collect_grants matched_rules pramen.Acl.Fields.admit_flags merge_grants contains add
    pramen.Acl.Fields.check_flags applies pramen.Expr.Eval.eval_cmp
resolve_scope-effective_fields_example =
    resolve_scope-effective_fields visitor linked "post" read 0 own_post own_post (own_grant ∷ [])
      refl tt tt refl

-- the published posts of authors by the name of Ann, four at a time
abbrev by_ann : SqlExpr
by_ann =
    conj (
      cons is_published (cons (sub "author_id" "user" "id" (cmp eq "name" (text "Ann")) false) nil))

compile_expr-Binds_example :
    Binds (text "p" ∷ []) (compile_expr (λ c. c) by_ann none (text "p" ∷ []))
compile_expr-Binds_example = compile_expr-Binds (λ c. c) by_ann none (text "p" ∷ [])

abbrev page : QuerySpec
page = record {
  from = "post";
  where_ = some by_ann;
  order_by = ("title", true) ∷ [];
  limit = some (pos 4);
  offset = some (pos 8);
  columns = "id" ∷ "title" ∷ [];
  flags = ("flag", is_draft) ∷ [];
}

compile_select-Binds_example : Binds [] (compile_select (λ c. c) page)
compile_select-Binds_example = compile_select-Binds (λ c. c) page

drain_outbox-settled_example :
    in_processing "a"
      (drain_outbox (λ kind payload id n. some "down") (λ id. (1, 2)) 0 200 50 queued).0
    ≡ false
unfolding batch contains new_task prune
drain_outbox-settled_example =
    drain_outbox-settled (λ kind payload id n. some "down") (λ id. (1, 2)) 0 200 50 queued "a" refl
