-- ===== src/Db/Selected.antt =====
-- The rows that the statements of `Db` select: by the id, by the scope and by the clauses of the guard, each
-- as the engine answers it alone.
use pramen.Base.{
  String, ◌≡◌, refl, sym, ap, ◌∙◌, Bool, true, false, ◌&&◌, Option, none, some, List, [], ◌∷◌, All,
  Option-cases, inl, inr,
}
use pramen.Cell.{Cell, Row}
use pramen.Expr.{SqlExpr, and, equals}
use pramen.Acl.Merge.{Scope}
use pramen.Acl.Scoped.{pk_of}
use mathlib.Core.List.{Memᴰ}
use pramen.Db.{encode_row}
use pramen.Db.Values.{assign}
use pramen.Base.{keep, map, subst, Bool-cases, any, ◌==◌, if◌then◌else◌}
use pramen.Schema.{RelationDef, RelationKind, belongs_to, one_has_one, SchemaDef}
use pramen.Acl.Policies.{put}
use pramen.Db.{Database, Env, Engine, rows_of}
use pramen.Db.Read.{within_scope}
use pramen.Db.Update.{by_id, first_row, rewrite_rows, rewrite}

unfoldable pub all_match : Engine → Database → String → List SqlExpr → Row → Bool
all_match engine db table [] row = true
all_match engine db table (e ∷ es) row =
    engine.matches db table e row && all_match engine db table es row

-- A conjunction selects the rows that each of its parts selects.
pub record Conjoins (engine : Engine) : Type 0 where
  pub each_part :
      (db : Database) (table : String) (es : List SqlExpr) (row : Row)
      → engine.matches db table (and es) row ≡ all_match engine db table es row

-- Does the scope's own predicate, if it has one, select the row?
unfoldable pub scope_admits : Engine → Database → String → Option SqlExpr → Row → Bool
scope_admits engine db table none row = true
scope_admits engine db table (some w) row = engine.matches db table w row

-- Is the row the one of the id, within the scope, and under each of the clauses?
unfoldable pub picks : Env → Database → String → Cell → Option SqlExpr → List SqlExpr → Row → Bool
unfolding equals pk_of scope_admits all_match
picks env db table id where_ guards row =
    env.engine.matches db table (equals (pk_of env.acl.schema table) id) row
    && (scope_admits env.engine db table where_ row && all_match env.engine db table guards row)

pub both_true : (a b : Bool) → (a && b) ≡ true → (a ≡ true) × (b ≡ true)
both_true true true h = (refl, refl)
both_true true false h = cc
both_true false b h = cc

pub all_match-All :
    (engine : Engine) (db : Database) (table : String) (es : List SqlExpr) (row : Row)
    → all_match engine db table es row ≡ true
    → All (λ e. engine.matches db table e row ≡ true) es
unfolding all_match
all_match-All engine db table [] row h = tt
all_match-All engine db table (e ∷ es) row h =
    let (first, rest) = both_true (engine.matches db table e row) _ h in
    (first, all_match-All engine db table es row rest)

module _ (env : Env) (law : Conjoins env.engine) (db : Database) (table : String) where
  pub by_id-picks :
      (id : Cell) (where_ : Option SqlExpr) (guards : List SqlExpr) (row : Row)
      → env.engine.matches db table (by_id env table id where_ guards) row
        ≡ picks env db table id where_ guards row
  unfolding by_id picks scope_admits all_match
  by_id-picks id none guards row = law.each_part db table _ row
  by_id-picks id (some w) guards row = law.each_part db table _ row

  pub within_scope-admits :
      (e : SqlExpr) (scope : Scope) (row : Row)
      → env.engine.matches db table (within_scope env e scope) row ≡ true
      → (env.engine.matches db table e row ≡ true)
        × (scope_admits env.engine db table scope.where_ row ≡ true)
  unfolding within_scope scope_admits all_match
  within_scope-admits e scope row h = elim (Option-cases scope.where_) [
    | inl n ↦ (rw n at h, rw n refl)
    | inr (w, n) ↦
        let (first, rest) =
          both_true (env.engine.matches db table e row) _
            (sym (law.each_part db table (e ∷ w ∷ []) row) ∙ (rw n at h)) in
        (first, rw n (both_true (env.engine.matches db table w row) true rest).0)
  ]

-- The rows after an UPDATE: each selected one with the columns that it sets, the others as they are.
unfoldable pub rewritten : Env → String → (Row → Bool) → Row → List Row → List Row
rewritten env table p patch rows =
    map (λ row. if p row then assign row (encode_row env table patch) else row) rows

pub rewrite_rows-rewritten :
    (env : Env) (table : String) (p q : Row → Bool) (patch : Row) (rows : List Row)
    → ((row : Row) → p row ≡ q row)
    → rewrite_rows env table p patch rows ≡ rewritten env table q patch rows
unfolding rewrite_rows rewritten rewrite
rewrite_rows-rewritten env table p q patch [] h = refl
rewrite_rows-rewritten env table p q patch (r ∷ rs) h = elim (Bool-cases (q r)) [
  | inl e ↦ rw (h r, e, rewrite_rows-rewritten env table p q patch rs h) refl
  | inr e ↦ rw (h r, e, rewrite_rows-rewritten env table p q patch rs h) refl
]

-- A row that the database holds is the first of the selected ones.
pub first_row-picked :
    (env : Env) (table : String) (p : Row → Bool) (rows : List Row) (row : Row)
    → first_row env table (keep p rows) ≡ some row
    → Memᴰ row rows × (p row ≡ true)
unfolding first_row keep
first_row-picked env table p [] row h = cc
first_row-picked env table p (r ∷ rs) row h = elim (Bool-cases (p r)) [
  | inl e ↦
      let same : r ≡ row = ap (λ o. elim o [ none ↦ r | some x ↦ x ]) (rw e at h) in
      (Memᴰ.head (sym same), subst (λ x. p x ≡ true) same e)
  | inr e ↦ let (m, k) = first_row-picked env table p rs row (rw e at h) in (Memᴰ.tail m, k)
]

pub none-picked :
    (p q : Row → Bool) (rows : List Row)
    → ((row : Row) → p row ≡ q row)
    → keep p rows ≡ []
    → All (λ row. q row ≡ false) rows
unfolding keep
none-picked p q [] same h = tt
none-picked p q (r ∷ rs) same h = elim (Bool-cases (p r)) [
  | inl e ↦ let gone = rw e at h in cc
  | inr e ↦ (sym (same r) ∙ e, none-picked p q rs same (rw e at h))
]

unfoldable pub without : (Row → Bool) → List Row → List Row
without p [] = []
without p (r ∷ rs) = let rest = without p rs in if p r then rest else r ∷ rest

pub without-same :
    (p q : Row → Bool) (rows : List Row)
    → ((row : Row) → p row ≡ q row)
    → without p rows ≡ without q rows
unfolding without
without-same p q [] h = refl
without-same p q (r ∷ rs) h = rw (h r, without-same p q rs h) refl

-- Is a relation of this kind a foreign key? It is where it says what becomes of its row.
unfoldable is_foreign : RelationKind → Bool
is_foreign (belongs_to (some a)) = true
is_foreign (one_has_one (some a)) = true
is_foreign _ = false

-- Does a foreign key of some entity refer to the table?
unfoldable pub refers : String → String × RelationDef → Bool
unfolding is_foreign
refers table (name, rel) = rel.target == table && is_foreign rel.kind

unfoldable pub is_referenced : SchemaDef → String → Bool
unfolding refers
is_referenced schema table = any (λ entity. any (refers table) entity.1.relations) schema

-- A DELETE of a table that no foreign key refers to removes the rows that it selects, and nothing else.
pub record Removes (engine : Engine) (schema : SchemaDef) : Type 0 where
  pub own_rows :
      (db : Database) (table : String) (e : SqlExpr)
      → is_referenced schema table ≡ false
      → engine.removed db table e
        ≡ some (put table (without (engine.matches db table e) (rows_of db table)) db)

pub any-same :
    (p q : Row → Bool) (rows : List Row) → ((row : Row) → p row ≡ q row) → any p rows ≡ any q rows
unfolding any
any-same p q [] h = refl
any-same p q (r ∷ rs) h = rw (h r, any-same p q rs h) refl
