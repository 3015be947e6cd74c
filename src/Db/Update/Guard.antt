-- ===== src/Db/Update/Guard.antt =====
-- The optimistic compare of `update` (runtime/db.ts): a row that its statement writes is one that the
-- decision holds for.
use pramen.Base.{
  String, ◌≡◌, refl, sym, ap, subst, ◌∙◌, Bool, true, false, Option, ◌==◌, eq_iff, none, some, List,
  [], ◌∷◌, ◌++◌, keys, lookup, contains, contains-set_of, All, ok, arith, Bool-cases, inl, inr,
  ok-injective, >>=-eq-ok,
}
use pramen.Cell.{Cell, null, boolean, number, text, object, Row}
use pramen.Expr.{SqlExpr, equals, cmp, eq, is_null, columns_in_expr}
use pramen.Expr.Columns.{Agree, columns_mono, columns_lem}
use pramen.Acl.Merge.{BoundGrant, RowPredicate, Scope}
use pramen.Acl.Fields.{predicate_holds, stored_flag, has_fields_fn, scope_input_columns}
use pramen.Db.{Database, Env, Engine, decode_row, decode_cell, is_flag}
use pramen.Db.Preimage.{
  predicate_columns, grant_columns, decision_columns, asserted, unchanged, held_admissions,
  preimage_guard,
}
use pramen.Db.Update.{by_id}
use pramen.Acl.Scoped.{pk_of}
use pramen.Db.Selected.{Conjoins, picks, scope_admits, by_id-picks, all_match-All, both_true}
use pramen.Db.Preimage.Clauses.{
  All-left, All-right, grant_columns-has, held_admissions-has, columns_before,
}

-- Can `=` tell the second value, of a column, from the first, which is bound? It can for two numbers and for
-- two texts, and for a null, which is equal to nothing. A column of one storage class holds such values only:
-- a boolean is stored, and bound, as the number 0 or 1.
unfoldable pub comparable : Cell → Cell → Bool
comparable null w = true
comparable (number m) (number n) = true
comparable (number m) null = true
comparable (text s) (text t) = true
comparable (text s) null = true
comparable v w = false

-- the same, where a column may be missing from both rows
unfoldable pub comparable_cells : Option Cell → Option Cell → Bool
unfolding comparable
comparable_cells none none = true
comparable_cells (some v) (some w) = comparable v w
comparable_cells _ _ = false

-- How the engine compares: `=` selects of the values that it can tell apart the one that is bound, and
-- IS NULL selects null.
pub record Compares (engine : Engine) : Type 0 where
  pub same_value :
      (db : Database) (table c : String) (v w : Cell) (row : Row)
      → comparable v w ≡ true
      → lookup c row ≡ some w
      → engine.matches db table (cmp eq c v) row ≡ true
      → w ≡ v
  pub null_value :
      (db : Database) (table c : String) (w : Cell) (row : Row)
      → lookup c row ≡ some w
      → engine.matches db table (is_null c false) row ≡ true
      → w ≡ null

contains-keys :
    (c : String) (row : Row) (v : Cell) → lookup c row ≡ some v → contains c (keys row) ≡ true
unfolding lookup keys contains
contains-keys c [] v h = cc
contains-keys c ((k, w) ∷ rest) v h = ground (arith, contains-keys c rest v)

module _ (engine : Engine) (law : Compares engine) (db : Database) (table : String)
    (raw row : Row) where
  abbrev Matches : List SqlExpr → Type 0
  Matches es = All (λ e. engine.matches db table e row ≡ true) es

  asserted-lookup :
      (c : String) (v w : Cell)
      → comparable v w ≡ true
      → lookup c row ≡ some w
      → Matches (asserted c (some v))
      → w ≡ v
  unfolding asserted
  asserted-lookup c null w k e (h, _) = law.null_value db table c w row e h
  asserted-lookup c (boolean b) w k e (h, _) = law.same_value db table c (boolean b) w row k e h
  asserted-lookup c (number n) w k e (h, _) = law.same_value db table c (number n) w row k e h
  asserted-lookup c (text s) w k e (h, _) = law.same_value db table c (text s) w row k e h
  asserted-lookup c (object p) w k e (h, _) = law.same_value db table c (object p) w row k e h

  -- a column that the guard asserts holds in the row what it held
  unchanged-lookup :
      (cs : List String) (c : String) (v w : Cell)
      → comparable v w ≡ true
      → lookup c row ≡ some w
      → Matches (unchanged raw cs)
      → contains c cs ≡ true
      → is_flag c ≡ false
      → lookup c raw ≡ some v
      → w ≡ v
  unfolding unchanged contains
  unchanged-lookup [] c v w k o m h n e = cc
  unchanged-lookup (d ∷ ds) c v w k o m h n e = elim (Bool-cases (d == c)) [
    | inl same ↦
        let path : d ≡ c = (eq_iff d c).0 same in
        asserted-lookup c v w k o (
          All-left (λ x. engine.matches db table x row ≡ true) (asserted c (some v))
            (unchanged raw ds) (rw (path, n, e) at m))
    | inr other ↦ elim (Bool-cases (is_flag d)) [
      | inl flag ↦ unchanged-lookup ds c v w k o (rw flag at m) (rw other at h) n e
      | inr plain ↦
          unchanged-lookup ds c v w k o
            (All-right (λ x. engine.matches db table x row ≡ true) (asserted d (lookup d raw))
              (unchanged raw ds) (rw plain at m))
            (rw other at h) n e
    ]
  ]

  agreed :
      (x y : Option Cell)
      → comparable_cells x y ≡ true
      → ((v w : Cell) → x ≡ some v → y ≡ some w → comparable v w ≡ true → w ≡ v)
      → x ≡ y
  unfolding comparable_cells
  agreed none none k f = refl
  agreed none (some w) k f = cc
  agreed (some v) none k f = cc
  agreed (some v) (some w) k f = ap some (sym (f v w refl refl k))

  -- A column of the decision is as it was, where the values of it can be told apart.
  unchanged-agrees :
      (cs : List String) (c : String)
      → Matches (unchanged raw cs)
      → ((v : Cell) → lookup c raw ≡ some v → contains c cs ≡ true)
      → is_flag c ≡ false
      → comparable_cells (lookup c raw) (lookup c row) ≡ true
      → lookup c raw ≡ lookup c row
  unchanged-agrees cs c m h n k =
      agreed (lookup c raw) (lookup c row) k
        (λ v w e o t. unchanged-lookup cs c v w t o m (h v e) n e)

pub lookup-decode_row :
    (env : Env) (table c : String) (row : Row)
    → lookup c (decode_row env table row)
      ≡ (elim (lookup c row) [ none ↦ none | some v ↦ some (decode_cell env table c v) ])
unfolding lookup decode_row
lookup-decode_row env table c [] = refl
lookup-decode_row env table c ((k, v) ∷ rest) = elim (Bool-cases (k == c)) [
  | inl same ↦ rw (same, (eq_iff k c).0 same) refl
  | inr other ↦ rw other (lookup-decode_row env table c rest)
]

module _ (env : Env) (table : String) (scope : Scope) (db : Database) (id : Cell) (raw row : Row)
    (guards : List SqlExpr) where
  by_id-guards :
      Conjoins env.engine
      → env.engine.matches db table (by_id env table id scope.where_ guards) row ≡ true
      → All (λ e. env.engine.matches db table e row ≡ true) guards
  unfolding picks
  by_id-guards law h =
      let (_, rest) =
        both_true (env.engine.matches db table (equals (pk_of env.acl.schema table) id) row) _
          (sym (by_id-picks env law db table id scope.where_ guards row) ∙ h) in
      all_match-All env.engine db table guards row
        (both_true (scope_admits env.engine db table scope.where_ row) _ rest).1

  decision_columns-has :
      (before rest : List BoundGrant) (g : BoundGrant) (p : RowPredicate) (c : String) (v : Cell)
      → scope.grants ≡ before ++ g ∷ rest
      → g.admit ≡ some p
      → contains c (columns_in_expr p.expr (columns_before before g (scope_input_columns scope)))
        ≡ true
      → lookup c raw ≡ some v
      → contains c (decision_columns scope raw) ≡ true
  unfolding decision_columns predicate_columns
  decision_columns-has before rest g p c v s a h e = elim (Bool-cases (has_fields_fn scope)) [
    | inl all ↦ rw all (contains-set_of c (keys raw) ∙ contains-keys c raw v e)
    | inr some' ↦ rw some' (
        subst (λ gs. contains c (grant_columns gs (scope_input_columns scope)) ≡ true) (sym s)
          (grant_columns-has before rest g (scope_input_columns scope) c (
            subst
              (λ o.
                contains c
                  (predicate_columns o (columns_before before g (scope_input_columns scope)))
                ≡ true)
              (sym a) h)))
  ]

  guards-hold :
      (hs : List SqlExpr)
      → Conjoins env.engine
      → held_admissions env scope.grants (decode_row env table raw) ≡ ok hs
      → preimage_guard env scope raw (decode_row env table raw) ≡ ok guards
      → env.engine.matches db table (by_id env table id scope.where_ guards) row ≡ true
      → All
          (λ e. env.engine.matches db table e row ≡ true)
          (unchanged raw (decision_columns scope raw) ++ hs)
  unfolding preimage_guard
  guards-hold hs law j h m =
      subst (All (λ e. env.engine.matches db table e row ≡ true)) (sym (ok-injective (rw j at h)))
        (by_id-guards law m)

  -- each column that an admission reads is in the row as it was
  admission-agrees :
      (before rest : List BoundGrant) (g : BoundGrant) (p : RowPredicate)
      → Compares env.engine
      → scope.grants ≡ before ++ g ∷ rest
      → g.admit ≡ some p
      → All
          (λ e. env.engine.matches db table e row ≡ true)
          (unchanged raw (decision_columns scope raw))
      → ((c : String) → contains c (columns_in_expr p.expr []) ≡ true → is_flag c ≡ false)
      → ((c : String)
          → contains c (columns_in_expr p.expr []) ≡ true
          → comparable_cells (lookup c raw) (lookup c row) ≡ true)
      → Agree (columns_in_expr p.expr []) (decode_row env table raw) (decode_row env table row)
  unfolding Agree contains
  admission-agrees before rest g p law s a m plain tells c h =
      lookup-decode_row env table c raw
      ∙ ap (λ o. elim o [ none ↦ none | some v ↦ some (decode_cell env table c v) ])
          (unchanged-agrees env.engine law db table raw row (decision_columns scope raw) c m
            (λ v e.
              decision_columns-has before rest g p c v s a
                (columns_mono p.expr [] (columns_before before g (scope_input_columns scope))
                  (λ d n. cc) c h)
                e)
            (plain c h) (tells c h))
      ∙ sym (lookup-decode_row env table c row)

  -- For a grant of the scope whose admission is a predicate without a flag, on an engine whose AND selects what
  -- each part selects, and whose `=` and IS NULL select the value that is bound and null, of values that
  -- `=` can tell apart; where no column of the admission has a flag's name, and each of them held and holds
  -- such values, two numbers, two texts or null, or is in neither row: each row that the UPDATE of `by_id`
  -- selects, with the clauses that `preimage_guard` gave for the pre-image, evaluates the admission to
  -- what the pre-image evaluated it to, errors included.
  pub preimage_guard-keeps_admission :
      (before rest : List BoundGrant) (g : BoundGrant) (p : RowPredicate)
      → Conjoins env.engine
      → Compares env.engine
      → scope.grants ≡ before ++ g ∷ rest
      → g.admit ≡ some p
      → p.flag ≡ none
      → ((c : String) → contains c (columns_in_expr p.expr []) ≡ true → is_flag c ≡ false)
      → ((c : String)
          → contains c (columns_in_expr p.expr []) ≡ true
          → comparable_cells (lookup c raw) (lookup c row) ≡ true)
      → preimage_guard env scope raw (decode_row env table raw) ≡ ok guards
      → env.engine.matches db table (by_id env table id scope.where_ guards) row ≡ true
      → predicate_holds env.acl.host (some p) (decode_row env table row)
        ≡ predicate_holds env.acl.host (some p) (decode_row env table raw)
  unfolding predicate_holds stored_flag preimage_guard
  preimage_guard-keeps_admission before rest g p conj law s a f plain tells h m =
      let (hs, j, _) =
        >>=-eq-ok (held_admissions env scope.grants (decode_row env table raw)) _ h in
      let same =
        columns_lem env.acl.host (decode_row env table raw) (decode_row env table row) p.expr [] (
          admission-agrees before rest g p law s a
            (All-left (λ e. env.engine.matches db table e row ≡ true)
              (unchanged raw (decision_columns scope raw)) hs (guards-hold hs conj j h m))
            plain tells) in
      ap (λ o. stored_flag env.acl.host o p.expr (decode_row env table row)) f
      ∙ sym same
      ∙ sym (ap (λ o. stored_flag env.acl.host o p.expr (decode_row env table raw)) f)

  -- For a grant of the scope whose admission is a predicate that the database evaluates into a flag, on an
  -- engine whose AND selects what each part selects, where the admission held of the pre-image: each row that
  -- the UPDATE of `by_id` selects, with the clauses that `preimage_guard` gave for the pre-image, is one
  -- that the admission's predicate selects when the UPDATE runs.
  pub preimage_guard-reasserts_flag :
      (before rest : List BoundGrant) (g : BoundGrant) (p : RowPredicate) (flag : String)
      → Conjoins env.engine
      → scope.grants ≡ before ++ g ∷ rest
      → g.admit ≡ some p
      → p.flag ≡ some flag
      → predicate_holds env.acl.host (some p) (decode_row env table raw) ≡ ok true
      → preimage_guard env scope raw (decode_row env table raw) ≡ ok guards
      → env.engine.matches db table (by_id env table id scope.where_ guards) row ≡ true
      → env.engine.matches db table p.expr row ≡ true
  unfolding preimage_guard
  preimage_guard-reasserts_flag before rest g p flag conj s a f held h m =
      let (hs, j, _) =
        >>=-eq-ok (held_admissions env scope.grants (decode_row env table raw)) _ h in
      held_admissions-has env before rest g (decode_row env table raw) hs
        (λ e. env.engine.matches db table e row ≡ true) p flag
        (subst (λ gs. held_admissions env gs (decode_row env table raw) ≡ ok hs) s j)
        (All-right (λ e. env.engine.matches db table e row ≡ true)
          (unchanged raw (decision_columns scope raw)) hs (guards-hold hs conj j h m))
        a f held
