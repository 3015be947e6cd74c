-- ===== src/Db/Update/Attempts.antt =====
-- The attempts of `update` in runtime/db.ts: what one writes, when one is lost, and what follows three that are.
use pramen.Base.{
  ℕ, String, ◌≡◌, refl, ap, subst, sym, ◌∙◌, Bool, true, false, Option, none, some, List, [], ◌∷◌,
  ok, err, conflict, All,
}
use pramen.Acl.Policies.{put}
use pramen.Db.Update.{wrote}
use pramen.Db.Selected.{
  Conjoins, picks, rewritten, rewrite_rows-rewritten, none-picked, by_id-picks,
}
use pramen.Cell.{Cell, Row}
use pramen.Expr.{SqlExpr}
use pramen.Acl.Merge.{Scope}
use pramen.Acl.Scoped.Hops.{WriteRules}
use pramen.Db.{Env, Store, rows_of}
use pramen.Db.Read.{matching}
use pramen.Db.Update.{
  no_row, lost, Preimage, first_row, set_rows, returned_row, decide, before_of, outcome, attempt,
  update_from, update_values,
}
use pramen.Db.Update.Decided.{happened, is_judged, IsRead, Reads, Decided, attempt-Decided}

lost-some :
    (env : Env) (table : String) (b : Bool) (old updated : Option Row)
    → outcome env table b old updated ≡ lost
    → (b ≡ true) × (updated ≡ none)
unfolding outcome
lost-some env table true old none h = (refl, refl)
lost-some env table false old none h = cc
lost-some env table b old (some row) h = cc

returned_row-none :
    (env : Env) (table : String) (patch : Row) (rows : List Row)
    → returned_row env table patch (first_row env table rows) ≡ none
    → rows ≡ []
unfolding first_row returned_row
returned_row-none env table patch [] h = refl
returned_row-none env table patch (r ∷ rs) h = cc

some_row :
    (env : Env) (table : String) (b : Bool) (old updated : Option Row) (row : Row)
    (before : Option Row)
    → wrote row before ≡ outcome env table b old updated
    → updated ≡ some row
unfolding outcome
some_row env table true old none row before h = cc
some_row env table false old none row before h = cc
some_row env table b old (some r) row before h =
    ap (λ x. elim x [ wrote q _ ↦ some q | no_row ↦ some r | lost ↦ some r ]) (sym h)

module _ (env : Env) (table : String) (id : Cell) (scope : Scope) (rules : WriteRules)
    (patch : Row) where
  -- Where an attempt of `update` writes a row, on an engine whose AND selects what each part selects: the
  -- decision passed, and gave clauses. Where it is made on the row, it was made on the pre-image of a
  -- stored row that has the id and that the predicate of the update scope selects, if it has one. Then
  -- the others wrote, and of what they left exactly the rows of the table are rewritten that have the id, that
  -- the scope's predicate selects, and that each clause selects; no other table changes.
  pub attempt-Decides :
      (n : ℕ) (s s' : Store) (row : Row) (before : Option Row)
      → Conjoins env.engine
      → attempt env table id scope rules patch n s ≡ (ok (wrote row before), s')
      → (pre : Option Preimage) × (guards : List SqlExpr) × Reads env table id scope rules patch
          (is_judged scope)
          s.tables
          pre
        × (decide env table s.tables scope rules (is_judged scope) patch pre ≡ ok guards)
        × (s'.tables
            ≡ put table
                (rewritten env table
                  (picks env (env.others n s.tables) table id scope.where_ guards)
                  patch
                  (rows_of (env.others n s.tables) table))
                (env.others n s.tables))
  unfolding Decided set_rows happened
  attempt-Decides n s s' row before law h =
      let (pre, reads, decided) =
        attempt-Decided env table id scope rules patch n s s' (wrote row before) law refl h in
      let (guards, e, _, set) = decided in
      (
        pre,
        guards,
        reads,
        e,
        set
            ∙ ap (λ rows. put table rows (env.others n s.tables))
                (rewrite_rows-rewritten env table _ _ patch (rows_of (env.others n s.tables) table)
                  (by_id-picks env law (env.others n s.tables) table id scope.where_ guards)),
      )

module _ (env : Env) (table : String) (id : Cell) (scope : Scope) (rules : WriteRules)
    (c : String × Cell) (cs : Row) where
  -- An attempt of `update` is lost, on an engine whose AND selects what each part selects, only where the
  -- decision is made on the row: it passed, and gave clauses, on the pre-image of a stored row that has the id
  -- and that the predicate of the update scope selects, if it has one; and each row of the table that the
  -- others then left has another id, or the scope's predicate or a clause does not select it.
  pub attempt-lost :
      (n : ℕ) (s s' : Store)
      → Conjoins env.engine
      → attempt env table id scope rules (c ∷ cs) n s ≡ (ok lost, s')
      → (pre : Preimage) × (guards : List SqlExpr) × (is_judged scope ≡ true)
        × IsRead env table s.tables id scope pre
        × (decide env table s.tables scope rules true (c ∷ cs) (some pre) ≡ ok guards)
        × All
            (λ row. picks env (env.others n s.tables) table id scope.where_ guards row ≡ false)
            (rows_of (env.others n s.tables) table)
  unfolding Decided Reads happened matching
  attempt-lost n s s' law h =
      let (pre, reads, decided) =
        attempt-Decided env table id scope rules (c ∷ cs) n s s' lost law refl h in
      let (guards, e, ends, _) = decided in
      let (judged, gone) =
        lost-some env table (is_judged scope) (before_of env table pre) _ (sym ends) in
      let (p, same, is_read) =
        subst (λ b. Reads env table id scope rules (c ∷ cs) b s.tables pre) judged reads in
      (
        p,
        guards,
        judged,
        is_read,
        subst (λ o. decide env table s.tables scope rules true (c ∷ cs) o ≡ ok guards) same
            (subst (λ b. decide env table s.tables scope rules b (c ∷ cs) pre ≡ ok guards) judged
              e),
        none-picked _ _ (rows_of (env.others n s.tables) table)
            (by_id-picks env law (env.others n s.tables) table id scope.where_ guards)
            (returned_row-none env table (c ∷ cs) _ gone),
      )

  -- Where each of the three attempts of an `update` that has columns to write loses its race, the update
  -- ends in a conflict, with the state that the last attempt left.
  pub update_values-conflict :
      (s s1 s2 s3 : Store)
      → attempt env table id scope rules (c ∷ cs) 1 s ≡ (ok lost, s1)
      → attempt env table id scope rules (c ∷ cs) 2 s1 ≡ (ok lost, s2)
      → attempt env table id scope rules (c ∷ cs) 3 s2 ≡ (ok lost, s3)
      → update_values env table id scope rules (c ∷ cs) s ≡ (err conflict, s3)
  unfolding update_values update_from
  update_values-conflict s s1 s2 s3 h1 h2 h3 = rw (h1, h2, h3) refl
