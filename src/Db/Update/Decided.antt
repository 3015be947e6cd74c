-- ===== src/Db/Update/Decided.antt =====
-- One attempt of `update` in runtime/db.ts that comes to its statement: what its decision reads, and what it leaves.
use mathlib.Core.List.{Memᴰ}
use pramen.Base.{
  ℕ, String, ◌≡◌, refl, ap, subst, sym, ◌∙◌, Bool, true, false, ◌||◌, ◌&&◌, ltb, any, Option, none,
  some, List, [], ◌∷◌, ◌++◌, length, ok, err, failure, inl, inr, Bool-cases, Option-cases,
  ok-injective, or-eq-false, if◌then◌else◌, arith,
}
use pramen.Acl.Merge.{BoundGrant, present}
use pramen.Acl.Fields.{flag_columns, has_check}
use pramen.Db.{flag_row, decode_row}
use pramen.Db.Update.{Attempt, flag_columns_if}
use pramen.Db.Selected.{Conjoins, picks, first_row-picked, by_id-picks}
use pramen.Db.Steps.{after-ok}
use pramen.Cell.{Cell, Row}
use pramen.Expr.{SqlExpr}
use pramen.Acl.Merge.{Scope}
use pramen.Acl.Scoped.Hops.{WriteRules}
use pramen.Db.{Database, Env, Store, rows_of}
use pramen.Db.Read.{matching}
use pramen.Db.Update.{
  no_row, Preimage, by_id, first_row, fetch_one, rewrite_rows, set_rows, returned_row, update_rows,
  decide, needs_row, needs_before, before_of, interleave, outcome, write_decided, attempt,
}
use pramen.Db.Steps.{lift-ok}

unfoldable pub happened : Attempt → Bool
happened no_row = false
happened _ = true

-- Is the decision of an `update` made on the row? It is where a grant of the scope has a check, and where
-- the scope has grants and does not show every column.
unfoldable pub is_judged : Scope → Bool
unfolding any present
is_judged scope =
    any (λ g. present g.check) scope.grants || (present scope.fields && ltb 0 (length scope.grants))

module _ (env : Env) (table : String) where
  needs_row-is_judged : (scope : Scope) → needs_row env table scope ≡ is_judged scope
  unfolding needs_row is_judged has_check
  needs_row-is_judged scope =
      ap (λ b. any (λ g. present g.check) scope.grants || b) (needed scope.fields scope.grants)
    where
      needed :
          (fs : Option (List String)) (gs : List BoundGrant)
          → (elim fs [ none ↦ false | some f ↦ elim gs [ [] ↦ false | (g ∷ rest) ↦ true ] ])
            ≡ (present fs && ltb 0 (length gs))
      needed none gs = refl
      needed (some fs) [] = refl
      needed (some fs) (g ∷ gs) = ground arith

  -- a stored row as the decision reads it, with the flags of the scope if the decision is made on the row
  unfoldable pub preimage_of : Database → Scope → Bool → Row → Preimage
  preimage_of db scope judged row =
      let raw = row ++ flag_row env db table (if judged then flag_columns scope else []) row in
      record { raw = raw; stored = decode_row env table raw }

  -- The pre-image is read of a stored row with the id that the predicate of the scope selects.
  unfoldable pub IsRead : Database → Cell → Scope → Preimage → Type 0
  unfolding preimage_of
  IsRead db id scope pre =
      (row : Row) × Memᴰ row (rows_of db table)
      × (picks env db table id scope.where_ [] row ≡ true)
      × (pre ≡ preimage_of db scope (is_judged scope) row)

  flagged_row :
      (db : Database) (scope : Scope) (b : Bool) (o : Option Row) (pre : Preimage)
      → elim o as (λ _. Option Preimage) [
        | none ↦ none
        | some row ↦ some (record {
          raw = row ++ flag_row env db table (flag_columns_if env table b scope) row;
          stored =
              decode_row env table
                (row ++ flag_row env db table (flag_columns_if env table b scope) row);
        })
      ]
        ≡ some pre
      → (row : Row) × (o ≡ some row) × (pre ≡ preimage_of db scope b row)
  unfolding preimage_of flag_columns_if
  flagged_row db scope b none pre h = cc
  flagged_row db scope true (some row) pre h =
      (row, refl, ap (λ o. elim o [ none ↦ pre | some p ↦ p ]) (sym h))
  flagged_row db scope false (some row) pre h =
      (row, refl, ap (λ o. elim o [ none ↦ pre | some p ↦ p ]) (sym h))

  fetch_one-IsRead :
      (db : Database) (id : Cell) (scope : Scope) (pre : Preimage)
      → Conjoins env.engine
      → fetch_one env table db id scope (needs_row env table scope) ≡ some pre
      → IsRead db id scope pre
  unfolding fetch_one matching IsRead
  fetch_one-IsRead db id scope pre law h =
      let (row, first, same) = flagged_row db scope (needs_row env table scope) _ pre h in
      let (m, k) =
        first_row-picked env table
          (env.engine.matches db table (by_id env table id scope.where_ [])) (rows_of db table) row
          first in
      (
        row,
        m,
        sym (by_id-picks env law db table id scope.where_ [] row) ∙ k,
        same ∙ ap (λ b. preimage_of db scope b row) (needs_row-is_judged scope),
      )

  update_rows-ok :
      (e : SqlExpr) (patch : Row) (s s' : Store) (updated : Option Row)
      → update_rows env table e patch s ≡ (ok updated, s')
      → (updated
          ≡ returned_row env table patch (first_row env table (matching env s.tables table e)))
        × (s'.tables
            ≡ set_rows env table s.tables (
                rewrite_rows env table
                  (env.engine.matches s.tables table e)
                  patch
                  (rows_of s.tables table)))
  unfolding update_rows
  update_rows-ok e patch s s' updated h =
      let rows =
        rewrite_rows env table (env.engine.matches s.tables table e) patch
          (rows_of s.tables table) in
      elim (Bool-cases (env.engine.accepts s.tables table rows)) [
        | inl fits ↦
            let went = rw fits at h in
            (sym (ok-injective (ap (λ r. r.0) went)), ap (λ r. r.1.tables) (sym went))
        | inr refused ↦
            let failed = rw refused at h in
            let ends : err failure ≡ ok updated = ap (λ r. r.0) failed in cc
      ]

module _ (env : Env) (table : String) (id : Cell) (scope : Scope) (rules : WriteRules)
    (patch : Row) where
  -- what an attempt ends in that comes to its UPDATE
  unfoldable pub Decided : Option Preimage → ℕ → Database → Database → Attempt → Type 0
  Decided pre n db db' r =
      (guards : List SqlExpr) × (decide env table db scope rules (is_judged scope) patch pre
        ≡ ok guards)
      × (r
          ≡ outcome env table (is_judged scope) (before_of env table pre) (
              returned_row env table patch (
                first_row env table
                  (matching env (env.others n db) table (by_id env table id scope.where_ guards)))))
      × (db'
          ≡ set_rows env table (env.others n db) (
              rewrite_rows env table
                (env.engine.matches (env.others n db) table
                  (by_id env table id scope.where_ guards))
                patch (rows_of (env.others n db) table)))

  write_decided-ok :
      (pre : Option Preimage) (n : ℕ) (s s' : Store) (r : Attempt)
      → write_decided env table id scope rules (needs_row env table scope) patch pre n s
        ≡ (ok r, s')
      → Decided pre n s.tables s'.tables r
  unfolding write_decided interleave Decided
  write_decided-ok pre n s s' r h =
      let h' =
        subst (λ b. write_decided env table id scope rules b patch pre n s ≡ (ok r, s'))
          (needs_row-is_judged env table scope) h in
      let (guards, e, k) =
        lift-ok (decide env table s.tables scope rules (is_judged scope) patch pre) s _ r s' h' in
      let (updated, t, f, g) =
        after-ok
          (update_rows env table (by_id env table id scope.where_ guards) patch
            (interleave env table n s))
          _ r s' k in
      let (same, set) = update_rows-ok env table _ patch (interleave env table n s) t updated f in
      (
        guards,
        e,
        sym (ok-injective (ap (λ x. x.0) g))
            ∙ ap (outcome env table (is_judged scope) (before_of env table pre)) same,
        ap (λ x. x.1.tables) (sym g) ∙ set,
      )

  -- the pre-image that an attempt hands to its decision
  unfoldable pub Reads : Bool → Database → Option Preimage → Type 0
  Reads true db pre = (p : Preimage) × (pre ≡ some p) × IsRead env table db id scope p
  Reads false db pre = Unit

  read_preimage :
      (b : Bool) (db : Database) (pre : Preimage)
      → Conjoins env.engine
      → fetch_one env table db id scope (needs_row env table scope) ≡ some pre
      → Reads b db (some pre)
  unfolding Reads
  read_preimage true db pre law f = (pre, refl, fetch_one-IsRead env table db id scope pre law f)
  read_preimage false db pre law f = tt

  pub attempt-Decided :
      (n : ℕ) (s s' : Store) (r : Attempt)
      → Conjoins env.engine
      → happened r ≡ true
      → attempt env table id scope rules patch n s ≡ (ok r, s')
      → (pre : Option Preimage) × Reads (is_judged scope) s.tables pre
        × Decided pre n s.tables s'.tables r
  unfolding attempt Reads happened
  attempt-Decided n s s' r law some_row h =
      elim (Bool-cases (needs_row env table scope || needs_before env table)) [
        | inr e ↦
            let unjudged : is_judged scope ≡ false =
              sym (needs_row-is_judged env table scope)
              ∙ (or-eq-false (needs_row env table scope) (needs_before env table) e).0 in
            (
              none,
              subst (λ b. Reads b s.tables none) (sym unjudged) tt,
              write_decided-ok none n s s' r (rw e at h),
            )
        | inl e ↦
            elim (Option-cases
              (fetch_one env table s.tables id scope (needs_row env table scope))) [
                | inl f ↦
                    let ends : (ok no_row, s) ≡ (ok r, s') = rw (e, f) at h in
                    let gone : false ≡ true =
                      ap happened (ok-injective (ap (λ x. x.0) ends)) ∙ some_row in
                    cc
                | inr (pre, f) ↦ (
                  some pre,
                  read_preimage (is_judged scope) s.tables pre law f,
                  write_decided-ok (some pre) n s s' r (rw (e, f) at h),
                )
              ]
      ]
