-- ===== src/Db/Queries/Columns.antt =====
-- Which columns `find` and `page` of runtime/db.ts show.
use mathlib.Core.List.{Memᴰ}
use pramen.Db.Queries.Rows.{All-members}
use pramen.Base.{
  All, ap, ◌∙◌, ◌==◌, Bool-cases, inl, inr, String, ◌≡◌, refl, sym, subst, Bool, true, false, not,
  Option, none, some, List, [], ◌∷◌, keys, contains, contains-keep, lookup, Result, ok, err,
  ok-injective, arith, eq_iff, ◌&&◌,
}
use pramen.Cell.{Row, Cell}
use pramen.Expr.{SqlExpr}
use pramen.Acl.Merge.{Scope}
use pramen.Acl.Fields.{flag_columns, effective_fields, project_row, pick}
use pramen.Db.{Env, strip_hidden, strip_flags, keep_cols, hidden_cols}
use pramen.Db.Read.{finish_row, is_hidden, outside, shown_fields, without_flags}

keep_cols-keys :
    (p : String → Bool) (c : String) (row : Row)
    → contains c (keys (keep_cols p row)) ≡ true
    → (contains c (keys row) && p c) ≡ true
unfolding keep_cols keys contains
keep_cols-keys p c [] h = cc
keep_cols-keys p c ((d, v) ∷ rest) h = ground (arith, keep_cols-keys p c rest, eq_iff d c)

picked-keys :
    (o : Option Cell) (f c : String) (rest : Row) (fs : List String)
    → contains c (keys (elim o as (λ _. Row) [ none ↦ rest | some v ↦ (f, v) ∷ rest ])) ≡ true
    → (contains c (keys rest) ≡ true → contains c fs ≡ true)
    → contains c (f ∷ fs) ≡ true
unfolding keys contains
picked-keys none f c rest fs h k = ground (arith, k)
picked-keys (some v) f c rest fs h k = ground (arith, k, eq_iff f c)

pick-keys :
    (row : Row) (fs : List String) (c : String)
    → contains c (keys (pick row fs)) ≡ true
    → contains c fs ≡ true
unfolding pick keys
pick-keys row [] c h = h
pick-keys row (f ∷ fs) c h = picked-keys (lookup f row) f c (pick row fs) fs h (pick-keys row fs c)

project_row-keys :
    (row : Row) (fs : Option (List String)) (c : String)
    → contains c (keys (project_row row fs)) ≡ true
    → outside fs c ≡ false
unfolding project_row outside
project_row-keys row none c h = refl
project_row-keys row (some fs) c h = rw (pick-keys row fs c h) refl

shown-outside :
    (env : Env) (eff select : Option (List String)) (c : String)
    → outside (shown_fields env eff select) c ≡ false
    → (outside eff c ≡ false) × (outside select c ≡ false)
unfolding shown_fields outside
shown-outside env none none c h = (refl, refl)
shown-outside env none (some sel) c h = (refl, h)
shown-outside env (some fs) none c h = (h, refl)
shown-outside env (some fs) (some sel) c h = (
  ground (arith, contains-keep (λ f. contains f sel) c fs),
  ground (arith, contains-keep (λ f. contains f sel) c fs),
)

without_flags-keys :
    (env : Env) (flags : List (String × SqlExpr)) (row : Row) (c : String)
    → contains c (keys (without_flags env flags row)) ≡ true
    → contains c (keys row) ≡ true
unfolding without_flags strip_flags
without_flags-keys env [] row c h = h
without_flags-keys env (f ∷ fs) row c h = ground (arith, keep_cols-keys _ c row h)

-- Each column of the row is one that the schema does not hide, that the scope's fields for `read` have, and
-- that is among the selected ones, where the read selects columns.
unfoldable pub Discreet : Env → String → Scope → Option (List String) → Row → Row → Type 0
Discreet env from scope select r row =
    (eff : Option (List String)) × (effective_fields env.acl.host env.acl.identity r r scope
      ≡ ok eff)
    × ((c : String)
        → contains c (keys row) ≡ true
        → (is_hidden env from c ≡ false) × (outside eff c ≡ false) × (outside select c ≡ false))

or_this : {v : Cell} (w : Cell) → some w ≡ some v → w ≡ v
or_this w e = ap (λ o. elim o [ none ↦ w | some x ↦ x ]) e

module _ (P : String × Cell → Type 0) where
  All-keep_cols : (p : String → Bool) (row : Row) → All P row → All P (keep_cols p row)
  unfolding keep_cols
  All-keep_cols p [] h = tt
  All-keep_cols p ((c, v) ∷ rest) (h, hs) = elim (Bool-cases (p c)) [
    | inl kept ↦ rw kept (h, All-keep_cols p rest hs)
    | inr dropped ↦ rw dropped (All-keep_cols p rest hs)
  ]

  All-lookup : (c : String) (v : Cell) (row : Row) → All P row → lookup c row ≡ some v → P (c, v)
  unfolding lookup
  All-lookup c v [] h e = cc
  All-lookup c v ((k, w) ∷ rest) (h, hs) e = elim (Bool-cases (k == c)) [
    | inl same ↦
        subst P
          (ap (λ d. (d, w)) ((eq_iff k c).0 same) ∙ ap (λ x. (c, x)) (or_this w (rw same at e))) h
    | inr other ↦ All-lookup c v rest hs (rw other at e)
  ]

  All-picked :
      (o : Option Cell) (f : String) (rest : Row)
      → ((v : Cell) → o ≡ some v → P (f, v))
      → All P rest
      → All P (elim o as (λ _. Row) [ none ↦ rest | some v ↦ (f, v) ∷ rest ])
  All-picked none f rest h hs = hs
  All-picked (some v) f rest h hs = (h v refl, hs)

  All-pick : (row : Row) (fs : List String) → All P row → All P (pick row fs)
  unfolding pick
  All-pick row [] h = tt
  All-pick row (f ∷ fs) h =
      All-picked (lookup f row) f (pick row fs) (λ v e. All-lookup f v row h e) (All-pick row fs h)

  All-project_row : (row : Row) (fs : Option (List String)) → All P row → All P (project_row row fs)
  unfolding project_row
  All-project_row row none h = h
  All-project_row row (some fs) h = All-pick row fs h

  All-without_flags :
      (env : Env) (flags : List (String × SqlExpr)) (row : Row)
      → All P row
      → All P (without_flags env flags row)
  unfolding without_flags strip_flags
  All-without_flags env [] row h = h
  All-without_flags env (f ∷ fs) row h = All-keep_cols _ row h

module _ (env : Env) (from : String) (scope : Scope) (select : Option (List String)) where
  finished :
      (m : Result (Option (List String))) (k : Option (List String) → Row) (row : Row)
      → elim m as (λ _. Result Row) [ err e ↦ err e | ok eff ↦ ok (k eff) ] ≡ ok row
      → (eff : Option (List String)) × (m ≡ ok eff) × (k eff ≡ row)
  finished (ok eff) k row h = (eff, refl, ok-injective h)
  finished (err e) k row h = cc

  pub finish_row-Discreet :
      (r row : Row)
      → finish_row env from scope select r ≡ ok row
      → Discreet env from scope select r row
  unfolding finish_row strip_hidden is_hidden Discreet
  finish_row-Discreet r row h =
      let (eff, m, k) =
        finished (effective_fields env.acl.host env.acl.identity r r scope)
          (λ eff.
            strip_hidden env.acl.schema from (
              without_flags env (flag_columns scope) (project_row r (shown_fields env eff select))))
          row h in
      (
        eff,
        m,
        λ c n.
            let both =
              keep_cols-keys (λ c. not (contains c (hidden_cols env.acl.schema from))) c
                (without_flags env (flag_columns scope)
                  (project_row r (shown_fields env eff select)))
                (subst (λ x. contains c (keys x) ≡ true) (sym k) n) in
            let shown = shown-outside env eff select c (
              project_row-keys r (shown_fields env eff select) c
                (without_flags-keys env (flag_columns scope) _ c (ground (arith, both)))) in
            (ground (arith, both), shown.0, shown.1),
      )

  -- a row that is finished holds cells of the row that was read only
  pub finish_row-cells :
      (r row : Row) → finish_row env from scope select r ≡ ok row → All (λ x. Memᴰ x r) row
  unfolding finish_row strip_hidden
  finish_row-cells r row h =
      let (eff, _, k) =
        finished (effective_fields env.acl.host env.acl.identity r r scope)
          (λ eff.
            strip_hidden env.acl.schema from (
              without_flags env (flag_columns scope) (project_row r (shown_fields env eff select))))
          row h in
      let P : String × Cell → Type 0 = λ x. Memᴰ x r in
      subst (All P) k (
        All-keep_cols P _ _ (
          All-without_flags P env (flag_columns scope) _
            (All-project_row P r (shown_fields env eff select) (All-members r))))
