-- ===== src/Acl/Merge/Correct.antt =====
-- `mergeGrants` against its specification: the rows and the fields that the grants allow one by
-- one are the rows and the fields that the merged scope allows.
use pramen.Base.{
  ℕ, suc, String, ◌≡◌, refl, sym, ap, subst, ◌∙◌, ◌≤◌, inl, inr, Bool, true, false, ◌&&◌, ◌||◌,
  Option, none, some, List, [], ◌∷◌, length, any, All, contains, set_of, contains-set_of, ltb, eqb,
  ok, arith, Bool-cases, Option-cases,
}
use pramen.Cell.{Row, Host}
use pramen.Expr.{SqlExpr, or, parts_of}
use pramen.Expr.Meaning.{Linked, holds}
use pramen.Acl.{Identity}
use pramen.Acl.Merge.{
  Grant, Scope, admits_all, is_always, restricted, single_or_group, merged_where, base_fields,
  bind_grants, grants_of, any_check, merge_grants,
}
use pramen.Acl.Fields.{
  effective_fields, flag_columns, check_flag_predicates, admit_flags, check_flags, add_grants,
}
use pramen.Acl.Merge.Rows.{shows, satisfies, admits, applies}
use pramen.Acl.Merge.Loop.{IsFlat, bound_gives, add_grants-gives}
use pramen.Acl.Merge.Bind.{
  Carries, IsCovered, admits_all-satisfies, bind_grants-IsReady, bind_grants-gives,
}
use pramen.Acl.Merge.BaseFields.{applies_gives, base-gives}

pub two_or_more : (n : ℕ) → eqb (suc (suc n)) 1 ≡ false
two_or_more n = ground arith

fields-merge_grants :
    (g : Grant) (gs : List Grant) → (merge_grants (g ∷ gs)).fields ≡ base_fields (g ∷ gs)
unfolding merge_grants
fields-merge_grants g gs = refl

pub grants-merge_grants :
    (g : Grant) (gs : List Grant)
    → (merge_grants (g ∷ gs)).grants
      ≡ grants_of (base_fields (g ∷ gs)) (any_check (g ∷ gs)) (g ∷ gs)
unfolding merge_grants
grants-merge_grants g gs = refl

grants_of-some :
    (base : List String) (checked : Bool) (gs : List Grant)
    → grants_of (some base) checked gs ≡ bind_grants (some base) checked (eqb (length gs) 1) 0 gs
unfolding grants_of
grants_of-some base checked gs = refl

absorb : (b a : Bool) → (b ≡ true → a ≡ true) → (b || a) ≡ a
absorb true a h = sym (h refl)
absorb false a h = refl

module _ (host : Host) (linked : Linked) where
  length-restricted : (gs : List Grant) → length (restricted gs) ≤ length gs
  unfolding restricted
  length-restricted [] = omega arith
  length-restricted (g ∷ gs) = ground (arith, length-restricted gs)

  restricted-admits :
      (gs : List Grant) (row : Row)
      → any (λ (g : Grant). admits host linked g row) gs ≡ (
          ltb (length (restricted gs)) (length gs)
          || any (λ (e : SqlExpr). holds host linked e row) (restricted gs))
  unfolding restricted any admits satisfies
  restricted-admits [] row = refl
  restricted-admits (g ∷ gs) row = elim (Option-cases g.where_) [
    | inl all' ↦ rw all' (ground (arith, length-restricted gs))
    | inr (e, some') ↦ elim (Bool-cases (is_always e)) [
      | inl wide ↦
          rw
            (some', wide, admits_all-satisfies host linked (some e) row (unfold admits_all in wide))
            (ground (arith, length-restricted gs))
      | inr narrow ↦ rw (some', narrow) (ground (arith, restricted-admits gs row))
    ]
  ]

  group-holds :
      (es : List SqlExpr) (row : Row)
      → holds host linked (or es) row ≡ any (λ (e : SqlExpr). holds host linked e row) es
  unfolding parts_of holds any
  group-holds [] row = refl
  group-holds (e ∷ es) row = ap (λ b. holds host linked e row || b) (group-holds es row)

  single_or_group-holds :
      (es : List SqlExpr) (row : Row)
      → holds host linked (single_or_group es) row
        ≡ any (λ (e : SqlExpr). holds host linked e row) es
  unfolding single_or_group any
  single_or_group-holds [] row = group-holds [] row
  single_or_group-holds (e ∷ []) row = ground arith
  single_or_group-holds (e ∷ e' ∷ es) row = group-holds (e ∷ e' ∷ es) row

  -- The predicate of a merged scope holds on exactly the rows that some grant admits.
  pub merge_grants-admits :
      (gs : List Grant) (row : Row)
      → ((merge_grants gs).allowed && satisfies host linked (merge_grants gs).where_ row)
        ≡ any (λ (g : Grant). admits host linked g row) gs
  unfolding merge_grants merged_where any satisfies
  merge_grants-admits [] row = refl
  merge_grants-admits (g ∷ gs) row =
      elim (Bool-cases (ltb (length (restricted (g ∷ gs))) (length (g ∷ gs)))) [
        | inl wide ↦ rw wide (sym (restricted-admits (g ∷ gs) row ∙ rw wide))
        | inr narrow ↦ rw narrow (
            single_or_group-holds (restricted (g ∷ gs)) row
            ∙ sym (restricted-admits (g ∷ gs) row ∙ rw narrow))
      ]

  pub never_single : (stored : Row) (gs : List Grant) → All (IsCovered host linked false stored) gs
  never_single stored [] = tt
  never_single stored (g ∷ gs) = (inl refl, never_single stored gs)

  IsCovered-singly :
      (g : Grant) (gs : List Grant) (row stored : Row)
      → any (applies host linked row stored) (g ∷ gs) ≡ true
      → All (IsCovered host linked (eqb (length (g ∷ gs)) 1) stored) (g ∷ gs)
  unfolding any applies
  IsCovered-singly g [] row stored h = (inr (ground arith), tt)
  IsCovered-singly g (g' ∷ gs) row stored h =
      subst (λ b. All (IsCovered host linked b stored) (g ∷ g' ∷ gs))
        (sym (two_or_more (length gs))) (never_single stored (g ∷ g' ∷ gs))

  module _ (identity : Identity) (row stored : Row) where
    -- the premises of a merge: cell predicates read one table, and the rows carry their flags
    pub record IsEvaluated (gs : List Grant) : Type 0 where
      pub flat : All (λ (g : Grant). IsFlat host linked g.conditional) gs
      pub admit_flags : All (Carries host linked stored) (flag_columns (merge_grants gs))
      pub check_flags : All (Carries host linked row) (check_flag_predicates (merge_grants gs))
      pub some_applies : any (applies host linked row stored) gs ≡ true

    effective_fields-none :
        (scope : Scope)
        → scope.fields ≡ none
        → effective_fields host identity row stored scope ≡ ok none
    unfolding effective_fields
    effective_fields-none scope h = rw h

    effective_fields-some :
        (scope : Scope) (base : List String)
        → scope.fields ≡ some base
        → effective_fields host identity row stored scope
          ≡ add_grants host identity row stored scope.grants (set_of base)
    unfolding effective_fields
    effective_fields-some scope base h = rw h

    shown_fully :
        (gs : List Grant) (f : String)
        → base_fields gs ≡ none
        → any (applies host linked row stored) gs ≡ true
        → shows none f ≡ any (applies_gives host linked identity row stored f) gs
    unfolding shows
    shown_fully gs f all' h = sym (base-gives host linked identity row stored gs f h (rw all'))

    bound_base :
        (g : Grant) (gs : List Grant) (base : List String) (f : String)
        → base_fields (g ∷ gs) ≡ some base
        → any (applies host linked row stored) (g ∷ gs) ≡ true
        → (contains f (set_of base)
            || any
                (bound_gives host linked identity row stored f)
                (bind_grants (some base) (any_check (g ∷ gs)) (eqb (length (g ∷ gs)) 1) 0 (g ∷ gs)))
          ≡ any (applies_gives host linked identity row stored f) (g ∷ gs)
    unfolding shows
    bound_base g gs base f some' h = rw (contains-set_of f base) (
        bind_grants-gives host linked identity row stored base (any_check (g ∷ gs)) _ (g ∷ gs) 0 f
          (IsCovered-singly g gs row stored h)
        ∙ absorb (contains f base) _
            (λ k. base-gives host linked identity row stored (g ∷ gs) f h (rw some' k)))

    -- With cell-level predicates that read one table, and a row that carries the flags that SQL
    -- computed for it and to which some grant applies: `effectiveFields` of the merged scope answers
    -- without an error, and shows exactly the fields that some single grant that applies to the row
    -- gives.
    pub effective_fields-merge_grants :
        (gs : List Grant)
        → IsEvaluated gs
        → (o : Option (List String)) × (effective_fields host identity row stored (merge_grants gs)
            ≡ ok o)
          × ((f : String) → shows o f ≡ any (applies_gives host linked identity row stored f) gs)
    effective_fields-merge_grants [] e = absurd (unfold any in cc (e.some_applies))
    effective_fields-merge_grants (g ∷ gs) e = elim (Option-cases (base_fields (g ∷ gs))) [
      | inl all' ↦ (
        none,
        effective_fields-none (merge_grants (g ∷ gs)) (fields-merge_grants g gs ∙ all'),
        λ f. shown_fully (g ∷ gs) f all' e.some_applies,
      )
      | inr (base, some') ↦
          let checked = any_check (g ∷ gs) in
          let single = eqb (length (g ∷ gs)) 1 in
          let bs = bind_grants (some base) checked single 0 (g ∷ gs) in
          let same : (merge_grants (g ∷ gs)).grants ≡ bs =
            grants-merge_grants g gs
            ∙ ap (λ b. grants_of b checked (g ∷ gs)) some'
            ∙ grants_of-some base checked (g ∷ gs) in
          let (o, runs, has) = add_grants-gives host linked identity row stored bs (set_of base) (
            bind_grants-IsReady host linked identity row stored (some base) checked single (g ∷ gs)
              0 e.flat
              (subst (λ x. All (Carries host linked stored) (admit_flags x)) same e.admit_flags)
              (subst (λ x. All (Carries host linked row) (check_flags x)) same e.check_flags)) in
          (
            o,
            effective_fields-some (merge_grants (g ∷ gs)) base (fields-merge_grants g gs ∙ some')
                ∙ ap (λ x. add_grants host identity row stored x (set_of base)) same
                ∙ runs,
            λ f. has f ∙ bound_base g gs base f some' e.some_applies,
          )
    ]
