-- ===== src/Acl/Merge/Checked.antt =====
-- Writes under a `check`: `anyGrantApplies` of runtime/acl.ts against the grants one by one.
use pramen.Base.{
  String, ◌≡◌, sym, ap, subst, ◌∙◌, inr, true, Option, List, [], ◌∷◌, length, any, All, eqb, ok,
  arith,
}
use pramen.Cell.{Row, Host}
use pramen.Expr.Meaning.{Linked}
use pramen.Acl.{Identity}
use pramen.Acl.Merge.{Grant, base_fields, bind_grants, grants_of, any_check, merge_grants}
use pramen.Acl.Fields.{
  any_grant_applies, some_applies, flag_columns, check_flag_predicates, admit_flags, check_flags,
}
use pramen.Acl.Merge.Rows.{admits, applies}
use pramen.Acl.Merge.Loop.{IsFlat, some_applies-decides}
use pramen.Acl.Merge.Bind.{Carries, IsCovered, bind_grants-IsReady, bind_grants-decides}
use pramen.Acl.Merge.Correct.{two_or_more, never_single, grants-merge_grants}

grants_of-checked :
    (base : Option (List String)) (gs : List Grant)
    → grants_of base true gs ≡ bind_grants base true (eqb (length gs) 1) 0 gs
unfolding grants_of
grants_of-checked base gs = ground arith

module _ (host : Host) (linked : Linked) (identity : Identity) (row stored : Row) where
  IsCovered-admitted :
      (g : Grant) (gs : List Grant)
      → any (λ (x : Grant). admits host linked x stored) (g ∷ gs) ≡ true
      → All (IsCovered host linked (eqb (length (g ∷ gs)) 1) stored) (g ∷ gs)
  unfolding any
  IsCovered-admitted g [] h = (inr (ground arith), tt)
  IsCovered-admitted g (g' ∷ gs) h =
      subst (λ b. All (IsCovered host linked b stored) (g ∷ g' ∷ gs))
        (sym (two_or_more (length gs))) (never_single host linked stored (g ∷ g' ∷ gs))

  -- For grants of which one has a check, with cell-level predicates that read one table, and for a
  -- stored row that some grant admits, it and the row written carrying the flags that SQL computed:
  -- a write passes exactly if some one grant both admits the stored row and has its check hold on the
  -- row written.
  pub any_grant_applies-merge_grants :
      (gs : List Grant)
      → All (λ (g : Grant). IsFlat host linked g.conditional) gs
      → All (Carries host linked stored) (flag_columns (merge_grants gs))
      → All (Carries host linked row) (check_flag_predicates (merge_grants gs))
      → any_check gs ≡ true
      → any (λ (g : Grant). admits host linked g stored) gs ≡ true
      → any_grant_applies host (merge_grants gs) row stored
        ≡ ok (any (applies host linked row stored) gs)
  unfolding any_grant_applies
  any_grant_applies-merge_grants [] flat a c checked some' = absurd (unfold any in cc some')
  any_grant_applies-merge_grants (g ∷ gs) flat a c checked some' =
      let single = eqb (length (g ∷ gs)) 1 in
      let base = base_fields (g ∷ gs) in
      let bs = bind_grants base true single 0 (g ∷ gs) in
      let same : (merge_grants (g ∷ gs)).grants ≡ bs =
        grants-merge_grants g gs
        ∙ ap (λ b. grants_of base b (g ∷ gs)) checked
        ∙ grants_of-checked base (g ∷ gs) in
      ap (λ x. some_applies host x row stored) same
      ∙ some_applies-decides host linked identity row stored bs (
          bind_grants-IsReady host linked identity row stored base true single (g ∷ gs) 0 flat
            (subst (λ x. All (Carries host linked stored) (admit_flags x)) same a)
            (subst (λ x. All (Carries host linked row) (check_flags x)) same c))
      ∙ ap ok (
          bind_grants-decides host linked identity row stored base single (g ∷ gs) 0
            (IsCovered-admitted g gs some'))
