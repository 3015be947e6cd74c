-- ===== src/Acl/Possible.antt =====
-- `possibleFields` bounds what a row shows.
use pramen.Base.{
  String, ◌≡◌, refl, sym, subst, Bool, true, false, Option, some, List, [], ◌∷◌, add_all, set_of,
  contains, contains-add_all, ok, >>=-eq-ok, ok-injective, if◌then◌else◌, arith, ◌⊎◌, Option-cases,
  inl, inr,
}
use pramen.Cell.{Row, Host}
use pramen.Acl.{Identity, FieldsFn}
use pramen.Acl.Merge.{ConditionalGrant, BoundGrant, Scope}
use pramen.Acl.Merge.Rows.{shows}
use pramen.Expr.Eval.{eval_expr}
use pramen.Acl.Fields.{
  add_conditional, add_resolved, add_grant, add_grants, effective_fields, grant_applies, add_listed,
  possible_of, possible_fields, is_empty,
}

-- Every member of the first is a member of the second.
unfoldable pub Within : List String → List String → Type 0
Within xs ys = (f : String) → contains f xs ≡ true → contains f ys ≡ true

Within-add_all : (fs xs ys : List String) → Within xs ys → Within (add_all fs xs) (add_all fs ys)
unfolding Within
Within-add_all fs xs ys w f h =
    ground (arith, w f, contains-add_all f fs xs, contains-add_all f fs ys)

Within-more : (fs xs ys : List String) → Within xs ys → Within xs (add_all fs ys)
unfolding Within
Within-more fs xs ys w f h = ground (arith, w f, contains-add_all f fs ys)

Within-if :
    (b : Bool) (fs xs ys : List String)
    → Within xs ys
    → Within (if b then add_all fs xs else xs) (add_all fs ys)
Within-if true fs xs ys w = Within-add_all fs xs ys w
Within-if false fs xs ys w = Within-more fs xs ys w

Within-listed :
    (cs : List ConditionalGrant) (xs ys : List String) → Within xs ys → Within xs (add_listed cs ys)
unfolding add_listed
Within-listed [] xs ys w = w
Within-listed (c ∷ cs) xs ys w =
    Within-listed cs xs (add_all c.fields ys) (Within-more c.fields xs ys w)

some-injective : {a b : List String} → some a ≡ some b → a ≡ b
some-injective h = cc

empty-or-not : (fns : List FieldsFn) → (fns ≡ []) ⊎ (is_empty fns ≡ false)
unfolding is_empty
empty-or-not [] = inl refl
empty-or-not (fn ∷ fns) = inr refl

-- A list that is all shown within `ys`, unless nothing bounds it.
unfoldable pub Bounded : Option (List String) → List String → Type 0
Bounded r ys = (fs : List String) × (r ≡ some fs) × Within fs ys

module _ (host : Host) where
  add_conditional-Within :
      (cs : List ConditionalGrant) (row : Row) (xs ys out : List String)
      → Within xs ys
      → add_conditional host cs row xs ≡ ok out
      → Within out (add_listed cs ys)
  unfolding add_conditional add_listed Within
  add_conditional-Within [] row xs ys out w h = subst (λ o. Within o ys) (ok-injective h) w
  add_conditional-Within (c ∷ cs) row xs ys out w h =
      let (b, e, k) = >>=-eq-ok (eval_expr host c.when row) _ h in
      add_conditional-Within cs row (if b then add_all c.fields xs else xs) (add_all c.fields ys)
        out (Within-if b c.fields xs ys w) k

  module _ (identity : Identity) (row stored : Row) where
    add_grant-Bounded :
        (g : BoundGrant) (fs xs ys : List String) (r : Option (List String))
        → g.fields ≡ some fs
        → g.fields_fns ≡ []
        → Within xs ys
        → add_grant host identity row stored g xs ≡ ok r
        → Bounded r (add_listed g.conditional (add_all fs ys))
    unfolding add_grant add_resolved Bounded
    add_grant-Bounded g fs xs ys r e n w h =
        let (out, c, k) =
          >>=-eq-ok (add_conditional host g.conditional row (add_all fs xs)) _ (rw e at h) in
        (
          out,
          sym (ok-injective (rw n at k)),
          add_conditional-Within g.conditional row (add_all fs xs) (add_all fs ys) out
              (Within-add_all fs xs ys w) c,
        )

    step-Bounded :
        (applies : Bool) (g : BoundGrant) (fs xs ys : List String) (r : Option (List String))
        → g.fields ≡ some fs
        → g.fields_fns ≡ []
        → Within xs ys
        → (if applies then add_grant host identity row stored g xs else ok (some xs)) ≡ ok r
        → Bounded r (add_listed g.conditional (add_all fs ys))
    unfolding Bounded
    step-Bounded true g fs xs ys r e n w h = add_grant-Bounded g fs xs ys r e n w h
    step-Bounded false g fs xs ys r e n w h = (
      xs,
      sym (ok-injective h),
      Within-listed g.conditional xs (add_all fs ys) (Within-more fs xs ys w),
    )

    add_grants-Bounded :
        (gs : List BoundGrant) (xs ys ps : List String) (r : Option (List String))
        → Within xs ys
        → possible_of gs ys ≡ some ps
        → add_grants host identity row stored gs xs ≡ ok r
        → Bounded r ps
    unfolding add_grants possible_of is_empty Bounded
    add_grants-Bounded [] xs ys ps r w p h =
        (xs, sym (ok-injective h), subst (λ q. Within xs q) (some-injective p) w)
    add_grants-Bounded (g ∷ gs) xs ys ps r w p h = elim (Option-cases g.fields) [
      | inl e ↦ cc (rw e at p)
      | inr (fs, e) ↦ elim (empty-or-not g.fields_fns) [
        | inr n ↦ cc (rw (e, n) at p)
        | inl n ↦
            let (applies, _, h1) = >>=-eq-ok (grant_applies host g row stored) _ h in
            let (next, s, h2) =
              >>=-eq-ok (if applies then add_grant host identity row stored g xs else ok (some xs))
                _ h1 in
            let (out, q, w') = step-Bounded applies g fs xs ys next e n w s in
            add_grants-Bounded gs out (add_listed g.conditional (add_all fs ys)) ps r w'
              (rw (e, n) at p) (rw q at h2)
      ]
    ]

effective_fields-Bounded :
    (host : Host) (identity : Identity) (row stored : Row) (scope : Scope) (ps : List String)
    (r : Option (List String))
    → possible_fields scope ≡ some ps
    → effective_fields host identity row stored scope ≡ ok r
    → Bounded r ps
unfolding possible_fields effective_fields Within
effective_fields-Bounded host identity row stored scope ps r p h =
    elim (Option-cases scope.fields) [
      | inl e ↦ cc (rw e at p)
      | inr (base, e) ↦
          add_grants-Bounded host identity row stored scope.grants (set_of base) (set_of base) ps r
            (λ f c. c) (rw e at p) (rw e at h)
    ]

-- The list of possible fields bounds every row: where `possibleFields` is a list, each field that the
-- scope shows on some row, if its fields are found without an error, is in that list.
pub effective_fields-possible_fields :
    (host : Host) (identity : Identity) (row stored : Row) (scope : Scope) (ps : List String)
    (r : Option (List String)) (f : String)
    → possible_fields scope ≡ some ps
    → effective_fields host identity row stored scope ≡ ok r
    → shows r f ≡ true
    → contains f ps ≡ true
unfolding Bounded Within shows
effective_fields-possible_fields host identity row stored scope ps r f p h s =
    let (fs, e, w) = effective_fields-Bounded host identity row stored scope ps r p h in
    w f (rw e at s)
