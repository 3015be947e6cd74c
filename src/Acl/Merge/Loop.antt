-- ===== src/Acl/Merge/Loop.antt =====
-- The loop of `effectiveFields` over bound grants whose predicates can be decided.
use pramen.Base.{
  String, ◌≡◌, refl, Bool, true, false, ◌&&◌, ◌||◌, Option, none, some, List, [], ◌∷◌, any, All,
  contains, add_all, contains-add_all, ok, arith, Bool-cases, inl, inr, Option-cases,
}
use pramen.Cell.{Row, Host}
use pramen.Expr.{has_sub}
use pramen.Expr.Meaning.{Linked, holds, eval_expr-holds}
use pramen.Acl.{Identity, FieldsFn}
use pramen.Acl.Merge.{ConditionalGrant, RowPredicate, BoundGrant}
use pramen.Acl.Fields.{
  predicate_holds, grant_applies, add_conditional, add_resolved, add_grant, add_grants,
  some_applies,
}
use pramen.Acl.Merge.Rows.{shows, cells_give, fns_give, gives_by}

module _ (host : Host) (linked : Linked) where
  unfoldable pub decides : Option RowPredicate → Row → Bool
  decides none row = true
  decides (some p) row = holds host linked p.expr row

  abbrev pub IsDecided : Option RowPredicate → Row → Type 0
  IsDecided p row = predicate_holds host p row ≡ ok (decides p row)

  abbrev pub IsFlat : List ConditionalGrant → Type 0
  IsFlat cs = All (λ (c : ConditionalGrant). has_sub c.when ≡ false) cs

  add_conditional-gives :
      (cs : List ConditionalGrant) (row : Row) (out : List String)
      → IsFlat cs
      → (out' : List String) × (add_conditional host cs row out ≡ ok out')
        × ((f : String) → contains f out' ≡ (contains f out || cells_give host linked row cs f))
  unfolding add_conditional cells_give any
  add_conditional-gives [] row out flat = (out, refl, λ f. ground arith)
  add_conditional-gives (c ∷ cs) row out (flat, flats) =
      elim (Bool-cases (holds host linked c.when row)) [
        | inl yes' ↦
            let (out', runs, has) = add_conditional-gives cs row (add_all c.fields out) flats in
            (
              out',
              rw (eval_expr-holds host linked c.when row flat, yes') runs,
              λ f. ground (arith, has f, yes', contains-add_all f c.fields out),
            )
        | inr no' ↦
            let (out', runs, has) = add_conditional-gives cs row out flats in
            (
              out',
              rw (eval_expr-holds host linked c.when row flat, no') runs,
              λ f. ground (arith, has f, no'),
            )
      ]

  add_resolved-gives :
      (identity : Identity) (fns : List FieldsFn) (row : Row) (out : List String) (f : String)
      → shows (add_resolved host identity fns row out) f
        ≡ (contains f out || fns_give host linked identity row fns f)
  unfolding add_resolved fns_give any shows
  add_resolved-gives identity [] row out f = ground arith
  add_resolved-gives identity (fn ∷ fns) row out f = elim (Option-cases (fn identity row)) [
    | inl all' ↦ rw all' (ground arith)
    | inr (fs, some') ↦ rw some' (
        ground (
          arith,
          add_resolved-gives identity fns row (add_all fs out) f,
          contains-add_all f fs out,
        ))
  ]

  abbrev pub IsReady : Row → Row → BoundGrant → Type 0
  IsReady row stored b = IsDecided b.admit stored × IsDecided b.check row × IsFlat b.conditional

  -- a bound grant that applies and gives the field
  unfoldable pub bound_gives : Identity → Row → Row → String → BoundGrant → Bool
  unfolding decides gives_by
  bound_gives identity row stored f b =
      (decides b.admit stored && decides b.check row)
      && gives_by host linked identity row b.fields b.conditional b.fields_fns f

  grant_applies-decides :
      (row stored : Row) (b : BoundGrant)
      → IsReady row stored b
      → grant_applies host b row stored ≡ ok (decides b.admit stored && decides b.check row)
  unfolding grant_applies
  grant_applies-decides row stored b (admit, check, flat) = rw admit (ground (arith, check))

  module _ (identity : Identity) (row stored : Row) where
    add_grant-gives :
        (b : BoundGrant) (out : List String)
        → IsFlat b.conditional
        → (o : Option (List String)) × (add_grant host identity row stored b out ≡ ok o)
          × ((f : String)
              → shows o f ≡ (
                  contains f out
                  || gives_by host linked identity row b.fields b.conditional b.fields_fns f))
    unfolding add_grant gives_by
    add_grant-gives b out flat = elim (Option-cases b.fields) [
      | inl all' ↦ (none, rw all', λ f. rw all' (ground arith))
      | inr (fs, some') ↦
          let (out', runs, has) = add_conditional-gives b.conditional row (add_all fs out) flat in
          (
            add_resolved host identity b.fields_fns row out',
            rw (some', runs),
            λ f. rw some' (
                ground (
                  arith,
                  has f,
                  contains-add_all f fs out,
                  add_resolved-gives identity b.fields_fns row out' f,
                )),
          )
    ]

    pub add_grants-gives :
        (bs : List BoundGrant) (out : List String)
        → All (IsReady row stored) bs
        → (o : Option (List String)) × (add_grants host identity row stored bs out ≡ ok o)
          × ((f : String)
              → shows o f ≡ (contains f out || any (bound_gives identity row stored f) bs))
    unfolding add_grants any shows bound_gives
    add_grants-gives [] out ready = (some out, refl, λ f. ground arith)
    add_grants-gives (b ∷ bs) out (ready, later) =
        let runs = grant_applies-decides row stored b ready in
        elim (Bool-cases (decides b.admit stored && decides b.check row)) [
          | inr no' ↦
              let (o, go, has) = add_grants-gives bs out later in
              (o, rw (runs, no') go, λ f. ground (arith, has f, no'))
          | inl yes' ↦
              let (next, adds, gives) = add_grant-gives b out ready.2 in
              elim (Option-cases next) [
                | inl all' ↦
                    (none, rw (runs, yes', adds, all'), λ f. ground (arith, gives f, all', yes'))
                | inr (out', some') ↦
                    let (o, go, has) = add_grants-gives bs out' later in
                    (
                      o,
                      rw (runs, yes', adds, some') go,
                      λ f. ground (arith, has f, gives f, some', yes'),
                    )
              ]
        ]

    pub some_applies-decides :
        (bs : List BoundGrant)
        → All (IsReady row stored) bs
        → some_applies host bs row stored
          ≡ ok (any (λ (b : BoundGrant). decides b.admit stored && decides b.check row) bs)
    unfolding some_applies any
    some_applies-decides [] ready = refl
    some_applies-decides (b ∷ bs) (ready, later) =
        rw (grant_applies-decides row stored b ready)
          (ground (arith, some_applies-decides bs later))
