-- ===== src/Acl/Merge/Bind.antt =====
-- Binding the grants of a merge: each bound grant decides and gives what its grant does.
use pramen.Base.{
  ℕ, String, ◌≡◌, refl, sym, ap, ◌∙◌, ◌⊎◌, inl, inr, Bool, true, false, not, ◌&&◌, ◌||◌, Option,
  none, some, List, [], ◌∷◌, ◌++◌, any, All, lookup, contains, keep, contains-keep, ok,
  if◌then◌else◌, arith, Bool-cases,
}
use pramen.Cell.{number, Row, Host, numeric}
use pramen.Cell.Int.{pos}
use pramen.Expr.{SqlExpr, always, has_sub}
use pramen.Expr.Meaning.{Linked, holds, eval_expr-holds}
use pramen.Acl.{Identity, FieldsFn}
use pramen.Acl.Merge.{
  Grant, ConditionalGrant, BoundGrant, predicate, flag_name, admits_all, is_always, bind_predicate,
  count_flag, admission, extra_fields, adds_nothing, is_empty, is_empty_list, bound, bind_grants,
}
use pramen.Acl.Fields.{predicate_holds, stored_flag, flag_set, flag_of, admit_flags, check_flags}
use pramen.Acl.Merge.Rows.{satisfies, admits, applies, gives_by, gives, cells_give, fns_give}
use pramen.Acl.Merge.Loop.{decides, IsFlat, IsReady, bound_gives}

step_skip :
    (b a y r s : Bool) → (b || r) ≡ (b || s) → (b || y) ≡ b → (b || r) ≡ (b || ((a && y) || s))
step_skip b a y r s h k = ground arith

step_keep :
    (b a x y r s : Bool)
    → (b || x) ≡ (b || y)
    → (b || r) ≡ (b || s)
    → (b || ((a && x) || r)) ≡ (b || ((a && y) || s))
step_keep b a x y r s h k = ground arith

and-eq-true_left : (a b : Bool) → (a && b) ≡ true → a ≡ true
and-eq-true_left a b h = ground arith

is_empty-contains : (xs : List String) (f : String) → is_empty xs ≡ true → contains f xs ≡ false
unfolding is_empty contains
is_empty-contains [] f h = refl
is_empty-contains (x ∷ xs) f h = cc

module _ (host : Host) (linked : Linked) where
  -- The row carries, under the alias, what SQL computes: `CASE WHEN e THEN 1 ELSE 0 END`.
  abbrev pub Carries : Row → String × SqlExpr → Type 0
  Carries row flag =
      lookup flag.0 row ≡ some (number (pos (if holds host linked flag.1 row then 1 else 0)))

  flag_set-holds : (b : Bool) → flag_set host (some (number (pos (if b then 1 else 0)))) ≡ b
  unfolding flag_set numeric
  flag_set-holds true = refl
  flag_set-holds false = refl

  stored_flag-holds :
      (flag : Option String) (e : SqlExpr) (row : Row)
      → (flag ≡ none → has_sub e ≡ false)
      → All (Carries row) (flag_of (some (record { expr = e; flag = flag })))
      → stored_flag host flag e row ≡ ok (holds host linked e row)
  unfolding stored_flag flag_of
  stored_flag-holds none e row flat carried = eval_expr-holds host linked e row (flat refl)
  stored_flag-holds (some flag) e row flat (carried, _) =
      rw carried (ap ok (flag_set-holds (holds host linked e row)))

  flat_of_unflagged :
      (b : Bool) (name : String) → (if b then some name else none) ≡ none → b ≡ false
  flat_of_unflagged true name h = cc
  flat_of_unflagged false name h = refl

  bind_predicate-IsDecided :
      (n : ℕ) (e : Option SqlExpr) (row : Row)
      → All (Carries row) (flag_of (bind_predicate n e))
      → predicate_holds host (bind_predicate n e) row ≡ ok (satisfies host linked e row)
  unfolding predicate bind_predicate predicate_holds satisfies
  bind_predicate-IsDecided n none row carried = refl
  bind_predicate-IsDecided n (some e) row carried =
      stored_flag-holds _ e row (flat_of_unflagged (has_sub e) (flag_name n)) carried

  decides-bind_predicate :
      (n : ℕ) (e : Option SqlExpr) (row : Row)
      → decides host linked (bind_predicate n e) row ≡ satisfies host linked e row
  unfolding bind_predicate predicate decides satisfies
  decides-bind_predicate n none row = refl
  decides-bind_predicate n (some e) row = refl

  -- A grant that is bound with no admission admits the stored row.
  abbrev pub IsCovered : Bool → Row → Grant → Type 0
  IsCovered single stored g = (single ≡ false) ⊎ (admits host linked g stored ≡ true)

  pub admits_all-satisfies :
      (w : Option SqlExpr) (row : Row) → admits_all w ≡ true → satisfies host linked w row ≡ true
  unfolding admits_all is_always satisfies holds
  admits_all-satisfies none row h = refl
  admits_all-satisfies (some always) row h = refl
  admits_all-satisfies (some _) row h = cc

  admission-satisfies :
      (single : Bool) (w : Option SqlExpr) (row : Row)
      → (single ≡ false) ⊎ (satisfies host linked w row ≡ true)
      → satisfies host linked (if single || admits_all w then none else w) row
        ≡ satisfies host linked w row
  unfolding satisfies
  admission-satisfies false w row c = elim (Bool-cases (admits_all w)) [
    | inl all' ↦ rw all' (sym (admits_all-satisfies w row all'))
    | inr narrow ↦ rw narrow
  ]
  admission-satisfies true w row (inl h) = cc
  admission-satisfies true w row (inr h) = sym h

  admission-admits :
      (single : Bool) (stored : Row) (g : Grant)
      → IsCovered single stored g
      → satisfies host linked (admission single g) stored ≡ admits host linked g stored
  unfolding admission admits
  admission-admits single stored g covered = admission-satisfies single g.where_ stored covered

  All-append :
      {A : Type 0} (P : A → Type 0) (xs ys : List A) → All P (xs ++ ys) → All P xs × All P ys
  All-append P [] ys h = (tt, h)
  All-append P (x ∷ xs) ys (p, h) = let (a, b) = All-append P xs ys h in ((p, a), b)

  module _ (identity : Identity) (row stored : Row) where
    bound-decides :
        (base : Option (List String)) (single : Bool) (n : ℕ) (g : Grant)
        → IsCovered single stored g
        → (decides host linked (bound base single n g).admit stored
            && decides host linked (bound base single n g).check row)
          ≡ applies host linked row stored g
    unfolding bound applies
    bound-decides base single n g covered = rw (
      decides-bind_predicate n (admission single g) stored,
      decides-bind_predicate (count_flag n (admission single g)) g.check row,
      admission-admits single stored g covered,
    )

    bound-IsReady :
        (base : Option (List String)) (single : Bool) (n : ℕ) (g : Grant)
        → IsFlat host linked g.conditional
        → All (Carries stored) (flag_of (bound base single n g).admit)
        → All (Carries row) (flag_of (bound base single n g).check)
        → IsReady host linked row stored (bound base single n g)
    unfolding bound
    bound-IsReady base single n g flat a c = (
      bind_predicate-IsDecided n (admission single g) stored a
          ∙ ap ok (sym (decides-bind_predicate n (admission single g) stored)),
      bind_predicate-IsDecided (count_flag n (admission single g)) g.check row c
          ∙ ap ok (sym (decides-bind_predicate (count_flag n (admission single g)) g.check row)),
      flat,
    )

    pub bind_grants-IsReady :
        (base : Option (List String)) (checked single : Bool) (gs : List Grant) (n : ℕ)
        → All (λ (g : Grant). IsFlat host linked g.conditional) gs
        → All (Carries stored) (admit_flags (bind_grants base checked single n gs))
        → All (Carries row) (check_flags (bind_grants base checked single n gs))
        → All (IsReady host linked row stored) (bind_grants base checked single n gs)
    unfolding bind_grants admit_flags check_flags
    bind_grants-IsReady base checked single [] n flats a c = tt
    bind_grants-IsReady base checked single (g ∷ gs) n (flat, flats) a c =
        elim (Bool-cases (adds_nothing base g && not checked)) [
          | inl skip ↦
              rw skip
                (bind_grants-IsReady base checked single gs _ flats (rw skip at a) (rw skip at c))
          | inr kept ↦
              let (a', as') =
                All-append (Carries stored) (flag_of (bound base single n g).admit) _
                  (rw kept at a) in
              let (c', cs') =
                All-append (Carries row) (flag_of (bound base single n g).check) _ (rw kept at c) in
              rw kept (
                bound-IsReady base single n g flat a' c',
                bind_grants-IsReady base checked single gs _ flats as' cs',
              )
        ]

    -- Adding a grant's fields to the base adds what the grant gives.
    extra-gives :
        (base : List String) (fields : Option (List String)) (cs : List ConditionalGrant)
        (fns : List FieldsFn) (f : String)
        → (contains f base
            || gives_by host linked identity row (extra_fields (some base) fields) cs fns f)
          ≡ (contains f base || gives_by host linked identity row fields cs fns f)
    unfolding gives_by extra_fields
    extra-gives base none cs fns f = refl
    extra-gives base (some fields) cs fns f = rw contains-keep (ground arith)

    keep_none :
        (base fields : List String) (f : String)
        → is_empty (keep (λ x. not (contains x base)) fields) ≡ true
        → (contains f base || contains f fields) ≡ contains f base
    keep_none base fields f h = ground (
      arith,
      contains-keep (λ x. not (contains x base)) f fields,
      is_empty-contains (keep (λ x. not (contains x base)) fields) f h,
    )

    skipped-gives :
        (base : List String) (fields : Option (List String)) (cs : List ConditionalGrant)
        (fns : List FieldsFn) (f : String)
        → (is_empty_list (extra_fields (some base) fields) && is_empty cs && is_empty fns) ≡ true
        → (contains f base || gives_by host linked identity row fields cs fns f) ≡ contains f base
    unfolding extra_fields gives_by cells_give fns_give any is_empty is_empty_list
    skipped-gives base none cs fns f h = cc
    skipped-gives base (some fields) [] [] f h = ground (arith, keep_none base fields f)
    skipped-gives base (some fields) [] (fn ∷ fns) f h = ground arith
    skipped-gives base (some fields) (c ∷ cs) fns f h = ground arith

    -- Over the base, the bound grants give what the grants give.
    pub bind_grants-gives :
        (base : List String) (checked single : Bool) (gs : List Grant) (n : ℕ) (f : String)
        → All (IsCovered single stored) gs
        → (contains f base
            || any
                (bound_gives host linked identity row stored f)
                (bind_grants (some base) checked single n gs))
          ≡ (contains f base
              || any
                  (λ (g : Grant).
                    applies host linked row stored g && gives host linked identity row g f)
                  gs)
    unfolding bind_grants any adds_nothing bound_gives gives bound
    bind_grants-gives base checked single [] n f covered = refl
    bind_grants-gives base checked single (g ∷ gs) n f (covered, rest) =
        elim (Bool-cases (adds_nothing (some base) g && not checked)) [
          | inl skip ↦ rw skip (
              step_skip (contains f base) (applies host linked row stored g) _ _ _
                (bind_grants-gives base checked single gs _ f rest)
                (skipped-gives base g.fields g.conditional g.fields_fns f
                  (and-eq-true_left _ _ skip)))
          | inr kept ↦ rw kept (
              rw (bound-decides (some base) single n g covered) (
                step_keep (contains f base) (applies host linked row stored g) _ _ _ _
                  (extra-gives base g.fields g.conditional g.fields_fns f)
                  (bind_grants-gives base checked single gs _ f rest)))
        ]

    -- With a check among the grants none is dropped.
    pub bind_grants-decides :
        (base : Option (List String)) (single : Bool) (gs : List Grant) (n : ℕ)
        → All (IsCovered single stored) gs
        → any
            (λ (b : BoundGrant).
              decides host linked b.admit stored && decides host linked b.check row)
            (bind_grants base true single n gs)
          ≡ any (applies host linked row stored) gs
    unfolding bind_grants any
    bind_grants-decides base single [] n covered = refl
    bind_grants-decides base single (g ∷ gs) n (covered, rest) =
        elim (Bool-cases (adds_nothing base g)) [
          | inl skip ↦ rw skip (
              rw (bound-decides base single n g covered) (
                ap (λ z. applies host linked row stored g || z)
                  (bind_grants-decides base single gs _ rest)))
          | inr kept ↦ rw kept (
              rw (bound-decides base single n g covered) (
                ap (λ z. applies host linked row stored g || z)
                  (bind_grants-decides base single gs _ rest)))
        ]
