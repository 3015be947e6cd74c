-- ===== src/Acl/Scoped/Cells.antt =====
-- A cell-level predicate reads one table: none of those that the compilers make traverses a
-- relation, so `evalExpr` decides each of them in memory.
use pramen.Base.{
  String, ◌≡◌, refl, Bool, true, false, ◌||◌, ◌==◌, Option, none, some, List, [], ◌∷◌, ◌++◌, Result,
  ok, Ensures, Ensures-ok, Ensures-err, Ensures-bind, Ensures-if, Bool-cases, inl, inr, or-eq-false,
}
use pramen.Cell.{Cell, null, boolean, number, Host}
use pramen.Expr.{SqlExpr, always, never, parts_of, has_sub, some_sub, equals, and, or, negation}
use pramen.Where.{
  WhereRule, end, entry, WhereValue, cell, nested, list, Values, nil, cons, Objects,
  resolve_markers,
}
use pramen.Where.Compile.{
  membership, differs, operator, operators, all_of, column_predicate, compile_entries,
  compile_entry, compile_all, compile_where, cell_of,
}
use pramen.Acl.{AclContext}
use pramen.Schema.{RelationDef}
use pramen.Acl.Scoped.{
  Relate, is_group, group_of, plain_of, resolved_part, plain_part, join_parts, finish,
  relation_part, scoped_entries, scoped_entry, scoped_all, compile_scoped,
}

abbrev pub IsFlatExpr : SqlExpr → Type 0
IsFlatExpr e = has_sub e ≡ false

abbrev AreFlat : List SqlExpr → Type 0
AreFlat es = some_sub (parts_of es) ≡ false

module _ (host : Host) (objects : Objects) where
  equals-flat : (col : String) (c : Cell) → IsFlatExpr (equals col c)
  unfolding equals has_sub
  equals-flat col null = refl
  equals-flat col _ = refl

  differs-flat : (col : String) (c : Cell) → IsFlatExpr (differs host objects col c)
  unfolding differs has_sub
  differs-flat col null = refl
  differs-flat col _ = refl

  membership-flat :
      (col : String) (v : WhereValue) (n : Bool)
      → Ensures IsFlatExpr (membership host objects col v n)
  unfolding membership has_sub
  membership-flat col (list vs) n = Ensures-ok _ refl
  membership-flat col _ n = Ensures-err _

  operator-flat :
      (col op : String) (v : WhereValue) → Ensures IsFlatExpr (operator host objects col op v)
  unfolding operator has_sub
  operator-flat col op v =
      let c = cell_of host objects v in
      Ensures-if (op == "eq") _ _ (Ensures-ok _ (equals-flat col c)) (
        Ensures-if (op == "ne") _ _ (Ensures-ok _ (differs-flat col c)) (
          Ensures-if (op == "gt") _ _ (Ensures-ok _ refl) (
            Ensures-if (op == "gte") _ _ (Ensures-ok _ refl) (
              Ensures-if (op == "lt") _ _ (Ensures-ok _ refl) (
                Ensures-if (op == "lte") _ _ (Ensures-ok _ refl) (
                  Ensures-if (op == "like") _ _ (Ensures-ok _ refl) (
                    Ensures-if (op == "contains") _ _ (Ensures-ok _ refl) (
                      Ensures-if (op == "startsWith") _ _ (Ensures-ok _ refl) (
                        Ensures-if (op == "endsWith") _ _ (Ensures-ok _ refl) (
                          Ensures-if (op == "in") _ _ (membership-flat col v false) (
                            Ensures-if (op == "notIn") _ _ (membership-flat col v true) (
                              Ensures-if (op == "isNull") _ _ (Ensures-ok _ refl)
                                (Ensures-err _)))))))))))))

  cons-flat : (e : SqlExpr) (es : List SqlExpr) → IsFlatExpr e → AreFlat es → AreFlat (e ∷ es)
  unfolding parts_of has_sub
  cons-flat e es h k = rw (h, k)

  all_of-flat : (es : List SqlExpr) → AreFlat es → IsFlatExpr (all_of host objects es)
  unfolding all_of has_sub parts_of
  all_of-flat [] h = refl
  all_of-flat (e ∷ es) h = h

  operators-flat :
      (col : String) (ops : WhereRule) → Ensures AreFlat (operators host objects col ops)
  unfolding operators parts_of has_sub
  operators-flat col end = Ensures-ok _ refl
  operators-flat col (entry op v rest) =
      Ensures-bind _ _ (operator-flat col op v)
        λ e h. Ensures-bind _ _ (operators-flat col rest) λ es k. Ensures-ok _ (cons-flat e es h k)

  column-flat :
      (col : String) (v : WhereValue) → Ensures IsFlatExpr (column_predicate host objects col v)
  unfolding column_predicate
  column-flat col (nested ops) =
      Ensures-bind _ _ (operators-flat col ops) λ es h. Ensures-ok _ (all_of-flat es h)
  column-flat col v = Ensures-ok _ (equals-flat col (cell_of host objects v))

  negation-flat : (e : SqlExpr) → IsFlatExpr e → IsFlatExpr (negation e)
  unfolding has_sub
  negation-flat e h = h

  group-flat : (k : String) (es : List SqlExpr) → AreFlat es → IsFlatExpr (group_of k es)
  unfolding group_of has_sub
  group-flat k es h = elim (Bool-cases (k == "AND")) [ inl yes' ↦ rw yes' h | inr no' ↦ rw no' h ]

  and-flat : (es : List SqlExpr) → AreFlat es → IsFlatExpr (and es)
  unfolding has_sub
  and-flat es h = h

  or-flat : (es : List SqlExpr) → AreFlat es → IsFlatExpr (or es)
  unfolding has_sub
  or-flat es h = h

  nil-flat : AreFlat []
  unfolding parts_of has_sub
  nil-flat = refl

  mutual
    unfolding compile_entries

    entries-flat : (r : WhereRule) → Ensures AreFlat (compile_entries host objects r)
    entries-flat end = Ensures-ok _ nil-flat
    entries-flat (entry k v rest) =
        Ensures-bind _ _ (entry-flat k v)
          λ e h. Ensures-bind _ _ (entries-flat rest) λ es t. Ensures-ok _ (cons-flat e es h t)

    entry-flat : (k : String) (v : WhereValue) → Ensures IsFlatExpr (compile_entry host objects k v)
    entry-flat k (list vs) =
        Ensures-if (k == "AND") _ _
          (Ensures-bind _ _ (all-flat vs) λ es h. Ensures-ok _ (and-flat es h))
          (Ensures-if (k == "OR") _ _
            (Ensures-bind _ _ (all-flat vs) λ es h. Ensures-ok _ (or-flat es h))
            (Ensures-if (k == "NOT") _ _ (Ensures-err _) (column-flat k (list vs))))
    entry-flat k (nested r) = Ensures-if (k == "AND" || k == "OR") _ _ (Ensures-err _) (
        Ensures-if (k == "NOT") _ _
          (Ensures-bind _ _ (entries-flat r)
            λ es h. Ensures-ok _ (negation-flat _ (all_of-flat es h)))
          (column-flat k (nested r)))
    entry-flat k v =
        Ensures-if (k == "AND" || k == "OR" || k == "NOT") _ _ (Ensures-err _) (column-flat k v)

    all-flat : (vs : Values) → Ensures AreFlat (compile_all host objects vs)
    all-flat nil = Ensures-ok _ nil-flat
    all-flat (cons (nested r) vs) = Ensures-bind _ _ (entries-flat r) λ parts h.
        Ensures-bind _ _ (all-flat vs) λ es t. Ensures-ok _ (cons-flat _ es (all_of-flat parts h) t)
    all-flat (cons _ vs) = Ensures-err _

  where-flat : (r : WhereRule) → Ensures IsFlatExpr (compile_where host objects r)
  unfolding compile_where
  where-flat r = Ensures-bind _ _ (entries-flat r) λ es h. Ensures-ok _ (all_of-flat es h)

module _ (ctx : AclContext) (relate : Relate) (entity : String) (untrusted : Bool) where
  never-flat : IsFlatExpr never
  unfolding has_sub
  never-flat = refl

  always-flat : IsFlatExpr always
  unfolding has_sub
  always-flat = refl

  resolved-flat :
      (r : Option WhereRule) → Ensures IsFlatExpr (resolved_part ctx relate entity true untrusted r)
  unfolding resolved_part
  resolved-flat none = Ensures-ok _ never-flat
  resolved-flat (some r) = where-flat ctx.host ctx.objects r

  plain-flat : (r : WhereRule) → Ensures AreFlat (plain_part ctx relate entity true untrusted r)
  unfolding plain_part
  plain-flat end = Ensures-ok _ (nil-flat ctx.host ctx.objects)
  plain-flat (entry k v rest) =
      Ensures-bind _ (λ e. ok (e ∷ []))
        (resolved-flat
          (resolve_markers ctx.objects ctx.identity ctx.input ctx.now (entry k v rest)))
        λ e h.
          Ensures-ok (e ∷ [])
            (cons-flat ctx.host ctx.objects e [] h (nil-flat ctx.host ctx.objects))

  append-flat : (es fs : List SqlExpr) → AreFlat es → AreFlat fs → AreFlat (es ++ fs)
  unfolding parts_of has_sub
  append-flat [] fs h k = k
  append-flat (e ∷ es) fs h k =
      let (here, later) = or-eq-false (has_sub e) _ h in
      cons-flat ctx.host ctx.objects e (es ++ fs) here (append-flat es fs later k)

  join-flat :
      (es : List SqlExpr) → AreFlat es → IsFlatExpr (join_parts ctx relate entity true untrusted es)
  unfolding join_parts has_sub parts_of
  join-flat [] h = refl
  join-flat (e ∷ []) h = (or-eq-false (has_sub e) false h).0
  join-flat (e ∷ e' ∷ es) h = h

  finish-flat :
      (parts : Result (List SqlExpr)) (r : WhereRule)
      → Ensures AreFlat parts
      → Ensures IsFlatExpr (finish ctx relate entity true untrusted parts r)
  unfolding finish
  finish-flat parts r h = Ensures-bind _ _ h λ es k.
      Ensures-bind _ _ (plain-flat r)
        λ ps t. Ensures-ok _ (join-flat (es ++ ps) (append-flat es ps k t))

  relation-flat :
      (rel : Option RelationDef) (v : WhereValue)
      → Ensures AreFlat (relation_part ctx relate entity true untrusted rel v)
  unfolding relation_part
  relation-flat none v = Ensures-ok _ (nil-flat ctx.host ctx.objects)
  relation-flat (some rel) v = Ensures-err _

  single-flat : (e : SqlExpr) → IsFlatExpr e → AreFlat (e ∷ [])
  single-flat e h = cons-flat ctx.host ctx.objects e [] h (nil-flat ctx.host ctx.objects)

  mutual
    unfolding scoped_entries

    scoped-flat :
        (r : WhereRule) → Ensures AreFlat (scoped_entries ctx relate entity true untrusted r)
    scoped-flat end = Ensures-ok _ (nil-flat ctx.host ctx.objects)
    scoped-flat (entry k v rest) =
        Ensures-bind _ _ (scoped_entry-flat k v) λ es h.
          Ensures-bind _ _ (scoped-flat rest) λ more t. Ensures-ok _ (append-flat es more h t)

    scoped_entry-flat :
        (k : String) (v : WhereValue)
        → Ensures AreFlat (scoped_entry ctx relate entity true untrusted k v)
    scoped_entry-flat k (list vs) =
        Ensures-if (is_group k) _ _
          (Ensures-bind _ _ (scoped_all-flat vs)
            λ es h. Ensures-ok _ (single-flat _ (group-flat ctx.host ctx.objects k es h)))
          (Ensures-if (k == "NOT") _ _ (Ensures-err _) (relation-flat _ (list vs)))
    scoped_entry-flat k (nested r) = Ensures-if (is_group k) _ _ (Ensures-err _) (
        Ensures-if (k == "NOT") _ _
          (Ensures-bind _ _
            (finish-flat _ (plain_of ctx relate entity true untrusted r) (scoped-flat r))
            λ e h. Ensures-ok _ (single-flat _ (negation-flat ctx.host ctx.objects e h)))
          (relation-flat _ (nested r)))
    scoped_entry-flat k v =
        Ensures-if (is_group k || k == "NOT") _ _ (Ensures-err _) (relation-flat _ v)

    scoped_all-flat :
        (vs : Values) → Ensures AreFlat (scoped_all ctx relate entity true untrusted vs)
    scoped_all-flat nil = Ensures-ok _ (nil-flat ctx.host ctx.objects)
    scoped_all-flat (cons (nested r) vs) =
        Ensures-bind _ _
          (finish-flat _ (plain_of ctx relate entity true untrusted r) (scoped-flat r))
          λ e h.
            Ensures-bind _ _ (scoped_all-flat vs)
              λ es t. Ensures-ok _ (cons-flat ctx.host ctx.objects e es h t)
    scoped_all-flat (cons (cell (number n)) vs) =
        Ensures-bind _ _ (scoped_all-flat vs)
          λ es t. Ensures-ok _ (cons-flat ctx.host ctx.objects always es always-flat t)
    scoped_all-flat (cons (cell (boolean b)) vs) =
        Ensures-bind _ _ (scoped_all-flat vs)
          λ es t. Ensures-ok _ (cons-flat ctx.host ctx.objects always es always-flat t)
    scoped_all-flat (cons _ vs) = Ensures-err _

  pub compile_scoped-IsFlatExpr :
      (rule : WhereRule) → Ensures IsFlatExpr (compile_scoped ctx relate entity true untrusted rule)
  unfolding compile_scoped
  compile_scoped-IsFlatExpr rule =
      finish-flat _ (plain_of ctx relate entity true untrusted rule) (scoped-flat rule)

  -- A cell-level rule that compiles traverses no relation, whatever it names: `evalExpr` can decide it.
  pub compile_scoped-flat :
      (rule : WhereRule) (e : SqlExpr)
      → compile_scoped ctx relate entity true untrusted rule ≡ ok e
      → IsFlatExpr e
  compile_scoped-flat rule e h = (compile_scoped-IsFlatExpr rule).at e h
