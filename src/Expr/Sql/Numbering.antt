-- ===== src/Expr/Sql/Numbering.antt =====
-- The placeholders of a statement and the parameters that it binds.
use pramen.Base.{
  ℕ, suc, String, ◌≡◌, refl, ◌∙◌, Bool, eqb, Option, none, some, List, [], ◌∷◌, ◌++◌, length,
  if◌then◌else◌, arith,
}
use pramen.Cell.{Cell, null, boolean, number, text, object}
use pramen.Cell.Int.{ℤ}
use pramen.Expr.{
  CmpOp, SqlExpr, always, never, cmp, in_list, is_null, strmatch, conj, disj, negation, sub, Parts,
  nil, cons,
}
use pramen.Expr.Sql.{
  Piece, word, ident, hole, Compiled, ref, push, pattern_of, op_text, more_values, compile_in,
  compile_cmp, compile_expr, compile_group, compile_more, compile_flags, compile_condition,
  select_list, more_columns, order_item, more_order, order_clause, limit_clause, offset_clause,
  QuerySpec, compile_select,
}

-- The last placeholder of a text whose placeholders continue one by one after `n`.
unfoldable pub numbered : ℕ → List Piece → Option ℕ
numbered n [] = some n
numbered n (word s ∷ ps) = numbered n ps
numbered n (ident s ∷ ps) = numbered n ps
numbered n (hole k ∷ ps) = let rest = numbered (suc n) ps in if eqb k (suc n) then rest else none

numbered-append :
    (n m : ℕ) (xs ys : List Piece) → numbered n xs ≡ some m → numbered n (xs ++ ys) ≡ numbered m ys
unfolding numbered
numbered-append n m [] ys h = ground (arith, h)
numbered-append n m (word s ∷ xs) ys h = numbered-append n m xs ys h
numbered-append n m (ident s ∷ xs) ys h = numbered-append n m xs ys h
numbered-append n m (hole k ∷ xs) ys h = ground (arith, numbered-append (suc n) m xs ys)

length-snoc : (c : Cell) (ps : List Cell) → length (ps ++ c ∷ []) ≡ suc (length ps)
length-snoc c [] = refl
length-snoc c (p ∷ ps) = rw (length-snoc c ps) refl

-- The text binds, in its order, the parameters that it adds to `params`.
abbrev pub Binds : List Cell → Compiled → Type 0
Binds params c = numbered (length params) c.0 ≡ some (length c.1)

push-Binds : (c : Cell) (params : List Cell) → Binds params (push c params)
unfolding push numbered
push-Binds c params = ground (arith, length-snoc c params)

Binds-append :
    (params now last : List Cell) (xs ys : List Piece)
    → Binds params (xs, now)
    → Binds now (ys, last)
    → Binds params (xs ++ ys, last)
Binds-append params now last xs ys h k = numbered-append (length params) (length now) xs ys h ∙ k

ref-Binds :
    (table : Option String) (col : String) (params : List Cell)
    → Binds params (ref table col, params)
unfolding ref numbered
ref-Binds none col params = refl
ref-Binds (some table) col params = refl

more_order-Binds :
    (os : List (String × Bool)) (params : List Cell) → Binds params (more_order os, params)
unfolding more_order numbered order_item
more_order-Binds [] params = refl
more_order-Binds ((c, d) ∷ os) params = more_order-Binds os params

order_clause-Binds :
    (os : List (String × Bool)) (params : List Cell) → Binds params (order_clause os, params)
unfolding order_clause numbered order_item
order_clause-Binds [] params = refl
order_clause-Binds ((c, d) ∷ os) params = more_order-Binds os params

more_columns-Binds :
    (cs : List String) (params : List Cell) → Binds params (more_columns cs, params)
unfolding more_columns numbered
more_columns-Binds [] params = refl
more_columns-Binds (c ∷ cs) params = more_columns-Binds cs params

select_list-Binds : (cs : List String) (params : List Cell) → Binds params (select_list cs, params)
unfolding select_list numbered
select_list-Binds [] params = refl
select_list-Binds (c ∷ cs) params = more_columns-Binds cs params

limit_clause-Binds : (l o : Option ℤ) (params : List Cell) → Binds params (limit_clause l o params)
unfolding limit_clause numbered
limit_clause-Binds (some n) o params = push-Binds (number n) params
limit_clause-Binds none (some m) params = refl
limit_clause-Binds none none params = refl

offset_clause-Binds : (o : Option ℤ) (params : List Cell) → Binds params (offset_clause o params)
unfolding offset_clause numbered
offset_clause-Binds (some n) params = push-Binds (number n) params
offset_clause-Binds none params = refl

-- a word that closes a text
closed :
    (params now : List Cell) (xs : List Piece) (s : String)
    → Binds params (xs, now)
    → Binds params (xs ++ word s ∷ [], now)
unfolding numbered
closed params now xs s h = Binds-append params now now xs (word s ∷ []) h refl

module _ (encode : Cell → Cell) where
  more_values-Binds : (vs params : List Cell) → Binds params (more_values encode vs params)
  unfolding more_values numbered
  more_values-Binds [] params = refl
  more_values-Binds (v ∷ vs) params =
      let p = push (encode v) params in
      let q = more_values encode vs p.1 in
      Binds-append params p.1 q.1 p.0 q.0 (push-Binds (encode v) params) (more_values-Binds vs p.1)

  compile_in-Binds :
      (column : List Piece) (negate : Bool) (vs params : List Cell)
      → Binds params (column, params)
      → Binds params (compile_in encode column negate vs params)
  unfolding compile_in numbered
  compile_in-Binds column negate [] params h = refl
  compile_in-Binds column negate (v ∷ vs) params h =
      let p = push (encode v) params in
      let q = more_values encode vs p.1 in
      Binds-append params params q.1 column
        (word (if negate then " NOT IN (" else " IN (") ∷ (p.0 ++ (q.0 ++ (word ")" ∷ [])))) h
        (Binds-append params p.1 q.1 p.0 (q.0 ++ (word ")" ∷ [])) (push-Binds (encode v) params)
          (closed p.1 q.1 q.0 ")" (more_values-Binds vs p.1)))

  compare-Binds :
      (column : List Piece) (op : CmpOp) (v : Cell) (params : List Cell)
      → Binds params (column, params)
      → Binds params
          (column ++ word (op_text op) ∷ (push (encode v) params).0, (push (encode v) params).1)
  unfolding numbered
  compare-Binds column op v params h =
      Binds-append params params (push (encode v) params).1 column _ h
        (push-Binds (encode v) params)

  compile_cmp-Binds :
      (column : List Piece) (op : CmpOp) (v : Cell) (params : List Cell)
      → Binds params (column, params)
      → Binds params (compile_cmp encode column op v params)
  unfolding compile_cmp numbered
  compile_cmp-Binds column op null params h = refl
  compile_cmp-Binds column op (boolean b) params h = compare-Binds column op (boolean b) params h
  compile_cmp-Binds column op (number n) params h = compare-Binds column op (number n) params h
  compile_cmp-Binds column op (text s) params h = compare-Binds column op (text s) params h
  compile_cmp-Binds column op (object o) params h = compare-Binds column op (object o) params h

  mutual
    unfolding compile_expr numbered

    expr_lem :
        (e : SqlExpr) (table : Option String) (params : List Cell)
        → Binds params (compile_expr encode e table params)
    expr_lem always table params = refl
    expr_lem never table params = refl
    expr_lem (cmp op col v) table params =
        compile_cmp-Binds (ref table col) op v params (ref-Binds table col params)
    expr_lem (is_null col negate) table params =
        closed params params (ref table col) (if negate then " IS NOT NULL" else " IS NULL")
          (ref-Binds table col params)
    expr_lem (strmatch col needle mode) table params =
        let p = push (encode (text (pattern_of mode needle))) params in
        Binds-append params params p.1 (ref table col)
          (word " LIKE " ∷ (p.0 ++ (word " ESCAPE '\\'" ∷ []))) (ref-Binds table col params)
          (closed params p.1 p.0 " ESCAPE '\\'"
            (push-Binds (encode (text (pattern_of mode needle))) params))
    expr_lem (in_list col values negate) table params =
        compile_in-Binds (ref table col) negate values params (ref-Binds table col params)
    expr_lem (conj ps) table params = group_lem "1" " AND " ps table params
    expr_lem (disj ps) table params = group_lem "0" " OR " ps table params
    expr_lem (negation e) table params =
        let p = compile_expr encode e table params in
        closed params p.1 p.0 ")" (expr_lem e table params)
    expr_lem (sub outer from select where_ negate) table params =
        let p = compile_expr encode where_ (some from) params in
        Binds-append params params p.1 (ref table outer)
          (word (if negate then " NOT IN (SELECT " else " IN (SELECT ")
            ∷ ident from
            ∷ word "."
            ∷ ident select
            ∷ word " FROM "
            ∷ ident from
            ∷ word " WHERE "
            ∷ (p.0 ++ (word ")" ∷ [])))
          (ref-Binds table outer params)
          (closed params p.1 p.0 ")" (expr_lem where_ (some from) params))

    group_lem :
        (empty sep : String) (ps : Parts) (table : Option String) (params : List Cell)
        → Binds params (compile_group encode empty sep ps table params)
    group_lem empty sep nil table params = refl
    group_lem empty sep (cons e nil) table params = expr_lem e table params
    group_lem empty sep (cons e (cons f ps)) table params =
        let p = compile_expr encode e table params in
        let q = compile_more encode sep (cons f ps) table p.1 in
        Binds-append params p.1 q.1 p.0 (q.0 ++ (word ")" ∷ [])) (expr_lem e table params)
          (closed p.1 q.1 q.0 ")" (more_lem sep (cons f ps) table p.1))

    more_lem :
        (sep : String) (ps : Parts) (table : Option String) (params : List Cell)
        → Binds params (compile_more encode sep ps table params)
    more_lem sep nil table params = refl
    more_lem sep (cons e ps) table params =
        let p = compile_expr encode e table params in
        let q = compile_more encode sep ps table p.1 in
        Binds-append params p.1 q.1 p.0 q.0 (expr_lem e table params) (more_lem sep ps table p.1)

  compile_flags-Binds :
      (flags : List (String × SqlExpr)) (params : List Cell)
      → Binds params (compile_flags encode flags params)
  unfolding compile_flags numbered
  compile_flags-Binds [] params = refl
  compile_flags-Binds ((alias, e) ∷ flags) params =
      let p = compile_expr encode e none params in
      let q = compile_flags encode flags p.1 in
      Binds-append params p.1 q.1 p.0 (word " THEN 1 ELSE 0 END AS " ∷ ident alias ∷ q.0)
        (expr_lem e none params) (compile_flags-Binds flags p.1)

  compile_condition-Binds :
      (e : Option SqlExpr) (params : List Cell) → Binds params (compile_condition encode e params)
  unfolding compile_condition numbered
  compile_condition-Binds none params = refl
  compile_condition-Binds (some always) params = refl
  compile_condition-Binds (some never) params = expr_lem never none params
  compile_condition-Binds (some (cmp op c v)) params = expr_lem (cmp op c v) none params
  compile_condition-Binds (some (in_list c vs n)) params = expr_lem (in_list c vs n) none params
  compile_condition-Binds (some (is_null c n)) params = expr_lem (is_null c n) none params
  compile_condition-Binds (some (strmatch c s m)) params = expr_lem (strmatch c s m) none params
  compile_condition-Binds (some (conj ps)) params = expr_lem (conj ps) none params
  compile_condition-Binds (some (disj ps)) params = expr_lem (disj ps) none params
  compile_condition-Binds (some (negation e)) params = expr_lem (negation e) none params
  compile_condition-Binds (some (sub o f c w n)) params = expr_lem (sub o f c w n) none params

  -- The placeholders of a compiled predicate, subqueries included, are numbered one by one in the order
  -- of the text: the first follows the number of the parameters before it, and the last is the number
  -- of the parameters after it.
  pub compile_expr-Binds :
      (e : SqlExpr) (table : Option String) (params : List Cell)
      → Binds params (compile_expr encode e table params)
  compile_expr-Binds e table params = expr_lem e table params

  -- In a SELECT with flags, a condition, an order, a limit and an offset, the placeholders are numbered
  -- from 1 in the order of the text, and there are as many as parameters.
  pub compile_select-Binds : (spec : QuerySpec) → Binds [] (compile_select encode spec)
  unfolding compile_select numbered
  compile_select-Binds spec =
      let flags = compile_flags encode spec.flags [] in
      let condition = compile_condition encode spec.where_ flags.1 in
      let limit = limit_clause spec.limit spec.offset condition.1 in
      let offset = offset_clause spec.offset limit.1 in
      Binds-append [] [] offset.1 (select_list spec.columns) _ (select_list-Binds spec.columns []) (
        Binds-append [] flags.1 offset.1 flags.0 _ (compile_flags-Binds spec.flags []) (
          Binds-append flags.1 condition.1 offset.1 condition.0 _
            (compile_condition-Binds spec.where_ flags.1)
            (Binds-append condition.1 condition.1 offset.1 (order_clause spec.order_by) _
              (order_clause-Binds spec.order_by condition.1)
              (Binds-append condition.1 limit.1 offset.1 limit.0 offset.0
                (limit_clause-Binds spec.limit spec.offset condition.1)
                (offset_clause-Binds spec.offset limit.1)))))
