-- ===== src/Expr/Sql.antt =====
-- Predicates as SQL: `compileExpr`, `compileFlags`, `compileCount` and `compileSelect` of
-- packages/server/src/runtime/read-engine.ts.
--
-- A statement is the list of its pieces: text, an identifier that `dialect.id` renders, or the n-th
-- placeholder, which `dialect.placeholder` renders. `encode` is the dialect's coercion of a value.
pub mod Numbering
use Prim.Native.Char.{code}
use Prim.Native.String.{◌++◌ as append}
use pramen.Base.{
  ℕ, suc, String, Bool, true, false, eqb, ◌||◌, Option, none, some, List, [], ◌∷◌, ◌++◌, length,
  if◌then◌else◌,
}
use pramen.Cell.{Cell, null, boolean, number, text, object}
use pramen.Cell.Int.{ℤ}
use pramen.Expr.{
  CmpOp, eq, ne, gt, ge, lt, le, like, StrMode, SqlExpr, always, never, cmp, in_list, is_null,
  strmatch, conj, disj, negation, sub, Parts, nil, cons,
}

pub data Piece : Type 0 where
  word ident : String → Piece
  hole : ℕ → Piece

abbrev pub Compiled : Type 0
Compiled = List Piece × List Cell

-- A `SELECT`: an absent list is the empty one.
pub record QuerySpec : Type 0 where
  pub from : String
  pub where_ : Option SqlExpr
  pub order_by : List (String × Bool)
  pub limit : Option ℤ
  pub offset : Option ℤ
  pub columns : List String
  pub flags : List (String × SqlExpr)

unfoldable pub op_text : CmpOp → String
op_text eq = " = "
op_text ne = " != "
op_text gt = " > "
op_text ge = " >= "
op_text lt = " < "
op_text le = " <= "
op_text like = " LIKE "

-- `ref`: qualified where a table is given
unfoldable pub ref : Option String → String → List Piece
ref none col = ident col ∷ []
ref (some table) col = ident table ∷ word "." ∷ ident col ∷ []

-- `needle.replace(/[\\%_]/g, "\\$&")`
unfoldable pub escape : String → String
escape String.[] = String.[]
escape (String.◌∷◌ c s) =
    let rest = escape s in
    if eqb (code c) b'\\' || eqb (code c) b'%' || eqb (code c) b'_'
    then append "\\" (String.◌∷◌ c rest)
    else String.◌∷◌ c rest

unfoldable pub pattern_of : StrMode → String → String
unfolding escape
pattern_of StrMode.contains needle = append "%" (append (escape needle) "%")
pattern_of StrMode.prefix needle = append (escape needle) "%"
pattern_of StrMode.suffix needle = append "%" (escape needle)

unfoldable pub more_columns : List String → List Piece
more_columns [] = []
more_columns (c ∷ cs) = word ", " ∷ ident c ∷ more_columns cs

unfoldable pub select_list : List String → List Piece
unfolding more_columns
select_list [] = word "*" ∷ []
select_list (c ∷ cs) = ident c ∷ more_columns cs

-- a column of the order, with whether it is descending
unfoldable pub order_item : String × Bool → List Piece
order_item (col, desc) = ident col ∷ word (if desc then " DESC" else " ASC") ∷ []

unfoldable pub more_order : List (String × Bool) → List Piece
unfolding order_item
more_order [] = []
more_order (o ∷ os) = word ", " ∷ order_item o ++ more_order os

unfoldable pub order_clause : List (String × Bool) → List Piece
unfolding order_item more_order
order_clause [] = []
order_clause (o ∷ os) = word " ORDER BY " ∷ order_item o ++ more_order os

-- `params.push(v)`, with the placeholder that it gets
unfoldable pub push : Cell → List Cell → Compiled
push v params = (hole (suc (length params)) ∷ [], params ++ v ∷ [])

unfoldable pub limit_clause : Option ℤ → Option ℤ → List Cell → Compiled
unfolding push
limit_clause (some n) offset params =
    let (sql, now) = push (number n) params in (word " LIMIT " ∷ sql, now)
limit_clause none (some m) params = (word " LIMIT -1" ∷ [], params)
limit_clause none none params = ([], params)

unfoldable pub offset_clause : Option ℤ → List Cell → Compiled
unfolding push
offset_clause none params = ([], params)
offset_clause (some n) params =
    let (sql, now) = push (number n) params in (word " OFFSET " ∷ sql, now)

module _ (encode : Cell → Cell) where
  unfoldable pub more_values : List Cell → List Cell → Compiled
  unfolding push
  more_values [] params = ([], params)
  more_values (v ∷ vs) params =
      let (sql, now) = push (encode v) params in
      let (rest, last) = more_values vs now in (word ", " ∷ sql ++ rest, last)

  unfoldable pub compile_in : List Piece → Bool → List Cell → List Cell → Compiled
  unfolding push more_values
  compile_in column negate [] params = (word (if negate then "1" else "0") ∷ [], params)
  compile_in column negate (v ∷ vs) params =
      let (sql, now) = push (encode v) params in
      let (rest, last) = more_values vs now in
      (
        column
            ++ (word (if negate then " NOT IN (" else " IN (")
                ∷ (sql ++ (rest ++ (word ")" ∷ [])))),
        last,
      )

  unfoldable pub compile_cmp : List Piece → CmpOp → Cell → List Cell → Compiled
  unfolding push op_text
  compile_cmp column op null params = (word "0" ∷ [], params)
  compile_cmp column op v params =
      let (sql, now) = push (encode v) params in (column ++ word (op_text op) ∷ sql, now)

  unfoldable mutual
    unfolding ref compile_in compile_cmp push pattern_of

    pub compile_expr : SqlExpr → Option String → List Cell → Compiled
    compile_expr always table params = (word "1" ∷ [], params)
    compile_expr never table params = (word "0" ∷ [], params)
    compile_expr (cmp op col v) table params = compile_cmp (ref table col) op v params
    compile_expr (is_null col negate) table params =
        (ref table col ++ word (if negate then " IS NOT NULL" else " IS NULL") ∷ [], params)
    compile_expr (strmatch col needle mode) table params =
        let (sql, now) = push (encode (text (pattern_of mode needle))) params in
        (ref table col ++ (word " LIKE " ∷ (sql ++ (word " ESCAPE '\\'" ∷ []))), now)
    compile_expr (in_list col values negate) table params =
        compile_in (ref table col) negate values params
    compile_expr (conj ps) table params = compile_group "1" " AND " ps table params
    compile_expr (disj ps) table params = compile_group "0" " OR " ps table params
    compile_expr (negation e) table params =
        let (sql, now) = compile_expr e table params in (word "NOT (" ∷ sql ++ word ")" ∷ [], now)
    compile_expr (sub outer from select where_ negate) table params =
        let (sql, now) = compile_expr where_ (some from) params in
        (
          ref table outer
              ++ (word (if negate then " NOT IN (SELECT " else " IN (SELECT ")
                  ∷ ident from
                  ∷ word "."
                  ∷ ident select
                  ∷ word " FROM "
                  ∷ ident from
                  ∷ word " WHERE "
                  ∷ (sql ++ (word ")" ∷ []))),
          now,
        )

    pub compile_group : String → String → Parts → Option String → List Cell → Compiled
    compile_group empty sep nil table params = (word empty ∷ [], params)
    compile_group empty sep (cons e nil) table params = compile_expr e table params
    compile_group empty sep (cons e (cons f ps)) table params =
        let (sql, now) = compile_expr e table params in
        let (rest, last) = compile_more sep (cons f ps) table now in
        (word "(" ∷ (sql ++ (rest ++ (word ")" ∷ []))), last)

    pub compile_more : String → Parts → Option String → List Cell → Compiled
    compile_more sep nil table params = ([], params)
    compile_more sep (cons e ps) table params =
        let (sql, now) = compile_expr e table params in
        let (rest, last) = compile_more sep ps table now in (word sep ∷ sql ++ rest, last)

  -- `compileFlags`, the items joined by ", " and each after one: computed 0/1 columns
  unfoldable pub compile_flags : List (String × SqlExpr) → List Cell → Compiled
  unfolding compile_expr
  compile_flags [] params = ([], params)
  compile_flags ((alias, e) ∷ flags) params =
      let (sql, now) = compile_expr e none params in
      let (rest, last) = compile_flags flags now in
      (word ", CASE WHEN " ∷ (sql ++ (word " THEN 1 ELSE 0 END AS " ∷ ident alias ∷ rest)), last)

  -- the WHERE clause; a predicate that is `true` has none
  unfoldable pub compile_condition : Option SqlExpr → List Cell → Compiled
  unfolding compile_expr
  compile_condition none params = ([], params)
  compile_condition (some always) params = ([], params)
  compile_condition (some e) params =
      let (sql, now) = compile_expr e none params in (word " WHERE " ∷ sql, now)

  -- `compileCount`
  unfoldable pub compile_count : String → Option SqlExpr → Compiled
  unfolding compile_condition
  compile_count from where_ =
      let (sql, params) = compile_condition where_ [] in
      (word "SELECT COUNT(*) AS n FROM " ∷ ident from ∷ sql, params)

  -- `compileSelect`
  unfoldable pub compile_select : QuerySpec → Compiled
  unfolding select_list compile_flags compile_condition order_clause limit_clause offset_clause
  compile_select spec =
      let (flags, p1) = compile_flags spec.flags [] in
      let (condition, p2) = compile_condition spec.where_ p1 in
      let (limit, p3) = limit_clause spec.limit spec.offset p2 in
      let (offset, p4) = offset_clause spec.offset p3 in
      (
        word "SELECT "
            ∷ (select_list spec.columns
                ++ (flags
                    ++ (word " FROM "
                        ∷ ident spec.from
                        ∷ (condition ++ (order_clause spec.order_by ++ (limit ++ offset)))))),
        p4,
      )
