-- ===== src/Expr/Columns.antt =====
-- `evalExpr` reads only the columns that `columnsInExpr` lists (runtime/read-engine.ts).
use pramen.Base.{
  String, ◌≡◌, refl, ap, Bool, true, false, eq_iff, List, add, contains, contains-add, lookup,
  Result, ok, ◌>>=◌, if◌then◌else◌, arith, not,
}
use pramen.Cell.{Row, Host}
use pramen.Expr.{
  SqlExpr, always, never, cmp, in_list, is_null, strmatch, conj, disj, negation, sub, Parts, nil,
  cons, columns_in_expr, columns_in_parts,
}
use pramen.Expr.Eval.{eval_cmp, eval_in, eval_strmatch, eval_null, eval_expr, eval_every, eval_some}

-- The rows hold the same in each column listed.
unfoldable pub Agree : List String → Row → Row → Type 0
Agree cs r r' = (c : String) → contains c cs ≡ true → lookup c r ≡ lookup c r'

add-keeps : (c d : String) (cs : List String) → contains c cs ≡ true → contains c (add d cs) ≡ true
add-keeps c d cs h = ground (arith, contains-add c d cs)

add-has : (c : String) (cs : List String) → contains c (add c cs) ≡ true
add-has c cs = ground (arith, contains-add c c cs, eq_iff c c)

mutual
  unfolding columns_in_expr

  pub columns-keep :
      (e : SqlExpr) (out : List String) (c : String)
      → contains c out ≡ true
      → contains c (columns_in_expr e out) ≡ true
  columns-keep always out c h = h
  columns-keep never out c h = h
  columns-keep (cmp op col v) out c h = add-keeps c col out h
  columns-keep (in_list col vs n) out c h = add-keeps c col out h
  columns-keep (is_null col n) out c h = add-keeps c col out h
  columns-keep (strmatch col s m) out c h = add-keeps c col out h
  columns-keep (conj ps) out c h = parts-keep ps out c h
  columns-keep (disj ps) out c h = parts-keep ps out c h
  columns-keep (negation e) out c h = columns-keep e out c h
  columns-keep (sub o f s w n) out c h = add-keeps c o out h

  parts-keep :
      (ps : Parts) (out : List String) (c : String)
      → contains c out ≡ true
      → contains c (columns_in_parts ps out) ≡ true
  parts-keep nil out c h = h
  parts-keep (cons e ps) out c h = parts-keep ps (columns_in_expr e out) c (columns-keep e out c h)

add_mono :
    (c d : String) (out out' : List String)
    → (contains c out ≡ true → contains c out' ≡ true)
    → contains c (add d out) ≡ true
    → contains c (add d out') ≡ true
add_mono c d out out' m h = ground (arith, contains-add c d out, contains-add c d out')

mutual
  unfolding columns_in_expr

  pub columns_mono :
      (e : SqlExpr) (out out' : List String)
      → ((c : String) → contains c out ≡ true → contains c out' ≡ true)
      → (c : String) → contains c (columns_in_expr e out) ≡ true
      → contains c (columns_in_expr e out') ≡ true
  columns_mono always out out' m c h = m c h
  columns_mono never out out' m c h = m c h
  columns_mono (cmp op col v) out out' m c h = add_mono c col out out' (m c) h
  columns_mono (in_list col vs n) out out' m c h = add_mono c col out out' (m c) h
  columns_mono (is_null col n) out out' m c h = add_mono c col out out' (m c) h
  columns_mono (strmatch col s k) out out' m c h = add_mono c col out out' (m c) h
  columns_mono (conj ps) out out' m c h = parts_mono ps out out' m c h
  columns_mono (disj ps) out out' m c h = parts_mono ps out out' m c h
  columns_mono (negation e) out out' m c h = columns_mono e out out' m c h
  columns_mono (sub o f s w n) out out' m c h = add_mono c o out out' (m c) h

  parts_mono :
      (ps : Parts) (out out' : List String)
      → ((c : String) → contains c out ≡ true → contains c out' ≡ true)
      → (c : String) → contains c (columns_in_parts ps out) ≡ true
      → contains c (columns_in_parts ps out') ≡ true
  parts_mono nil out out' m c h = m c h
  parts_mono (cons e ps) out out' m c h =
      parts_mono ps (columns_in_expr e out) (columns_in_expr e out') (columns_mono e out out' m) c h

step_every :
    (b b' r r' : Result Bool)
    → b ≡ b'
    → r ≡ r'
    → (b >>= λ x. if x then r else ok false) ≡ (b' >>= λ x. if x then r' else ok false)
step_every b b' r r' e f = rw (e, f) refl

step_some :
    (b b' r r' : Result Bool)
    → b ≡ b'
    → r ≡ r'
    → (b >>= λ x. if x then ok true else r) ≡ (b' >>= λ x. if x then ok true else r')
step_some b b' r r' e f = rw (e, f) refl

module _ (host : Host) (r r' : Row) where
  mutual
    unfolding eval_expr columns_in_expr Agree

    pub columns_lem :
        (e : SqlExpr) (out : List String)
        → Agree (columns_in_expr e out) r r'
        → eval_expr host e r ≡ eval_expr host e r'
    columns_lem always out h = refl
    columns_lem never out h = refl
    columns_lem (cmp op col v) out h = ap (λ x. ok (eval_cmp host op x v)) (h col (add-has col out))
    columns_lem (in_list col vs n) out h =
        ap (λ x. ok (eval_in host x vs n)) (h col (add-has col out))
    columns_lem (is_null col n) out h = ap (λ x. ok (eval_null host x n)) (h col (add-has col out))
    columns_lem (strmatch col s m) out h =
        ap (λ x. ok (eval_strmatch host x s m)) (h col (add-has col out))
    columns_lem (conj ps) out h = every_lem ps out h
    columns_lem (disj ps) out h = some_lem ps out h
    columns_lem (negation e) out h = ap (λ x. x >>= λ b. ok (not b)) (columns_lem e out h)
    columns_lem (sub o f s w n) out h = refl

    every_lem :
        (ps : Parts) (out : List String)
        → Agree (columns_in_parts ps out) r r'
        → eval_every host ps r ≡ eval_every host ps r'
    every_lem nil out h = refl
    every_lem (cons e ps) out h =
        step_every (eval_expr host e r) (eval_expr host e r') (eval_every host ps r)
          (eval_every host ps r')
          (columns_lem e out λ c k. h c (parts-keep ps (columns_in_expr e out) c k))
          (every_lem ps (columns_in_expr e out) h)

    some_lem :
        (ps : Parts) (out : List String)
        → Agree (columns_in_parts ps out) r r'
        → eval_some host ps r ≡ eval_some host ps r'
    some_lem nil out h = refl
    some_lem (cons e ps) out h =
        step_some (eval_expr host e r) (eval_expr host e r') (eval_some host ps r)
          (eval_some host ps r')
          (columns_lem e out λ c k. h c (parts-keep ps (columns_in_expr e out) c k))
          (some_lem ps (columns_in_expr e out) h)
