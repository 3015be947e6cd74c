-- ===== src/Db/Preimage/Clauses.antt =====
-- What the clauses of `preimageGuard` assert: the columns of each admission, and each flag that held.
use pramen.Base.{
  String, ◌≡◌, sym, subst, true, Option, none, some, List, [], ◌∷◌, ◌++◌, contains, All, ok,
  ok-injective, >>=-eq-ok,
}
use pramen.Cell.{Row}
use pramen.Expr.{SqlExpr}
use pramen.Expr.Columns.{columns-keep}
use pramen.Acl.Merge.{BoundGrant, RowPredicate}
use pramen.Acl.Fields.{predicate_holds}
use pramen.Db.{Env}
use pramen.Db.Preimage.{
  predicate_columns, grant_columns, held_flag, held_admission, held_admissions,
}

module _ {ℓ} {A : Type ℓ} (P : A → Type 0) where
  pub All-left : (xs ys : List A) → All P (xs ++ ys) → All P xs
  All-left [] ys h = tt
  All-left (x ∷ xs) ys (h, hs) = (h, All-left xs ys hs)

  pub All-right : (xs ys : List A) → All P (xs ++ ys) → All P ys
  All-right [] ys h = h
  All-right (x ∷ xs) ys (h, hs) = All-right xs ys hs

pub predicate_columns-keep :
    (p : Option RowPredicate) (out : List String) (c : String)
    → contains c out ≡ true
    → contains c (predicate_columns p out) ≡ true
unfolding predicate_columns
predicate_columns-keep none out c h = h
predicate_columns-keep (some p) out c h = columns-keep p.expr out c h

pub grant_columns-keep :
    (gs : List BoundGrant) (out : List String) (c : String)
    → contains c out ≡ true
    → contains c (grant_columns gs out) ≡ true
unfolding grant_columns
grant_columns-keep [] out c h = h
grant_columns-keep (g ∷ gs) out c h =
    grant_columns-keep gs (predicate_columns g.admit (predicate_columns g.check out)) c (
      predicate_columns-keep g.admit (predicate_columns g.check out) c
        (predicate_columns-keep g.check out c h))

-- what the columns of a grant's admission were added to
pub columns_before : List BoundGrant → BoundGrant → List String → List String
columns_before [] g out = predicate_columns g.check out
columns_before (b ∷ bs) g out =
    columns_before bs g (predicate_columns b.admit (predicate_columns b.check out))

pub grant_columns-has :
    (before rest : List BoundGrant) (g : BoundGrant) (out : List String) (c : String)
    → contains c (predicate_columns g.admit (columns_before before g out)) ≡ true
    → contains c (grant_columns (before ++ g ∷ rest) out) ≡ true
unfolding grant_columns columns_before
grant_columns-has [] rest g out c h =
    grant_columns-keep rest (predicate_columns g.admit (predicate_columns g.check out)) c h
grant_columns-has (b ∷ bs) rest g out c h =
    grant_columns-has bs rest g (predicate_columns b.admit (predicate_columns b.check out)) c h

-- what a flagged predicate that held adds
pub held_flag-holds :
    (env : Env) (p : RowPredicate) (f : Option String) (flag : String) (stored : Row)
    (es : List SqlExpr)
    → f ≡ some flag
    → predicate_holds env.acl.host (some p) stored ≡ ok true
    → held_flag env p f stored ≡ ok es
    → es ≡ p.expr ∷ []
unfolding held_flag
held_flag-holds env p none flag stored es f held h = cc
held_flag-holds env p (some g) flag stored es f held h = sym (ok-injective (rw held at h))

pub held_admission-holds :
    (env : Env) (admit : Option RowPredicate) (p : RowPredicate) (flag : String) (stored : Row)
    (es : List SqlExpr)
    → admit ≡ some p
    → p.flag ≡ some flag
    → predicate_holds env.acl.host (some p) stored ≡ ok true
    → held_admission env admit stored ≡ ok es
    → es ≡ p.expr ∷ []
unfolding held_admission
held_admission-holds env admit p flag stored es a f held h =
    held_flag-holds env p p.flag flag stored es f held
      (subst (λ o. held_admission env o stored ≡ ok es) a h)

-- the admission of a grant that held is among the guard's clauses
pub held_admissions-has :
    (env : Env) (before rest : List BoundGrant) (g : BoundGrant) (stored : Row) (es : List SqlExpr)
    (P : SqlExpr → Type 0) (p : RowPredicate) (flag : String)
    → held_admissions env (before ++ g ∷ rest) stored ≡ ok es
    → All P es
    → g.admit ≡ some p
    → p.flag ≡ some flag
    → predicate_holds env.acl.host (some p) stored ≡ ok true
    → P p.expr
unfolding held_admissions
held_admissions-has env [] rest g stored es P p flag h all a f held =
    let (mine, m, k) = >>=-eq-ok (held_admission env g.admit stored) _ h in
    let (more, _, j) = >>=-eq-ok (held_admissions env rest stored) _ k in
    let both : All P (mine ++ more) = subst (All P) (sym (ok-injective j)) all in
    let own = held_admission-holds env g.admit p flag stored mine a f held m in
    (subst (All P) own (All-left P mine more both)).0
held_admissions-has env (b ∷ bs) rest g stored es P p flag h all a f held =
    let (mine, m, k) = >>=-eq-ok (held_admission env b.admit stored) _ h in
    let (more, r, j) = >>=-eq-ok (held_admissions env (bs ++ g ∷ rest) stored) _ k in
    held_admissions-has env bs rest g stored more P p flag r
      (All-right P mine more (subst (All P) (sym (ok-injective j)) all)) a f held
