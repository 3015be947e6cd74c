-- ===== src/Acl/Merge.antt =====
-- `mergeGrants` of runtime/acl.ts: the grants of the matched policies, OR-merged into a scope in
-- which a grant's fields stay bound to the rows that the grant admits.
pub mod Bind
pub mod Loop
pub mod BaseFields
pub mod Rows
pub mod Correct
pub mod Checked
use Prim.Native.String.{◌++◌ as append}
use pramen.Base.{
  ℕ, zero, suc, ◌+◌, ◌/◌, ◌%◌, String, Bool, true, false, not, ◌&&◌, ◌||◌, eqb, ltb, Option, none,
  some, List, [], ◌∷◌, ◌++◌, length, any, keep, contains, add_all, set_of, if◌then◌else◌,
}
use pramen.Expr.{SqlExpr, always, has_sub, or}
use pramen.Acl.{FieldsFn}

-- `fields` apply on the rows where `when` holds
pub record ConditionalGrant : Type 0 where
  pub when : SqlExpr
  pub fields : List String

-- One policy's grant before the merge; no fields is every column.
pub record Grant : Type 0 where
  pub where_ : Option SqlExpr
  pub fields : Option (List String)
  pub conditional : List ConditionalGrant
  pub fields_fns : List FieldsFn
  pub check : Option SqlExpr

-- A predicate that traverses a relation is computed in SQL, as the column `flag`.
pub record RowPredicate : Type 0 where
  pub expr : SqlExpr
  pub flag : Option String

pub record BoundGrant : Type 0 where
  pub admit : Option RowPredicate
  pub check : Option RowPredicate
  pub fields : Option (List String)
  pub conditional : List ConditionalGrant
  pub fields_fns : List FieldsFn

pub record Scope : Type 0 where
  pub allowed : Bool
  pub where_ : Option SqlExpr
  pub fields : Option (List String)
  pub grants : List BoundGrant

abbrev pub allow_all : Scope
allow_all = record { allowed = true; where_ = none; fields = none; grants = [] }

abbrev pub denied : Scope
denied = record { allowed = false; where_ = none; fields = none; grants = [] }

abbrev pub allow_grant : Grant
allow_grant = record {
  where_ = none;
  fields = none;
  conditional = [];
  fields_fns = [];
  check = none;
}

digit : ℕ → String
digit n =
    if eqb n 0
    then "0"
    else if eqb n 1
    then "1"
    else if eqb n 2
    then "2"
    else if eqb n 3
    then "3"
    else if eqb n 4
    then "4"
    else if eqb n 5
    then "5"
    else if eqb n 6
    then "6"
    else if eqb n 7
    then "7"
    else if eqb n 8
    then "8"
    else "9"

numeral : ℕ → ℕ → String
unfolding digit
numeral zero n = ""
numeral (suc fuel) n =
    let front = numeral fuel (n / 10) in if ltb n 10 then digit n else append front (digit (n % 10))

unfoldable pub flag_name : ℕ → String
unfolding numeral
flag_name n = append "__pramen_acl_" (numeral (suc n) n)

unfoldable pub is_always : SqlExpr → Bool
is_always always = true
is_always _ = false

unfoldable pub admits_all : Option SqlExpr → Bool
unfolding is_always
admits_all none = true
admits_all (some e) = is_always e

unfoldable pub present {ℓ} : {A : Type ℓ} → Option A → Bool
present none = false
present (some a) = true

-- `isRowWide`
abbrev pub is_row_wide : Grant → Bool
is_row_wide g = admits_all g.where_

-- the predicates of the grants that are not row-wide
unfoldable pub restricted : List Grant → List SqlExpr
unfolding admits_all
restricted [] = []
restricted (g ∷ gs) = elim g.where_ [
  | none ↦ restricted gs
  | some e ↦ let rest = restricted gs in if is_always e then rest else e ∷ rest
]

unfoldable pub single_or_group : List SqlExpr → SqlExpr
single_or_group (e ∷ []) = e
single_or_group es = or es

unfoldable pub merged_where : List Grant → Option SqlExpr
unfolding restricted single_or_group
merged_where gs =
    if ltb (length (restricted gs)) (length gs)
    then none
    else some (single_or_group (restricted gs))

-- the fields that every grant lists; `none` while no grant restricts them
unfoldable pub every_step : Option (List String) → Option (List String) → Option (List String)
unfolding set_of keep
every_step none every = every
every_step (some fs) none = some (set_of fs)
every_step (some fs) (some ev) = some (set_of (keep (λ f. contains f ev) fs))

unfoldable pub every_of : List Grant → Option (List String) → Option (List String)
unfolding every_step
every_of [] every = every
every_of (g ∷ gs) every = every_of gs (every_step g.fields every)

-- the fields of the grants that admit every row and carry no check; `none` is every field
unfoldable pub wide_step : Bool → Option (List String) → Option (List String) → Option (List String)
unfolding add_all
wide_step false fields wide = wide
wide_step true fields none = none
wide_step true none (some w) = none
wide_step true (some fs) (some w) = some (add_all fs w)

unfoldable pub wide_of : List Grant → Option (List String) → Option (List String)
unfolding wide_step admits_all present
wide_of [] wide = wide
wide_of (g ∷ gs) wide =
    wide_of gs (wide_step (is_row_wide g && not (present g.check)) g.fields wide)

unfoldable pub join_base : Option (List String) → Option (List String) → Option (List String)
unfolding set_of
join_base (some every) (some wide) = some (set_of (every ++ wide))
join_base _ _ = none

unfoldable pub base_fields : List Grant → Option (List String)
unfolding join_base every_of wide_of
base_fields gs = join_base (every_of gs none) (wide_of gs (some []))

-- `pred`, at the count of the flags so far
unfoldable pub predicate : ℕ → SqlExpr → RowPredicate
unfolding has_sub flag_name
predicate n e = record { expr = e; flag = if has_sub e then some (flag_name n) else none }

unfoldable pub count_flag : ℕ → Option SqlExpr → ℕ
unfolding has_sub
count_flag n none = n
count_flag n (some e) = if has_sub e then n + 1 else n

unfoldable pub bind_predicate : ℕ → Option SqlExpr → Option RowPredicate
unfolding predicate
bind_predicate n none = none
bind_predicate n (some e) = some (predicate n e)

-- the predicate that admits a grant's rows, if it needs one
unfoldable pub admission : Bool → Grant → Option SqlExpr
unfolding admits_all
admission single g = if single || is_row_wide g then none else g.where_

-- a grant's fields beyond the base
unfoldable pub extra_fields : Option (List String) → Option (List String) → Option (List String)
unfolding keep
extra_fields none fields = some []
extra_fields (some base) none = none
extra_fields (some base) (some fs) = some (keep (λ f. not (contains f base)) fs)

is_empty {ℓ} : {A : Type ℓ} → List A → Bool
is_empty [] = true
is_empty (x ∷ xs) = false

is_empty_list : Option (List String) → Bool
unfolding is_empty
is_empty_list none = false
is_empty_list (some xs) = is_empty xs

unfoldable pub adds_nothing : Option (List String) → Grant → Bool
unfolding extra_fields is_empty_list is_empty
adds_nothing base g =
    is_empty_list (extra_fields base g.fields) && is_empty g.conditional && is_empty g.fields_fns

unfoldable pub bound : Option (List String) → Bool → ℕ → Grant → BoundGrant
unfolding extra_fields bind_predicate admission count_flag
bound base single n g = record {
  admit = bind_predicate n (admission single g);
  check = bind_predicate (count_flag n (admission single g)) g.check;
  fields = extra_fields base g.fields;
  conditional = g.conditional;
  fields_fns = g.fields_fns;
}

-- the loop that binds the grants; `checked` is the source's `hasCheck`
unfoldable pub bind_grants : Option (List String) → Bool → Bool → ℕ → List Grant → List BoundGrant
unfolding bound adds_nothing count_flag admission
bind_grants base checked single n [] = []
bind_grants base checked single n (g ∷ gs) =
    let skip = adds_nothing base g && not checked in
    let next = if skip then n else count_flag (count_flag n (admission single g)) g.check in
    let rest = bind_grants base checked single next gs in
    if skip then rest else bound base single n g ∷ rest

unfoldable pub any_check : List Grant → Bool
unfolding any present
any_check gs = any (λ g. present g.check) gs

-- the bound grants of a scope, if there is a base to add to or a check to make
unfoldable pub grants_of : Option (List String) → Bool → List Grant → List BoundGrant
unfolding bind_grants present
grants_of base checked gs =
    if present base || checked then bind_grants base checked (eqb (length gs) 1) 0 gs else []

unfoldable pub merge_grants : List Grant → Scope
unfolding merged_where base_fields grants_of any_check
merge_grants [] = denied
merge_grants (g ∷ gs) = record {
  allowed = true;
  where_ = merged_where (g ∷ gs);
  fields = base_fields (g ∷ gs);
  grants = grants_of (base_fields (g ∷ gs)) (any_check (g ∷ gs)) (g ∷ gs);
}
