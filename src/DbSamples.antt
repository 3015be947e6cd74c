-- ===== src/DbSamples.antt =====
-- Test data for the class `Db`: an engine that compares numbers and texts, and binds a boolean as a
-- number; a table of posts, and a policy on it.
use pramen.Base.{
  ℕ, zero, suc, String, ◌≡◌, refl, Bool, true, false, ◌&&◌, ◌==◌, eq_iff, Option, none, some, List,
  [], ◌∷◌, lookup, read, create, delete,
}
use pramen.Cell.{Cell, null, boolean, number, text, object, Row, Host}
use pramen.Expr.{
  SqlExpr, cmp, eq, is_null, conj, disj, negation, sub, in_list, strmatch, always, never, nil, cons,
  and, Parts, columns_in_expr,
}
use pramen.Schema.{FieldDef, FieldType, EntityDef}
use pramen.Where.{entry, end, cell}
use pramen.Acl.{PolicyRules, rules}
use pramen.Base.{ap, subst, not, eqb, if◌then◌else◌, arith}
use pramen.Cell.Int.{ℤ, pos, negsuc}
use pramen.Schema.{SchemaDef}
use pramen.Acl.Policies.{put}
use pramen.Db.{Engine, Env, Store, Database, rows_of}
use pramen.Db.Update.Guard.{comparable}
use pramen.Db.Selected.{Conjoins, Removes, without, all_match}
use pramen.Db.Queries.Rows.{Orders}
use pramen.Db.Update.Guard.{Compares}

-- what an engine makes of `=` and IS NULL, and of conjunctions; a boolean is bound as 0 or 1
unfoldable pub bound : Cell → Cell
bound (boolean true) = number (pos 1)
bound (boolean false) = number (pos 0)
bound v = v

unfoldable pub same_number : ℤ → ℤ → Bool
same_number (pos m) (pos n) = eqb m n
same_number (negsuc m) (negsuc n) = eqb m n
same_number m n = false

unfoldable pub same_cell : Cell → Option Cell → Bool
unfolding same_number
same_cell (text s) (some (text t)) = t == s
same_cell (number m) (some (number n)) = same_number n m
same_cell v o = false

unfoldable pub holds_null : Option Cell → Bool
holds_null (some null) = true
holds_null _ = false

unfoldable mutual
  unfolding bound same_cell holds_null lookup

  pub selects : SqlExpr → Row → Bool
  selects always row = true
  selects (cmp eq c v) row = same_cell (bound v) (lookup c row)
  selects (is_null c negate) row =
      if negate then not (holds_null (lookup c row)) else holds_null (lookup c row)
  selects (conj ps) row = selects_all ps row
  selects _ row = false

  pub selects_all : Parts → Row → Bool
  selects_all nil row = true
  selects_all (cons e ps) row = selects e row && selects_all ps row

-- the base64 of the JSON of two lists, the second with padding and both odd characters of the alphabet
unfoldable pub packed : List Cell → Option String
packed (text s ∷ []) =
    if s == "p1" then some "WyJwMSJd" else if s == "~aa?" then some "WyJ+YWE/Il0=" else none
packed vs = none

unfoldable pub unpacked : String → Option (List Cell)
unpacked s =
    if s == "WyJwMSJd"
    then some (text "p1" ∷ [])
    else if s == "WyJ+YWE/Il0"
    then some (text "~aa?" ∷ [])
    else none

abbrev pub engine : Engine
engine = record {
  matches = λ db table e row. selects e row;
  ordered = λ order rows. rows;
  filled = λ db table row. row;
  accepts = λ db table rows. true;
  removed = λ db table e. some (put table (without (selects e) (rows_of db table)) db);
  encode = bound;
  stringify = λ v. "";
  parse = λ s. none;
  pack = packed;
  unpack = unpacked;
  grouped = λ group aggregations rows. [];
}

same_number-path : (m n : ℤ) → same_number m n ≡ true → m ≡ n
unfolding same_number
same_number-path (pos m) (pos n) h = ap pos (ground (arith, h))
same_number-path (negsuc m) (negsuc n) h = ap negsuc (ground (arith, h))
same_number-path (pos m) (negsuc n) h = cc
same_number-path (negsuc m) (pos n) h = cc

same_cell-path : (v w : Cell) → comparable v w ≡ true → same_cell (bound v) (some w) ≡ true → w ≡ v
unfolding same_cell bound comparable
same_cell-path null w k h = cc
same_cell-path (text s) (text t) k h = ap text ((eq_iff t s).0 h)
same_cell-path (text s) null k h = cc
same_cell-path (text s) (boolean b) k h = cc
same_cell-path (text s) (number n) k h = cc
same_cell-path (text s) (object p) k h = cc
same_cell-path (number m) (number n) k h = ap number (same_number-path n m h)
same_cell-path (number m) null k h = cc
same_cell-path (number m) (boolean b) k h = cc
same_cell-path (number m) (text t) k h = cc
same_cell-path (number m) (object p) k h = cc
same_cell-path (boolean b) w k h = cc
same_cell-path (object p) w k h = cc

holds_null-path : (w : Cell) → holds_null (some w) ≡ true → w ≡ null
unfolding holds_null
holds_null-path null h = refl
holds_null-path (text t) h = cc
holds_null-path (boolean b) h = cc
holds_null-path (number n) h = cc
holds_null-path (object p) h = cc

selects-parts :
    (db : Database) (table : String) (es : List SqlExpr) (row : Row)
    → selects (and es) row ≡ all_match engine db table es row
unfolding selects pramen.Expr.parts_of all_match
selects-parts db table [] row = refl
selects-parts db table (e ∷ es) row = ap (λ b. selects e row && b) (selects-parts db table es row)

pub engine-Conjoins : Conjoins engine
unfolding selects
engine-Conjoins = record { each_part = selects-parts }

pub engine-Compares : Compares engine
unfolding selects
engine-Compares = record {
  same_value = λ db table c v w row k e h.
      same_cell-path v w k (subst (λ o. same_cell (bound v) o ≡ true) e h);
  null_value = λ db table c w row e h. holds_null-path w (subst (λ o. holds_null o ≡ true) e h);
}

pub engine-Removes : (schema : SchemaDef) → Removes engine schema
engine-Removes schema = record { own_rows = λ db table e h. refl }

pub engine-Orders : Orders engine
engine-Orders = record { only_given = λ P order rows h. h }

abbrev pub host : Host
host = record { number_of = λ s. none; printed = λ v. ""; fold = λ c. c; lower = λ s. s }

abbrev pub plain_field : FieldDef
plain_field = record {
  type = FieldType.text;
  primary_key = false;
  auto_increment = false;
  not_null = false;
  unique = false;
  index = false;
  generated = false;
  default = none;
  default_expr = none;
  renamed_from = none;
  hidden = false;
}

abbrev pub posts : EntityDef
posts = record {
  fields =
      ("id", record plain_field { primary_key = true })
      ∷ ("author_id", plain_field)
      ∷ ("token", record plain_field { hidden = true })
      ∷ [];
  relations = [];
  partition = "default";
  triggers = [];
  uniques = [];
}

-- a post of u1, as it is, and with the token that each round of another's writes gives it; and one of another author
abbrev pub post : Row
post = ("id", text "p1") ∷ ("author_id", text "u1") ∷ ("token", text "t") ∷ []

unfoldable pub with_token : ℕ → Row
with_token (suc zero) = ("id", text "p1") ∷ ("author_id", text "u1") ∷ ("token", text "x") ∷ []
with_token (suc (suc zero)) =
    ("id", text "p1") ∷ ("author_id", text "u1") ∷ ("token", text "y") ∷ []
with_token n = ("id", text "p1") ∷ ("author_id", text "u1") ∷ ("token", text "z") ∷ []

-- everyone may do everything with the posts of the author u1
abbrev pub of_author : PolicyRules
of_author = record {
  where_ = entry "author_id" (cell (text "u1")) end;
  check = none;
  fields = none;
  conditional_fields = [];
  fields_fn = none;
  relations = [];
  set = [];
  validate = none;
}

abbrev pub env : Env
env = record {
  acl = record {
    acl =
        (
          "anonymous",
          (("post", read), rules of_author ∷ [])
              ∷ (("post", create), rules of_author ∷ [])
              ∷ (("post", delete), rules of_author ∷ [])
              ∷ [],
        )
        ∷ [];
    identity = none;
    input = none;
    resolved = [];
    system = false;
    schema = ("post", posts) ∷ [];
    now = "2026-01-01T00:00:00.000Z";
    host = host;
    objects = record { inherited = λ j s. none; reference = λ v. 0 };
  };
  partition = none;
  suppress_triggers = false;
  engine = engine;
  now = 0;
  mint = λ n. "m";
  payload = λ entity op id row. "{}";
  others = λ n db. ("post", with_token n ∷ []) ∷ [];
}

abbrev pub other_post : Row
other_post = ("id", text "p2") ∷ ("author_id", text "u2") ∷ ("token", text "t") ∷ []

abbrev pub store : Store
store = record {
  tables = ("post", post ∷ other_post ∷ []) ∷ [];
  outbox = [];
  touched = [];
  task_enqueues = 0;
  minted = 0;
}
