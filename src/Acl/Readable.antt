-- ===== src/Acl/Readable.antt =====
-- `assertReadableCol` and `assertReadableWhereKeys` of runtime/acl.ts: what a caller's own filter
-- may name. A caller's clause is JSON: it holds no marker.
use pramen.Base.{
  String, Bool, true, false, not, ◌&&◌, ◌||◌, ◌==◌, Option, none, some, List, lookup, contains,
  read, Result, ok, err, bad_request, acl_denied, guard, ◌>>◌, if◌then◌else◌,
}
use pramen.Cell.{null}
use pramen.Schema.{SchemaDef, EntityDef, FieldDef, RelationKind, belongs_to, one_has_one}
use pramen.Where.{WhereRule, end, entry, WhereValue, cell, nested, list, Values, nil, cons}

unfoldable pub hidden_field : Option FieldDef → Bool
hidden_field none = false
hidden_field (some f) = f.hidden

unfoldable pub hidden_column : SchemaDef → String → String → Bool
unfolding lookup hidden_field
hidden_column schema entity col = elim (lookup entity schema) [
  | none ↦ false
  | some def ↦ hidden_field (lookup col def.fields)
]

-- within the base fields, if they are restricted
unfoldable pub permitted : Option (List String) → String → Bool
unfolding contains
permitted none col = true
permitted (some fs) col = contains col fs

-- `assertReadableCol`
unfoldable pub check_column : SchemaDef → String → Option (List String) → String → Result (Unit {0})
unfolding hidden_column permitted
check_column schema entity fields col =
    guard (not (hidden_column schema entity col) && permitted fields col)
      (acl_denied entity read (some col))

-- does the row hold the foreign key of the relation?
unfoldable pub owns_key : RelationKind → Bool
owns_key (belongs_to _) = true
owns_key (one_has_one _) = true
owns_key _ = false

module _ (schema : SchemaDef) (entity : String) (fields : Option (List String))
    (def : EntityDef) where
  -- a key that is no group: a relation, a column, or unknown
  unfoldable pub check_key : String → Result (Unit {0})
  unfolding lookup owns_key check_column
  check_key k = elim (lookup k def.relations) [
    | some rel ↦ if owns_key rel.kind then check_column schema entity fields rel.column else ok tt
    | none ↦ elim (lookup k def.fields) [
      | none ↦ err bad_request
      | some f ↦ check_column schema entity fields k
    ]
  ]

  unfoldable mutual
    unfolding check_key

    pub check_entries : WhereRule → Result (Unit {0})
    check_entries end = ok tt
    check_entries (entry k v rest) = check_entry k v >> check_entries rest

    pub check_entry : String → WhereValue → Result (Unit {0})
    check_entry k (list vs) =
        if k == "AND" || k == "OR"
        then check_members vs
        else if k == "NOT"
        then err bad_request
        else check_key k
    check_entry k (nested r) =
        if k == "AND" || k == "OR"
        then err bad_request
        else if k == "NOT"
        then check_entries r
        else check_key k
    check_entry k (cell null) =
        if k == "AND" || k == "OR"
        then err bad_request
        else if k == "NOT"
        then ok tt
        else check_key k
    check_entry k v = if k == "AND" || k == "OR" || k == "NOT" then err bad_request else check_key k

    -- a group's members, each a clause of its own; null is none
    pub check_members : Values → Result (Unit {0})
    check_members nil = ok tt
    check_members (cons (nested r) vs) = check_entries r >> check_members vs
    check_members (cons (cell null) vs) = check_members vs
    check_members (cons v vs) = err bad_request

-- `assertReadableWhereKeys`; an entity with no schema is not checked
unfoldable pub check_where :
    WhereValue → String → Option (List String) → SchemaDef → Result (Unit {0})
unfolding lookup check_entries
check_where (cell null) entity fields schema = ok tt
check_where (nested r) entity fields schema = elim (lookup entity schema) [
  | none ↦ ok tt
  | some def ↦ check_entries schema entity fields def r
]
check_where _ entity fields schema = err bad_request
