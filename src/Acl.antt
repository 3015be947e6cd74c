-- ===== src/Acl.antt =====
-- Policies, roles and the per-request context: packages/server/src/sdk/acl.ts and the types of
-- runtime/acl.ts.
--
-- The identity and the request input are JSON values, `none` where they are null. A resolver is
-- known by its id: what its function answers is `resolve` of the `Resolvers`, an error where it
-- throws. A schema that the context does not carry is the empty one.
pub mod Policies
pub mod Merge
pub mod Possible
pub mod Readable
pub mod Scoped
pub mod Fields
use pramen.Base.{ℕ, String, Bool, Option, List, Result, Action}
use pramen.Cell.{Cell, Row, Host}
use pramen.Schema.{SchemaDef}
use pramen.Where.{WhereRule, Json, Objects}

abbrev pub Identity : Type 0
Identity = Option Json

-- a late per-row resolver of fields; `none` is its null, every field
abbrev pub FieldsFn : Type 0
FieldsFn = Identity → Row → Option (List String)

-- a server-side validation, an error where it throws
abbrev pub Validator : Type 0
Validator = Identity → Row → Result (Unit {0})

pub data SetValue : Type 0 where
  fixed : Cell → SetValue
  computed : (Identity → Cell) → SetValue

pub record ConditionalFields : Type 0 where
  pub fields : List String
  pub when : WhereRule

pub record RelationAclRule : Type 0 where
  pub direct_access : Bool
  pub where_ : Option WhereRule
  pub fields : Option (List String)
  pub conditional_fields : List ConditionalFields
  pub fields_fn : Option FieldsFn

-- An omitted `where` is the empty rule.
pub record PolicyRules : Type 0 where
  pub where_ : WhereRule
  pub check : Option WhereRule
  pub fields : Option (List String)
  pub conditional_fields : List ConditionalFields
  pub fields_fn : Option FieldsFn
  pub relations : List (String × RelationAclRule)
  pub set : List (String × SetValue)
  pub validate : Option Validator

pub data PolicyRule : Type 0 where
  allow deny : PolicyRule
  rules : PolicyRules → PolicyRule
  resolver : ℕ → PolicyRule

pub record Policy : Type 0 where
  pub name : String
  pub entity : String
  pub action : Action
  pub rule : PolicyRule

pub record Role : Type 0 where
  pub name : String
  pub policies : List Policy

abbrev pub Key : Type 0
Key = String × Action

-- `CompiledAcl`: by role, by entity and action, the rules that grant it
abbrev pub CompiledAcl : Type 0
CompiledAcl = List (String × List (Key × List PolicyRule))

pub record AclContext : Type 0 where
  pub acl : CompiledAcl
  pub identity : Identity
  pub input : Option Json
  pub resolved : List (ℕ × PolicyRule)
  pub system : Bool
  pub schema : SchemaDef
  -- the instant that `$now()` stands for
  pub now : String
  pub host : Host
  pub objects : Objects
