-- ===== src/Where.antt =====
-- Where rules: their values and per-request markers (packages/server/src/sdk/acl.ts), and how
-- runtime/acl.ts resolves the markers.
--
-- A value of a rule is a literal, a marker, a plain object (a rule of its own) or an array. A
-- request's JSON (the identity's claims, the handler's input) is a `Json`.
pub mod Compile
use Prim.Native.Char.{code}
use Prim.Native.String.{◌++◌ as append}
use pramen.Base.{
  ℕ, String, Bool, true, false, ◌==◌, eqb, Option, none, some, List, [], ◌∷◌, ◌||◌, if◌then◌else◌,
}
use pramen.Cell.{Cell, null, boolean, number, text, object}

mutual
  pub data WhereValue : Type 0 where
    cell : Cell → WhereValue
    identity_marker input_marker : String → WhereValue
    now_marker : WhereValue
    nested : WhereRule → WhereValue
    list : Values → WhereValue

  pub data Values : Type 0 where
    nil : Values
    cons : WhereValue → Values → Values

  pub data WhereRule : Type 0 where
    end : WhereRule
    entry : String → WhereValue → WhereRule → WhereRule

mutual
  pub data Json : Type 0 where
    plain : Cell → Json
    array : Jsons → Json
    dict : Members → Json

  pub data Jsons : Type 0 where
    none_left : Jsons
    item : Json → Jsons → Jsons

  pub data Members : Type 0 where
    closed : Members
    field : String → Json → Members → Members

-- What the JavaScript runtime knows of objects: a property that is no member of a plain object
-- (an array's `length`, a text's, an inherited one), and the reference of an object in a rule.
pub record Objects : Type 0 where
  pub inherited : Json → String → Option Json
  pub reference : WhereValue → ℕ

push_front : String → List String → List String
push_front c [] = c ∷ []
push_front c (s ∷ rest) = append c s ∷ rest

-- `path.split(".")`
unfoldable pub split_path : String → List String
unfolding push_front
split_path String.[] = "" ∷ []
split_path (String.◌∷◌ c s) =
    let rest = split_path s in
    if eqb (code c) b'.' then "" ∷ rest else push_front (String.◌∷◌ c "") rest

unfoldable pub member : Members → String → Option Json
member closed key = none
member (field k v rest) key = if k == key then some v else member rest key

or_inherited : Option Json → Option Json → Option Json
or_inherited (some v) w = some v
or_inherited none w = w

module _ (objects : Objects) where
  -- `acc[seg]`
  unfoldable pub property : Json → String → Option Json
  unfolding member or_inherited
  property (dict ms) seg = or_inherited (member ms seg) (objects.inherited (dict ms) seg)
  property v seg = objects.inherited v seg

  -- one round of the `reduce`: null and undefined stop the walk
  unfoldable pub walk : Option Json → String → Option Json
  unfolding property
  walk none seg = none
  walk (some (plain null)) seg = none
  walk (some v) seg = property v seg

  unfoldable pub walk_all : Option Json → List String → Option Json
  walk_all acc [] = acc
  walk_all acc (seg ∷ segs) = walk_all (walk acc seg) segs

  -- `getPath`
  unfoldable pub get_path : Option Json → String → Option Json
  unfolding walk walk_all split_path
  get_path obj path = walk_all obj (split_path path)

  -- `isScalar`, with the value as a cell
  unfoldable pub scalar : Option Json → Option Cell
  scalar (some (plain (boolean b))) = some (boolean b)
  scalar (some (plain (number n))) = some (number n)
  scalar (some (plain (text s))) = some (text s)
  scalar _ = none

  as_value : Option Cell → Option WhereValue
  as_value none = none
  as_value (some c) = some (cell c)

  -- `Array.isArray(value) && value.every(isScalar)`, with the list of them
  unfoldable pub scalars : Jsons → Option Values
  unfolding scalar
  scalars none_left = some nil
  scalars (item j js) = elim (scalar (some j)) [
    | none ↦ none
    | some c ↦ elim (scalars js) [ none ↦ none | some vs ↦ some (cons (cell c) vs) ]
  ]

  unfoldable pub scalar_list : Option Json → Option WhereValue
  unfolding scalars
  scalar_list (some (array js)) = elim (scalars js) [ none ↦ none | some vs ↦ some (list vs) ]
  scalar_list _ = none

  -- What the markers refer to: the caller, the request's input and the instant, an ISO-8601 text.
  module _ (identity input : Option Json) (now : String) where
    -- `resolveValue`; `none` is UNRESOLVED
    unfoldable pub resolve_value : WhereValue → Option WhereValue
    unfolding get_path scalar as_value
    resolve_value now_marker = some (cell (text now))
    resolve_value (identity_marker path) = as_value (scalar (get_path identity path))
    resolve_value (input_marker path) = as_value (scalar (get_path input path))
    resolve_value v = some v

    unfoldable pub resolve_values : Values → Option Values
    resolve_values nil = some nil
    resolve_values (cons v vs) = elim (resolve_value v) [
      | none ↦ none
      | some v' ↦ elim (resolve_values vs) [ none ↦ none | some vs' ↦ some (cons v' vs') ]
    ]

    -- `resolveList`, for the operand of `in` and `notIn`
    unfoldable pub resolve_list : WhereValue → Option WhereValue
    unfolding get_path scalar_list resolve_values
    resolve_list (identity_marker path) = scalar_list (get_path identity path)
    resolve_list (input_marker path) = scalar_list (get_path input path)
    resolve_list (list vs) = elim (resolve_values vs) [ none ↦ none | some vs' ↦ some (list vs') ]
    resolve_list _ = none

    -- the inner loop of `resolveMarkers`, over the operators of one column
    unfoldable pub resolve_ops : WhereRule → Option WhereRule
    unfolding resolve_value resolve_list
    resolve_ops end = some end
    resolve_ops (entry op v rest) =
        elim (if op == "in" || op == "notIn" then resolve_list v else resolve_value v) [
          | none ↦ none
          | some v' ↦ elim (resolve_ops rest) [ none ↦ none | some r ↦ some (entry op v' r) ]
        ]

    unfoldable pub resolve_field : WhereValue → Option WhereValue
    unfolding resolve_value resolve_ops
    resolve_field (nested ops) = elim (resolve_ops ops) [ none ↦ none | some r ↦ some (nested r) ]
    resolve_field v = resolve_value v

    -- `resolveMarkers`; `none` is its null
    unfoldable pub resolve_markers : WhereRule → Option WhereRule
    unfolding resolve_field
    resolve_markers end = some end
    resolve_markers (entry col v rest) = elim (resolve_field v) [
      | none ↦ none
      | some v' ↦ elim (resolve_markers rest) [ none ↦ none | some r ↦ some (entry col v' r) ]
    ]
