-- ===== src/Cell.antt =====
-- Cell values and rows (packages/server/src/sdk/infer.ts), and what the read engine does with
-- them in memory: the comparisons and the text matching of runtime/read-engine.ts.
--
-- A number is an integer here (no fractions, no NaN). A json value, a file reference or a nested
-- row is an object, known by its reference. What the JavaScript library decides of texts by its
-- Unicode tables, and the number that a text denotes, are the fields of a `Host`.
pub mod Int
pub mod Text
use pramen.Base.{
  ℕ, String, ◌≡◌, Bool, true, false, ◌==◌, eqb, not, lookup, Option, none, some, List, [], ◌∷◌,
  if◌then◌else◌,
}
use Int.{ℤ, pos, negsuc, ltb_ℤ, eqb_ℤ}
use Text.{units, less_units}

pub data Cell : Type 0 where
  null : Cell
  boolean : Bool → Cell
  number : ℤ → Cell
  text : String → Cell
  object : ℕ → Cell

-- `Row`: the columns with their values, a column at most once
abbrev pub Row : Type 0
Row = List (String × Cell)

-- `row[col]`; `none` is `undefined`
abbrev pub column : Row → String → Option Cell
column row col = lookup col row

-- What the JavaScript runtime provides.
pub record Host : Type 0 where
  -- `Number(s)`; `none` is `NaN`
  pub number_of : String → Option ℤ
  -- `String(v)` of a value that is no text
  pub printed : Cell → String
  -- how a case-insensitive regular expression compares one code unit
  pub fold : ℕ → ℕ
  -- `s.toLowerCase()`
  pub lower : String → String

-- `bind`: a boolean is compared as 0 or 1
unfoldable pub bind : Cell → Cell
bind (boolean true) = number (pos 1)
bind (boolean false) = number (pos 0)
bind v = v

-- `===`
unfoldable pub strict_eq : Cell → Cell → Bool
strict_eq null null = true
strict_eq (boolean true) (boolean b) = b
strict_eq (boolean false) (boolean b) = not b
strict_eq (number m) (number n) = eqb_ℤ m n
strict_eq (text s) (text t) = s == t
strict_eq (object p) (object q) = eqb p q
strict_eq _ _ = false

module _ (host : Host) where
  -- an object becomes its text before it is compared
  unfoldable pub primitive : Cell → Cell
  primitive (object p) = text (host.printed (object p))
  primitive v = v

  unfoldable pub numeric : Cell → Option ℤ
  numeric null = some (pos 0)
  numeric (boolean true) = some (pos 1)
  numeric (boolean false) = some (pos 0)
  numeric (number n) = some n
  numeric (text s) = host.number_of s
  numeric (object p) = none

  unfoldable pub less_numeric : Option ℤ → Option ℤ → Bool
  less_numeric (some m) (some n) = ltb_ℤ m n
  less_numeric _ _ = false

  unfoldable pub less_eq_numeric : Option ℤ → Option ℤ → Bool
  less_eq_numeric (some m) (some n) = not (ltb_ℤ n m)
  less_eq_numeric _ _ = false

  -- `a < b` on primitives: two texts by code units, all else by number, NaN false
  unfoldable pub less_primitive : Cell → Cell → Bool
  unfolding less_numeric numeric
  less_primitive (text s) (text t) = less_units (units s) (units t)
  less_primitive a b = less_numeric (numeric a) (numeric b)

  unfoldable pub less_eq_primitive : Cell → Cell → Bool
  unfolding less_eq_numeric numeric
  less_eq_primitive (text s) (text t) = not (less_units (units t) (units s))
  less_eq_primitive a b = less_eq_numeric (numeric a) (numeric b)

  unfoldable pub less : Cell → Cell → Bool
  unfolding less_primitive primitive
  less a b = less_primitive (primitive a) (primitive b)

  unfoldable pub less_eq : Cell → Cell → Bool
  unfolding less_eq_primitive primitive
  less_eq a b = less_eq_primitive (primitive a) (primitive b)

  -- `String(v)`
  unfoldable pub to_text : Cell → String
  to_text (text s) = s
  to_text v = host.printed v
