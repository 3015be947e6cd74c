-- ===== src/Db/Cursor.antt =====
-- The keyset cursor of `page` in runtime/db.ts: its text, and the predicate "after the cursor".
pub mod Laws
use Prim.Native.Char.{code, Char}
use pramen.Base.{
  ℕ, String, Bool, true, false, ◌&&◌, eqb, Option, none, some, List, [], ◌∷◌, ◌++◌, any, Result, ok,
  err, bad_request, failure, if◌then◌else◌, ◌==◌, map, ◌>>=◌,
}
use pramen.Cell.{Cell, null, Row}
use pramen.Expr.{SqlExpr, never, cmp, gt, lt, is_null, and, or, equals}
use pramen.Db.{Engine}
use pramen.Db.Relations.{cell_at}

-- A column of an order, with whether it is descending.
abbrev pub Order : Type 0
Order = List (String × Bool)

unfoldable pub is_blank : String → Bool
is_blank String.[] = true
is_blank (String.◌∷◌ c s) = false

-- `replace(/=+$/, "")`
unfoldable pub trim_padding : String → String
unfolding is_blank
trim_padding String.[] = String.[]
trim_padding (String.◌∷◌ c s) =
    let rest = trim_padding s in
    if is_blank rest && eqb (code c) b'=' then String.[] else String.◌∷◌ c rest

unfoldable pub url_char : Char → Char
url_char c = if eqb (code c) b'+' then "-" else if eqb (code c) b'/' then "_" else c

unfoldable pub plain_char : Char → Char
plain_char c = if eqb (code c) b'-' then "+" else if eqb (code c) b'_' then "/" else c

unfoldable pub map_chars : (Char → Char) → String → String
map_chars f String.[] = String.[]
map_chars f (String.◌∷◌ c s) = String.◌∷◌ (f c) (map_chars f s)

unfoldable pub values_at : Order → Row → List Cell
unfolding cell_at
values_at [] row = []
values_at ((col, desc) ∷ os) row = cell_at col row ∷ values_at os row

unfoldable pub array_or_refuse : Option (List Cell) → Result (List Cell)
array_or_refuse none = err bad_request
array_or_refuse (some vs) = ok vs

-- The base64 of a text, in the URL alphabet. `btoa` throws on a character outside Latin-1.
unfoldable pub url_text : Option String → Result String
unfolding trim_padding map_chars url_char
url_text none = err failure
url_text (some s) = ok (trim_padding (map_chars url_char s))

-- `encodeCursor`, `decodeCursor`
unfoldable pub encode_cursor : Engine → Order → Row → Result String
unfolding url_text values_at
encode_cursor engine order row = url_text (engine.pack (values_at order row))

unfoldable pub decode_cursor : Engine → String → Result (List Cell)
unfolding map_chars plain_char array_or_refuse
decode_cursor engine s = array_or_refuse (engine.unpack (map_chars plain_char s))

-- `keysetCmp`: nulls come first, or last where it descends
unfoldable pub keyset_cmp : String → Bool → Cell → SqlExpr
keyset_cmp col desc null = if desc then never else is_null col true
keyset_cmp col desc v = if desc then or (cmp lt col v ∷ is_null col false ∷ []) else cmp gt col v

unfoldable pub sole_or : (List SqlExpr → SqlExpr) → List SqlExpr → SqlExpr
sole_or join (e ∷ []) = e
sole_or join es = join es

-- The alternatives of `keysetAfter`, whose earlier columns are equal by `before`. A value that a
-- cursor lacks is `undefined`, which no engine binds.
unfoldable pub alternatives : List SqlExpr → Order → List Cell → Result (List SqlExpr)
unfolding keyset_cmp sole_or equals
alternatives before [] values = ok []
alternatives before (o ∷ os) [] = err failure
alternatives before ((col, desc) ∷ os) (v ∷ vs) = do
  rest ← alternatives (before ++ equals col v ∷ []) os vs
  ok (sole_or and (before ++ keyset_cmp col desc v ∷ []) ∷ rest)

-- `keysetAfter`
unfoldable pub keyset_after : Order → List Cell → Result SqlExpr
unfolding alternatives sole_or
keyset_after order values = do es ← alternatives [] order values; ok (sole_or or es)
