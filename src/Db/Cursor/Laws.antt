-- ===== src/Db/Cursor/Laws.antt =====
-- The keyset predicate is the lexicographic order, and a cursor's text gives its values back.
use Prim.Native.Char.{code, Char}
use package.text.Mathlib.TextEquality.{Char-path}
use pramen.Base.{
  ◌>>=◌, String, ◌≡◌, refl, sym, ap, ◌∙◌, Bool, true, false, not, ◌&&◌, ◌||◌, eqb, some, List, [],
  ◌∷◌, ◌++◌, ok, arith, if◌then◌else◌, >>=-eq-ok, ok-injective, Bool-cases, inl, inr,
}
use pramen.Cell.{Cell, null, boolean, number, text, object, Row, Host, column}
use pramen.Expr.{SqlExpr, and, or, equals, parts_of, gt, lt}
use pramen.Expr.Eval.{eval_cmp, eval_null, missing}
use pramen.Expr.Meaning.{Linked, holds, all_hold, some_holds}
use pramen.Db.{Engine}
use pramen.Db.Cursor.{
  Order, array_or_refuse, url_text, is_blank, trim_padding, url_char, plain_char, map_chars,
  values_at, encode_cursor, decode_cursor, keyset_cmp, sole_or, alternatives, keyset_after,
}

module _ (host : Host) (linked : Linked) (row : Row) where
  -- Does the row come strictly after the value in one column? Ascending, nulls come first, and so any value
  -- comes after a null; descending, they come last, and so nothing comes after a null, and a null after any value.
  unfoldable pub is_after : String → Bool → Cell → Bool
  unfolding eval_cmp missing
  is_after col false null = not (missing (column row col))
  is_after col true null = false
  is_after col false v = eval_cmp host gt (column row col) v
  is_after col true v = eval_cmp host lt (column row col) v || missing (column row col)

  keyset_cmp-is_after :
      (col : String) (desc : Bool) (v : Cell)
      → holds host linked (keyset_cmp col desc v) row ≡ is_after col desc v
  unfolding keyset_cmp is_after holds eval_null parts_of
  keyset_cmp-is_after col false null = refl
  keyset_cmp-is_after col true null = refl
  keyset_cmp-is_after col false (boolean b) = refl
  keyset_cmp-is_after col false (number n) = refl
  keyset_cmp-is_after col false (text t) = refl
  keyset_cmp-is_after col false (object p) = refl
  keyset_cmp-is_after col true (boolean b) = ground arith
  keyset_cmp-is_after col true (number n) = ground arith
  keyset_cmp-is_after col true (text t) = ground arith
  keyset_cmp-is_after col true (object p) = ground arith

  -- the lexicographic order on the columns in turn
  unfoldable pub comes_after : Order → List Cell → Bool
  unfolding is_after equals holds
  comes_after [] values = false
  comes_after (o ∷ os) [] = false
  comes_after ((col, desc) ∷ os) (v ∷ vs) =
      is_after col desc v || (holds host linked (equals col v) row && comes_after os vs)

  unfoldable all_of : List SqlExpr → Bool
  unfolding holds
  all_of [] = true
  all_of (e ∷ es) = holds host linked e row && all_of es

  unfoldable some_of : List SqlExpr → Bool
  unfolding holds
  some_of [] = false
  some_of (e ∷ es) = holds host linked e row || some_of es

  all_of-append : (xs ys : List SqlExpr) → all_of (xs ++ ys) ≡ (all_of xs && all_of ys)
  unfolding all_of
  all_of-append [] ys = refl
  all_of-append (x ∷ xs) ys = ground (arith, all_of-append xs ys)

  all_hold-parts_of : (es : List SqlExpr) → all_hold host linked (parts_of es) row ≡ all_of es
  unfolding holds all_of parts_of
  all_hold-parts_of [] = refl
  all_hold-parts_of (e ∷ es) = rw (all_hold-parts_of es) refl

  some_holds-parts_of : (es : List SqlExpr) → some_holds host linked (parts_of es) row ≡ some_of es
  unfolding holds some_of parts_of
  some_holds-parts_of [] = refl
  some_holds-parts_of (e ∷ es) = rw (some_holds-parts_of es) refl

  sole_and-holds : (es : List SqlExpr) → holds host linked (sole_or and es) row ≡ all_of es
  unfolding sole_or holds all_of parts_of
  sole_and-holds [] = refl
  sole_and-holds (e ∷ []) = ground arith
  sole_and-holds (e ∷ f ∷ es) = all_hold-parts_of (e ∷ f ∷ es)

  sole_or-holds : (es : List SqlExpr) → holds host linked (sole_or or es) row ≡ some_of es
  unfolding sole_or holds some_of parts_of
  sole_or-holds [] = refl
  sole_or-holds (e ∷ []) = ground arith
  sole_or-holds (e ∷ f ∷ es) = some_holds-parts_of (e ∷ f ∷ es)

  alternatives-holds :
      (before : List SqlExpr) (order : Order) (values : List Cell) (es : List SqlExpr)
      → alternatives before order values ≡ ok es
      → some_of es ≡ (all_of before && comes_after order values)
  unfolding alternatives comes_after some_of all_of
  alternatives-holds before [] values es h = rw (← ok-injective h) (ground arith)
  alternatives-holds before (o ∷ os) [] es h = cc
  alternatives-holds before ((col, desc) ∷ os) (v ∷ vs) es h =
      let (rest, r, k) = >>=-eq-ok (alternatives (before ++ equals col v ∷ []) os vs) _ h in
      rw (← ok-injective k) (
        ground (
          arith,
          keyset_cmp-is_after col desc v,
          sole_and-holds (before ++ keyset_cmp col desc v ∷ []),
          all_of-append before (keyset_cmp col desc v ∷ []),
          all_of-append before (equals col v ∷ []),
          alternatives-holds (before ++ equals col v ∷ []) os vs rest r,
        ))

-- The predicate that a page adds for its cursor means what the order does: it holds of
-- exactly the rows that come strictly after the cursor's values, where some column is after its value,
-- nulls first and descending last, and each column before it equals its own.
pub keyset_after-holds :
    (host : Host) (linked : Linked) (order : Order) (values : List Cell) (row : Row) (e : SqlExpr)
    → keyset_after order values ≡ ok e
    → holds host linked e row ≡ comes_after host linked row order values
unfolding keyset_after comes_after all_of
keyset_after-holds host linked order values row e h =
    let (es, r, k) = >>=-eq-ok (alternatives [] order values) _ h in
    rw (← ok-injective k)
      (sole_or-holds host linked row es ∙ alternatives-holds host linked row [] order values es r)

-- no character of the text is one that the URL alphabet puts in another's place
unfoldable pub IsPlain : String → Type 0
IsPlain String.[] = Unit
IsPlain (String.◌∷◌ c s) = (eqb (code c) b'-' ≡ false) × (eqb (code c) b'_' ≡ false) × IsPlain s

pub plain-url :
    (c : Char) → eqb (code c) b'-' ≡ false → eqb (code c) b'_' ≡ false → plain_char (url_char c) ≡ c
unfolding plain_char url_char
plain-url c h k = elim (Bool-cases (eqb (code c) b'+')) [
  | inl plus ↦ rw plus (Char-path "+" c (ground (arith, plus)))
  | inr other ↦ elim (Bool-cases (eqb (code c) b'/')) [
    | inl slash ↦ rw (other, slash) (Char-path "/" c (ground (arith, slash)))
    | inr letter ↦ rw (other, letter, h, k) refl
  ]
]

pub map_chars-map_chars : (s : String) → IsPlain s → map_chars plain_char (map_chars url_char s) ≡ s
unfolding map_chars IsPlain
map_chars-map_chars String.[] h = refl
map_chars-map_chars (String.◌∷◌ c s) (h, k, rest) =
    rw (plain-url c h k, map_chars-map_chars s rest) refl

plain-padding : (c : Char) → eqb (code (plain_char c)) b'=' ≡ eqb (code c) b'='
unfolding plain_char
plain-padding c = elim (Bool-cases (eqb (code c) b'-')) [
  | inl minus ↦ rw minus (ground (arith, minus))
  | inr other ↦ elim (Bool-cases (eqb (code c) b'_')) [
    | inl line ↦ rw (other, line) (ground (arith, line))
    | inr letter ↦ rw (other, letter) refl
  ]
]

is_blank-map_chars : (f : Char → Char) (s : String) → is_blank (map_chars f s) ≡ is_blank s
unfolding map_chars is_blank
is_blank-map_chars f String.[] = refl
is_blank-map_chars f (String.◌∷◌ c s) = refl

choice :
    (b : Bool) (c : Char) (s : String)
    → (if b then String.[] else String.◌∷◌ (plain_char c) (map_chars plain_char s))
      ≡ map_chars plain_char (if b then String.[] else String.◌∷◌ c s)
unfolding map_chars
choice true c s = refl
choice false c s = refl

trim_padding-plain :
    (s : String) → trim_padding (map_chars plain_char s) ≡ map_chars plain_char (trim_padding s)
unfolding trim_padding map_chars
trim_padding-plain String.[] = refl
trim_padding-plain (String.◌∷◌ c s) =
    rw (trim_padding-plain s, is_blank-map_chars plain_char (trim_padding s), plain-padding c)
      (choice (is_blank (trim_padding s) && eqb (code c) b'=') c (trim_padding s))

-- A cursor gives back the values of the order's columns: where `btoa` encodes them, which it does of text in
-- Latin-1, in the plain base64 alphabet, and what it packs is unpacked without its padding.
pub decode_cursor-encode_cursor :
    (engine : Engine) (order : Order) (row : Row) (packed : String)
    → engine.pack (values_at order row) ≡ some packed
    → IsPlain packed
    → engine.unpack (trim_padding packed) ≡ some (values_at order row)
    → (do s ← encode_cursor engine order row; decode_cursor engine s) ≡ ok (values_at order row)
unfolding decode_cursor encode_cursor url_text array_or_refuse
decode_cursor-encode_cursor engine order row packed e plain h =
    let same =
      sym (trim_padding-plain (map_chars url_char packed))
      ∙ ap trim_padding (map_chars-map_chars packed plain) in
    ap (λ o. url_text o >>= decode_cursor engine) e ∙ ap array_or_refuse (ap engine.unpack same ∙ h)
