-- ===== src/Cell/Text.antt =====
-- Texts as JavaScript sees them, by UTF-16 code units: order, `includes` and the like, and the
-- regular expression of `likeToRegex`.
use Prim.Native.Char.{code}
use pramen.Base.{
  ℕ, String, ◌+◌, ◌-◌, ◌/◌, ◌%◌, Bool, true, false, ◌&&◌, ◌||◌, List, [], ◌∷◌, ltb, eqb,
  if◌then◌else◌,
}

-- A character past 0xffff is a surrogate pair.
unfoldable pub units : String → List ℕ
units String.[] = []
units (String.◌∷◌ c s) =
    let rest = units s in
    if ltb (code c) 65536
    then code c ∷ rest
    else (55296 + (code c - 65536) / 1024) ∷ (56320 + (code c - 65536) % 1024) ∷ rest

-- The lexicographic order, a proper prefix first.
unfoldable pub less_units : List ℕ → List ℕ → Bool
less_units [] [] = false
less_units [] (y ∷ ys) = true
less_units (x ∷ xs) [] = false
less_units (x ∷ xs) (y ∷ ys) = ltb x y || (eqb x y && less_units xs ys)

unfoldable pub starts : List ℕ → List ℕ → Bool
starts xs [] = true
starts [] (y ∷ ys) = false
starts (x ∷ xs) (y ∷ ys) = eqb x y && starts xs ys

-- Does the test hold of some tail?
unfoldable pub some_tail : (List ℕ → Bool) → List ℕ → Bool
some_tail p [] = p []
some_tail p (x ∷ xs) = p (x ∷ xs) || some_tail p xs

unfoldable pub includes : List ℕ → List ℕ → Bool
unfolding some_tail starts
includes xs ys = some_tail (λ t. starts t ys) xs

unfoldable pub same : List ℕ → List ℕ → Bool
same [] [] = true
same (x ∷ xs) (y ∷ ys) = eqb x y && same xs ys
same _ _ = false

unfoldable pub ends : List ℕ → List ℕ → Bool
unfolding some_tail same
ends xs ys = some_tail (λ t. same t ys) xs

-- One unit of the pattern, `%` aside, against one of the text.
unfoldable pub like_unit : (ℕ → ℕ) → ℕ → ℕ → Bool
like_unit fold p c = eqb p b'_' || eqb (fold p) (fold c)

unfoldable pub like_tail : (ℕ → ℕ) → ℕ → (List ℕ → Bool) → List ℕ → Bool
like_tail fold p rest [] = false
like_tail fold p rest (c ∷ s) = like_unit fold p c && rest s

-- Does the whole text match? `%` stands for any run, `_` for one unit.
unfoldable pub like_units : (ℕ → ℕ) → List ℕ → List ℕ → Bool
unfolding some_tail like_unit like_tail
like_units fold [] [] = true
like_units fold [] (c ∷ s) = false
like_units fold (p ∷ ps) s =
    if eqb p b'%' then some_tail (like_units fold ps) s else like_tail fold p (like_units fold ps) s
