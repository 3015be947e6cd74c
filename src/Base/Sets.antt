-- ===== src/Base/Sets.antt =====
-- JavaScript's `Set<string>` as a list in insertion order, and `includes` on an array.
use Prim.Native.Nat.{ℕ, suc}
use Prim.Native.String.{String}
use mathlib.Core.Path.{◌≡◌, refl}
use mathlib.Core.Bool.{Bool, false, ◌&&◌, ◌||◌}
use mathlib.Core.Option.{Option, none, some}
use mathlib.Core.List.{List, [], ◌∷◌, ◌++◌}
use native.Mathlib.Omega.{arith}
use text.Mathlib.Text.{◌==◌}
use text.Mathlib.TextEquality.{eq_iff}
use pramen.Base.Tests.{if◌then◌else◌}

module _ {ℓ} {A : Type ℓ} where
  abbrev pub length : List A → ℕ
  length [] = 0
  length (x ∷ xs) = suc (length xs)

  unfoldable pub any : (A → Bool) → List A → Bool
  any p [] = false
  any p (x ∷ xs) = p x || any p xs

  unfoldable pub keep : (A → Bool) → List A → List A
  keep p [] = []
  keep p (x ∷ xs) = let rest = keep p xs in if p x then x ∷ rest else rest

  -- What holds of each element.
  abbrev pub All {κ} : (A → Type κ) → List A → Type κ
  All P [] = Unit
  All P (x ∷ xs) = P x × All P xs

-- An object used as a dictionary: its own keys with their values, `obj[key]` and `key in obj`.
module _ {ℓ} {V : Type ℓ} where
  unfoldable pub lookup : String → List (String × V) → Option V
  lookup key [] = none
  lookup key ((k, v) ∷ rest) = if k == key then some v else lookup key rest

  unfoldable pub keys : List (String × V) → List String
  keys [] = []
  keys ((k, v) ∷ rest) = k ∷ keys rest

-- `xs.includes(f)`, `set.has(f)`
unfoldable pub contains : String → List String → Bool
contains f [] = false
contains f (x ∷ xs) = x == f || contains f xs

-- `set.add(f)`: a member keeps its place
unfoldable pub add : String → List String → List String
add f xs = if contains f xs then xs else xs ++ f ∷ []

-- `for (const f of fs) set.add(f)`
unfoldable pub add_all : List String → List String → List String
add_all [] set = set
add_all (f ∷ fs) set = add_all fs (add f set)

-- `new Set(fs)`
unfoldable pub set_of : List String → List String
set_of fs = add_all fs []

pub contains-append :
    (f : String) (xs ys : List String) → contains f (xs ++ ys) ≡ (contains f xs || contains f ys)
unfolding contains
contains-append f [] ys = refl
contains-append f (x ∷ xs) ys = ground (arith, contains-append f xs ys)

pub contains-add :
    (f g : String) (xs : List String) → contains f (add g xs) ≡ (contains f xs || g == f)
unfolding add contains
contains-add f g xs = ground (arith, contains-append f xs (g ∷ []), eq_iff g f, eq_iff f g)

pub contains-add_all :
    (f : String) (gs xs : List String)
    → contains f (add_all gs xs) ≡ (contains f xs || contains f gs)
unfolding add_all contains
contains-add_all f [] xs = ground arith
contains-add_all f (g ∷ gs) xs =
    ground (arith, contains-add_all f gs (add g xs), contains-add f g xs)

pub contains-set_of : (f : String) (xs : List String) → contains f (set_of xs) ≡ contains f xs
unfolding set_of contains
contains-set_of f xs = contains-add_all f xs []

pub contains-keep :
    (p : String → Bool) (f : String) (xs : List String)
    → contains f (keep p xs) ≡ (contains f xs && p f)
unfolding keep contains
contains-keep p f [] = refl
contains-keep p f (x ∷ xs) = ground (arith, contains-keep p f xs, eq_iff x f)
