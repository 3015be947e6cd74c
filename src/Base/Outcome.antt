-- ===== src/Base/Outcome.antt =====
-- packages/server/src/runtime/errors.ts: the errors that a request can end in, as values.
use Prim.Native.Nat.{ℕ}
use Prim.Native.String.{String}
use mathlib.Core.Path.{◌≡◌, refl, subst}
use mathlib.Core.Option.{Option}
use mathlib.Core.Bool.{Bool, true, false}
use pramen.Base.Tests.{if◌then◌else◌}

-- `Action` of sdk/acl.ts
pub data Action : Type 0 where
  read create update delete : Action

-- The subclasses of `PramenError`, less their messages, and any other `Error`.
pub data Error : Type 0 where
  bad_request unauthorized forbidden conflict : Error
  acl_denied : String → Action → Option String → Error
  failure : Error

pub data Result {ℓ} (A : Type ℓ) : Type ℓ where
  ok : A → Result A
  err : Error → Result A

-- what follows an `await` that may throw
infixl 5 ◌>>=◌ ◌>>◌
abbrev pub ◌>>=◌ {ℓ₁ ℓ₂} :
    {Found : Type ℓ₁} {Next : Type ℓ₂} → Result Found → (Found → Result Next) → Result Next
err thrown >>= next = err thrown
ok found >>= next = next found

-- `if (!test) throw e`
abbrev pub guard : Bool → Error → Result (Unit {0})
guard false thrown = err thrown
guard true _ = ok tt

abbrev pub ◌>>◌ {ℓ} : {Next : Type ℓ} → Result (Unit {0}) → Result Next → Result Next
check >> next = check >>= λ done. next

-- `classify`: the HTTP status and the code of the response body
unfoldable pub classify : Error → ℕ × String
classify bad_request = (400, "bad_request")
classify unauthorized = (401, "unauthorized")
classify forbidden = (403, "forbidden")
classify conflict = (409, "conflict")
classify (acl_denied _ _ _) = (403, "forbidden")
classify failure = (500, "internal")

-- A chain that succeeds succeeded in its first part.
pub >>=-eq-ok {ℓ₁ ℓ₂} :
    {Found : Type ℓ₁} {Next : Type ℓ₂} (first : Result Found) (next : Found → Result Next)
    {last : Next}
    → (first >>= next) ≡ ok last
    → (found : Found) × (first ≡ ok found) × (next found ≡ ok last)
>>=-eq-ok (err thrown) next h = cc
>>=-eq-ok (ok found) next h = (found, refl, h)

pub guard-ok : (b : Bool) (e : Error) → guard b e ≡ ok tt → b ≡ true
guard-ok true e h = refl
guard-ok false e h = cc

pub >>-ok {ℓ} :
    {B : Type ℓ} (m : Result (Unit {0})) (k : Result B) {b : B}
    → (m >> k) ≡ ok b
    → (m ≡ ok tt) × (k ≡ ok b)
>>-ok (ok tt) k h = (refl, h)
>>-ok (err e) k h = cc

-- What holds of the value that a result carries, if it carries one.
pub record Ensures {ℓ κ} {A : Type ℓ} (P : A → Type κ) (m : Result A) : Type (ℓ ⊔ κ) where
  pub at : (a : A) → m ≡ ok a → P a

pub ok-injective {ℓ} : {A : Type ℓ} {a b : A} → ok a ≡ ok b → a ≡ b
ok-injective h = cc

module _ {ℓ κ} {A : Type ℓ} {P : A → Type κ} where
  pub Ensures-ok : (a : A) → P a → Ensures P (ok a)
  Ensures-ok a h = record { at = λ b e. subst P (ok-injective e) h }

  pub Ensures-err : (e : Error) → Ensures P (err e)
  Ensures-err e = record { at = λ b h. cc }

  pub Ensures-if :
      (b : Bool) (x y : Result A) → Ensures P x → Ensures P y → Ensures P (if b then x else y)
  Ensures-if true x y h k = h
  Ensures-if false x y h k = k

  pub of_ok : (a : A) → Ensures P (ok a) → P a
  of_ok a h = h.at a refl

module _ {ℓ κ} {A B : Type ℓ} {P : A → Type κ} {Q : B → Type κ} where
  pub Ensures-bind :
      (m : Result A) (f : A → Result B)
      → Ensures P m
      → ((a : A) → P a → Ensures Q (f a))
      → Ensures Q (m >>= f)
  Ensures-bind (ok a) f h k = k a (of_ok a h)
  Ensures-bind (err e) f h k = Ensures-err e
