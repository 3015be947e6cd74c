-- ===== src/Token.antt =====
-- packages/server/src/runtime/token.ts: signed capability tokens that expire.
--
-- WebCrypto, `btoa`, `atob`, the text codecs and JSON are the record `Crypto`; a byte string is the list of
-- its bytes, and the clock is in milliseconds.
pub mod Laws
use Prim.Native.Char.{code, Char}
use pramen.Base.{
  ℕ, zero, suc, String, Bool, true, false, ◌-◌, ◌/◌, ◌%◌, eqb, leb, length, Option, none, some,
  List, [], ◌∷◌, lookup, if◌then◌else◌,
}
use pramen.Cell.Int.{ℤ, pos}
use pramen.Cell.Text.{units}
use pramen.Db.Cursor.{trim_padding, map_chars, url_char, plain_char}

pub record Crypto (P : Type 0) : Type 0 where
  pub stringify : P → String
  pub parse : String → Option P
  -- `payload.exp`, where it is a number
  pub expiry : P → Option ℤ
  pub utf8 : String → List ℕ
  pub utf8_decode : List ℕ → String
  pub btoa : List ℕ → String
  -- none where it throws, as for `sign`; a `verify` that throws verifies nothing
  pub atob : String → Option (List ℕ)
  pub sign : String → List ℕ → Option (List ℕ)
  pub verify : String → List ℕ → List ℕ → Bool

-- one text after another
unfoldable pub joined : String → String → String
joined String.[] t = t
joined (String.◌∷◌ c s) t = String.◌∷◌ c (joined s t)

-- `"=".repeat(n)`
unfoldable pub padding : ℕ → String
padding zero = ""
padding (suc n) = String.◌∷◌ "=" (padding n)

-- how many `=` complete a group of four
unfoldable pub missing_padding : String → ℕ
unfolding units
missing_padding s = (4 - length (units s) % 4) % 4

-- what stands before the first dot, and what stands after it
unfoldable pub split_dot : String → Option (String × String)
split_dot String.[] = none
split_dot (String.◌∷◌ c s) =
    let rest = split_dot s in
    if eqb (code c) b'.'
    then some ("", s)
    else (elim rest [ none ↦ none | some parts ↦ some (String.◌∷◌ c parts.0, parts.1) ])

unfoldable pub is_past : ℤ → ℕ → Bool
is_past (pos n) seconds = leb n seconds
is_past (ℤ.negsuc n) seconds = true

module _ {P : Type 0} (crypto : Crypto P) where
  -- `bytesToB64url`, `b64urlToBytes`
  unfoldable pub bytes_to_b64url : List ℕ → String
  unfolding trim_padding map_chars url_char
  bytes_to_b64url bytes = trim_padding (map_chars url_char (crypto.btoa bytes))

  unfoldable pub b64url_to_bytes : String → Option (List ℕ)
  unfolding joined map_chars plain_char padding missing_padding
  b64url_to_bytes s = crypto.atob (joined (map_chars plain_char s) (padding (missing_padding s)))

  -- the signed part of a token
  unfoldable pub token_data : P → String
  unfolding bytes_to_b64url
  token_data payload = bytes_to_b64url (crypto.utf8 (crypto.stringify payload))

  -- `signToken`
  unfoldable pub sign_token : P → String → Option String
  unfolding joined token_data bytes_to_b64url
  sign_token payload secret = elim (crypto.sign secret (crypto.utf8 (token_data payload))) [
    | none ↦ none
    | some sig ↦ some (joined (token_data payload) (String.◌∷◌ "." (bytes_to_b64url sig)))
  ]

  unfoldable pub in_date : P → ℕ → Option P
  unfolding is_past
  in_date payload now = elim (crypto.expiry payload) [
    | none ↦ none
    | some exp ↦ if is_past exp (now / 1000) then none else some payload
  ]

  unfoldable pub payload_of : String → ℕ → Option P
  unfolding b64url_to_bytes in_date
  payload_of signed now = elim (b64url_to_bytes signed) [
    | none ↦ none
    | some bytes ↦ elim (crypto.parse (crypto.utf8_decode bytes)) [
      | none ↦ none
      | some p ↦ in_date p now
    ]
  ]

  unfoldable pub verified : String → String → String → ℕ → Option P
  unfolding b64url_to_bytes payload_of
  verified signed sig secret now = elim (b64url_to_bytes sig) [
    | none ↦ none
    | some bytes ↦
        if crypto.verify secret bytes (crypto.utf8 signed) then payload_of signed now else none
  ]

  -- `verifyToken`
  unfoldable pub verify_token : String → String → ℕ → Option P
  unfolding split_dot verified
  verify_token raw secret now = elim (split_dot raw) [
    | none ↦ none
    | some parts ↦ verified parts.0 parts.1 secret now
  ]

abbrev pub min_token_secret_len : ℕ
min_token_secret_len = 16

-- `isUsableSecret`, of a text
unfoldable pub is_usable_secret : String → Bool
unfolding units
is_usable_secret s = leb min_token_secret_len (length (units s))

-- `resolveSecret`, in an environment of texts
unfoldable pub resolve_secret : List (String × String) → List String → Option String
unfolding lookup is_usable_secret
resolve_secret env [] = none
resolve_secret env (name ∷ names) =
    let rest = resolve_secret env names in
    elim (lookup name env) [ none ↦ rest | some v ↦ if is_usable_secret v then some v else rest ]
