-- ===== src/Token/Laws.antt =====
-- What `signToken` signs, `verifyToken` gives back until it expires (runtime/token.ts).
use Prim.Native.Char.{code, Char}
use pramen.Base.{
  ℕ, zero, suc, String, ◌≡◌, refl, sym, ap, subst, ◌∙◌, Bool, true, false, ◌&&◌, ◌-◌, ◌/◌, ◌%◌, eqb,
  leb, ltb, length, none, some, List, ◌∷◌, if◌then◌else◌, arith, Bool-cases, inl, inr,
}
use mathlib.Core.Option.{some-injective}
use pramen.Cell.Int.{pos}
use pramen.Cell.Text.{units}
use pramen.Db.Cursor.{is_blank, trim_padding, map_chars, url_char}
use pramen.Db.Cursor.Laws.{IsPlain, map_chars-map_chars}
use pramen.Token.{
  Crypto, joined, padding, missing_padding, split_dot, is_past, bytes_to_b64url, b64url_to_bytes,
  token_data, sign_token, in_date, payload_of, verified, verify_token,
}

-- a text in the alphabet of base64: it has none of the characters `-`, `_`, `=` and `.`
unfoldable pub IsBase64 : String → Type 0
IsBase64 String.[] = Unit
IsBase64 (String.◌∷◌ c s) =
    (eqb (code c) b'-' ≡ false)
    × (eqb (code c) b'_' ≡ false)
    × (eqb (code c) b'=' ≡ false)
    × (eqb (code c) b'.' ≡ false)
    × IsBase64 s

IsBase64-IsPlain : (s : String) → IsBase64 s → IsPlain s
unfolding IsBase64 IsPlain
IsBase64-IsPlain String.[] h = tt
IsBase64-IsPlain (String.◌∷◌ c s) (a, b, _, _, rest) = (a, b, IsBase64-IsPlain s rest)

url_char-keeps :
    (c : Char) (n : ℕ)
    → eqb n b'+' ≡ false
    → eqb n b'/' ≡ false
    → eqb n b'-' ≡ false
    → eqb n b'_' ≡ false
    → eqb (code (url_char c)) n ≡ eqb (code c) n
unfolding url_char
url_char-keeps c n p s m l = elim (Bool-cases (eqb (code c) b'+')) [
  | inl plus ↦ rw plus (ground (arith, plus))
  | inr other ↦ elim (Bool-cases (eqb (code c) b'/')) [
    | inl slash ↦ rw (other, slash) (ground (arith, slash))
    | inr letter ↦ rw (other, letter) refl
  ]
]

map_chars-joined :
    (f : Char → Char) (s t : String)
    → map_chars f (joined s t) ≡ joined (map_chars f s) (map_chars f t)
unfolding map_chars joined
map_chars-joined f String.[] t = refl
map_chars-joined f (String.◌∷◌ c s) t = ap (String.◌∷◌ (f c)) (map_chars-joined f s t)

map_chars-padding : (n : ℕ) → map_chars url_char (padding n) ≡ padding n
unfolding map_chars padding url_char
map_chars-padding zero = refl
map_chars-padding (suc n) = ap (String.◌∷◌ "=") (map_chars-padding n)

trim_padding-padding : (n : ℕ) → trim_padding (padding n) ≡ ""
unfolding trim_padding padding is_blank
trim_padding-padding zero = refl
trim_padding-padding (suc n) = rw (trim_padding-padding n) refl

uncut :
    (b : Bool) (c : Char) (s : String)
    → (if b && false then "" else String.◌∷◌ c s) ≡ String.◌∷◌ c s
uncut true c s = refl
uncut false c s = refl

trim_padding-joined :
    (s : String) (n : ℕ)
    → IsBase64 s
    → trim_padding (joined (map_chars url_char s) (padding n)) ≡ map_chars url_char s
unfolding trim_padding map_chars IsBase64 joined
trim_padding-joined String.[] n h = trim_padding-padding n
trim_padding-joined (String.◌∷◌ c s) n (_, _, e, _, rest) =
    rw (trim_padding-joined s n rest, url_char-keeps c b'=' refl refl refl refl, e)
      (uncut _ (url_char c) (map_chars url_char s))

split_dot-joined :
    (s t : String)
    → IsBase64 s
    → split_dot (joined (map_chars url_char s) (String.◌∷◌ "." t)) ≡ some (map_chars url_char s, t)
unfolding split_dot map_chars IsBase64 joined
split_dot-joined String.[] t h = refl
split_dot-joined (String.◌∷◌ c s) t (_, _, _, d, rest) =
    rw (split_dot-joined s t rest, url_char-keeps c b'.' refl refl refl refl, d) refl

wide-url : (c : Char) → ltb (code (url_char c)) 65536 ≡ ltb (code c) 65536
unfolding url_char
wide-url c = elim (Bool-cases (eqb (code c) b'+')) [
  | inl plus ↦ rw plus (ground (arith, plus))
  | inr other ↦ elim (Bool-cases (eqb (code c) b'/')) [
    | inl slash ↦ rw (other, slash) (ground (arith, slash))
    | inr letter ↦ rw (other, letter) refl
  ]
]

as_wide :
    (b b' : Bool) (x y z x' y' z' : ℕ) (u v : List ℕ)
    → b ≡ b'
    → length u ≡ length v
    → length (if b then x ∷ u else y ∷ z ∷ u) ≡ length (if b' then x' ∷ v else y' ∷ z' ∷ v)
as_wide true true x y z x' y' z' u v h k = ap suc k
as_wide false false x y z x' y' z' u v h k = ap (λ n. suc (suc n)) k
as_wide true false x y z x' y' z' u v h k = cc
as_wide false true x y z x' y' z' u v h k = cc

units-url : (s : String) → length (units (map_chars url_char s)) ≡ length (units s)
unfolding units map_chars
units-url String.[] = refl
units-url (String.◌∷◌ c s) =
    as_wide (ltb (code (url_char c)) 65536) (ltb (code c) 65536) _ _ _ _ _ _ _ _ (wide-url c)
      (units-url s)

module _ {P : Type 0} (crypto : Crypto P) where
  -- How `btoa` writes the bytes: a text in the alphabet, completed to groups of four; and `atob` reads it back.
  unfoldable pub Codes : List ℕ → Type 0
  Codes bytes =
      (body : String) × IsBase64 body
      × (crypto.btoa bytes ≡ joined body (padding (missing_padding body)))
      × (crypto.atob (crypto.btoa bytes) ≡ some bytes)

  bytes_to_b64url-body :
      (bytes : List ℕ) (body : String)
      → IsBase64 body
      → crypto.btoa bytes ≡ joined body (padding (missing_padding body))
      → bytes_to_b64url crypto bytes ≡ map_chars url_char body
  unfolding bytes_to_b64url
  bytes_to_b64url-body bytes body plain h =
      ap (λ s. trim_padding (map_chars url_char s)) h
      ∙ ap trim_padding (
          map_chars-joined url_char body (padding (missing_padding body))
          ∙ ap (joined (map_chars url_char body)) (map_chars-padding (missing_padding body)))
      ∙ trim_padding-joined body (missing_padding body) plain

  b64url_to_bytes-bytes_to_b64url :
      (bytes : List ℕ)
      → Codes bytes
      → b64url_to_bytes crypto (bytes_to_b64url crypto bytes) ≡ some bytes
  unfolding b64url_to_bytes Codes missing_padding
  b64url_to_bytes-bytes_to_b64url bytes (body, plain, h, back) =
      ap (b64url_to_bytes crypto) (bytes_to_b64url-body bytes body plain h)
      ∙ ap (λ s. crypto.atob (joined s (padding (missing_padding (map_chars url_char body)))))
          (map_chars-map_chars body (IsBase64-IsPlain body plain))
      ∙ ap (λ n. crypto.atob (joined body (padding ((4 - n % 4) % 4)))) (units-url body)
      ∙ ap crypto.atob (sym h)
      ∙ back

  payload_of-signed :
      (signed : String) (bytes : List ℕ) (payload : P) (exp now : ℕ)
      → b64url_to_bytes crypto signed ≡ some bytes
      → crypto.parse (crypto.utf8_decode bytes) ≡ some payload
      → crypto.expiry payload ≡ some (pos exp)
      → payload_of crypto signed now ≡ (if leb exp (now / 1000) then none else some payload)
  unfolding payload_of in_date is_past
  payload_of-signed signed bytes payload exp now read parses expires =
      rw (payload_of, read, parses, in_date, expires) refl

  verified-payload_of :
      (signed sig64 secret : String) (sig : List ℕ) (now : ℕ)
      → b64url_to_bytes crypto sig64 ≡ some sig
      → crypto.verify secret sig (crypto.utf8 signed) ≡ true
      → verified crypto signed sig64 secret now ≡ payload_of crypto signed now
  unfolding verified
  verified-payload_of signed sig64 secret sig now read verifies = rw (verified, read, verifies) refl

  -- the parts of a token are what was signed and its signature
  split_dot-sign_token :
      (payload : P) (secret raw : String) (sig : List ℕ)
      → Codes (crypto.utf8 (crypto.stringify payload))
      → crypto.sign secret (crypto.utf8 (token_data crypto payload)) ≡ some sig
      → sign_token crypto payload secret ≡ some raw
      → split_dot raw ≡ some (token_data crypto payload, bytes_to_b64url crypto sig)
  unfolding sign_token Codes token_data
  split_dot-sign_token payload secret raw sig (body, plain, h, back) signs issued =
      let built : some
            (joined (token_data crypto payload) (String.◌∷◌ "." (bytes_to_b64url crypto sig)))
          ≡ some raw =
        rw (sign_token, signs) at issued in
      subst (λ r. split_dot r ≡ some (token_data crypto payload, bytes_to_b64url crypto sig))
        (some-injective _ _ built)
        (subst
          (λ d.
            split_dot (joined d (String.◌∷◌ "." (bytes_to_b64url crypto sig)))
            ≡ some (d, bytes_to_b64url crypto sig))
          (sym (bytes_to_b64url-body (crypto.utf8 (crypto.stringify payload)) body plain h))
          (split_dot-joined body (bytes_to_b64url crypto sig) plain))

  -- A token gives back the payload that was signed, until the second that it expires in and no longer: where
  -- the signing succeeds and its signature verifies, the text codecs and JSON give back the payload, and
  -- base64 writes its alphabet and reads back what it wrote, of the payload and of the signature.
  pub verify_token-sign_token :
      (payload : P) (secret raw : String) (sig : List ℕ) (exp now : ℕ)
      → crypto.expiry payload ≡ some (pos exp)
      → crypto.parse (crypto.utf8_decode (crypto.utf8 (crypto.stringify payload))) ≡ some payload
      → Codes (crypto.utf8 (crypto.stringify payload))
      → Codes sig
      → crypto.sign secret (crypto.utf8 (token_data crypto payload)) ≡ some sig
      → crypto.verify secret sig (crypto.utf8 (token_data crypto payload)) ≡ true
      → sign_token crypto payload secret ≡ some raw
      → verify_token crypto raw secret now ≡ (if leb exp (now / 1000) then none else some payload)
  unfolding verify_token token_data
  verify_token-sign_token payload secret raw sig exp now expires parses codes codes' signs verifies
        issued =
      rw (verify_token, split_dot-sign_token payload secret raw sig codes signs issued)
        (verified-payload_of (token_data crypto payload) (bytes_to_b64url crypto sig) secret sig now
            (b64url_to_bytes-bytes_to_b64url sig codes') verifies
          ∙ payload_of-signed (token_data crypto payload) (crypto.utf8 (crypto.stringify payload))
              payload exp now
              (b64url_to_bytes-bytes_to_b64url (crypto.utf8 (crypto.stringify payload)) codes)
              parses expires)
