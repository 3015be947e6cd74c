-- ===== src/TokenWitnesses.antt =====
-- The theorem on tokens at a concrete input: a token that expires at the hundredth second, a second before.
use pramen.Base.{ℕ, ◌≡◌, refl, ◌==◌, none, some, List, [], ◌∷◌, if◌then◌else◌}
use pramen.Cell.Int.{ℤ, pos}
use pramen.Token.{Crypto, sign_token, verify_token}
use pramen.Token.Laws.{Codes, verify_token-sign_token}

abbrev bytes : List ℕ
bytes = 65 ∷ []

abbrev crypto : Crypto ℤ
crypto = record {
  stringify = λ p. "A";
  parse = λ s. if s == "A" then some (pos 100) else none;
  expiry = λ p. some p;
  utf8 = λ s. bytes;
  utf8_decode = λ b. "A";
  btoa = λ b. "QQ==";
  atob = λ s. if s == "QQ==" then some bytes else none;
  sign = λ secret b. some bytes;
  verify = λ secret sig b. secret == "s";
}

bytes-Codes : Codes crypto bytes
unfolding Codes pramen.Token.Laws.IsBase64 pramen.Token.joined pramen.Token.padding
    pramen.Token.missing_padding
bytes-Codes = ("QQ", (refl, refl, refl, refl, (refl, refl, refl, refl, tt)), refl, refl)

verify_token-sign_token_example : verify_token crypto "QQ.QQ" "s" 99000 ≡ some (pos 100)
unfolding sign_token
verify_token-sign_token_example =
    verify_token-sign_token crypto (pos 100) "s" "QQ.QQ" bytes 100 99000 refl refl bytes-Codes
      bytes-Codes refl refl refl
