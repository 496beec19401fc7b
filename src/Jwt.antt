-- ===== src/Jwt.antt =====
-- golang-jwt and crypto/rsa, which the program only calls, as an interface.
use kontxt.Base.{
  String, ◌≡◌, ◌≢◌, ◌⊎◌, Bool, true, false, some, List, Eq_nat, Eq_string, Outcome, ok,
}
use kontxt.Base.Maps.{Map, lookup}
use kontxt.Base.Integers.{ℤ}
use kontxt.Any.{Any, text}

-- The signing methods that the key functions tell apart.
pub data Method : Type 0 where
  rsa other_method : Method

-- `_, ok := t.Method.(*jwt.SigningMethodRSA)`
abbrev pub is_rsa : Method → Bool
is_rsa rsa = true
is_rsa other_method = false

-- jwt.Token: the method, the header and the claims.
pub record JwtToken : Type 0 where
  pub method : Method
  pub header : Map String Any
  pub claims : Map String Any

pub record Jwt : Type 1 where
  pub PrivateKey : Type 0
  pub PublicKey : Type 0
  pub public_key : PrivateKey → PublicKey
  -- token.SignedString with RS256: the header, the claims, the key
  pub sign : Map String Any → Map String Any → PrivateKey → Outcome String String
  -- jwt.Parse at a time, in nanoseconds, with the key function and the expected audience
  pub parse : ℤ → String → (JwtToken → Outcome String PublicKey) → String → Outcome String JwtToken
  -- The signature of a token verifies under a key.
  pub Verifies : String → PublicKey → Type 0

-- The options of jwt.Parse that the program sets.
pub data ParseOption : Type 0 where
  with_issuer with_audience : String → ParseOption

-- jwt.Parse with a key function that may change a state, such as a cache of keys, and
-- MapClaims.GetAudience.
pub record Parser (jwt : Jwt) : Type 1 where
  pub parse :
      {S : Type 0}
      → ℤ
      → ParseOption
      → String
      → (JwtToken → S → S × Outcome String jwt.PublicKey)
      → S
      → S × Outcome String JwtToken
  pub audience_of : Map String Any → Outcome String (List String)
  -- The test of the times in the claims, such as the expiry, at a time.
  pub is_current : ℤ → Map String Any → Bool

-- What the documentation of golang-jwt says of jwt.Parse: the key function is called at most once, a
-- token comes back only when it verifies under the key that the function answered with, and an issuer
-- that is asked for and not empty is the one of the claims.
pub record IsParser {jwt : Jwt} (parser : Parser jwt) : Type 1 where
  pub parsed :
      {S : Type 0} (now : ℤ) (option : ParseOption) (token : String)
      (key_func : JwtToken → S → S × Outcome String jwt.PublicKey) (s t : S) (parsed : JwtToken)
      → parser.parse now option token key_func s ≡ (t, ok parsed)
      → (key : jwt.PublicKey) × (key_func parsed s ≡ (t, ok key)) × jwt.Verifies token key
  pub called_once :
      {S : Type 0} (now : ℤ) (option : ParseOption) (token : String)
      (key_func : JwtToken → S → S × Outcome String jwt.PublicKey) (s : S)
      → ((parser.parse now option token key_func s).0 ≡ s)
        ⊎ ((seen : JwtToken) × ((parser.parse now option token key_func s).0 ≡ (key_func seen s).0))
  pub issued_by :
      {S : Type 0} (now : ℤ) (issuer token : String)
      (key_func : JwtToken → S → S × Outcome String jwt.PublicKey) (s t : S) (parsed : JwtToken)
      → parser.parse now (with_issuer issuer) token key_func s ≡ (t, ok parsed)
      → issuer ≢ ""
      → lookup "iss" parsed.claims ≡ some (text issuer)

-- What the documentation says of a token that is signed with RS256 and addressed to the audience asked
-- for, at a time that its claims allow: jwt.Parse gives back its header and claims, when the key
-- function answers them with the public key.
pub record IsComplete {jwt : Jwt} (parser : Parser jwt) : Type 1 where
  pub accepted :
      {S : Type 0} (now : ℤ) (audience token : String) (header claims : Map String Any)
      (private : jwt.PrivateKey) (key_func : JwtToken → S → S × Outcome String jwt.PublicKey)
      (s t : S)
      → jwt.sign header claims private ≡ ok token
      → parser.is_current now claims ≡ true
      → lookup "aud" claims ≡ some (text audience)
      → key_func (record { method = rsa; header = header; claims = claims }) s
        ≡ (t, ok (jwt.public_key private))
      → parser.parse now (with_audience audience) token key_func s
        ≡ (t, ok (record { method = rsa; header = header; claims = claims }))
