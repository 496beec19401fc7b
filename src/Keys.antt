-- ===== src/Keys.antt =====
-- pkg/keys: the signing key, the previous one, and their rotation.
use kontxt.Base.{
  ℕ, String, ◌≡◌, not, Option, none, some, List, [], ◌∷◌, if◌then◌else◌, ◌==◌, Eq_nat, Eq_string,
  Outcome, ok, err, ◌>>=◌,
}
use kontxt.Base.Maps.{Map}
use kontxt.Base.Integers.{ℤ}
use kontxt.Jwt.{Jwt}

-- keyEntry
pub record KeyEntry (jwt : Jwt) : Type 0 where
  pub private_key : jwt.PrivateKey
  pub kid : String

-- Manager
pub record Manager (jwt : Jwt) : Type 0 where
  pub current : KeyEntry jwt
  pub previous : Option (KeyEntry jwt)
  pub key_size : ℕ
  pub lifetime : ℤ

-- PublicKey, in JWK format
pub record JwkKey : Type 0 where
  pub kty : String
  pub use_of : String
  pub alg : String
  pub kid : String
  pub modulus : String
  pub exponent : String

-- What the package takes from crypto and encoding: the key id (SHA-256), and the base64url forms of
-- the modulus and the exponent with their decoding.
pub record KeyCodec (jwt : Jwt) : Type 0 where
  pub compute_kid : jwt.PublicKey → String
  pub encode_modulus : jwt.PublicKey → String
  pub encode_exponent : jwt.PublicKey → String
  pub decode : String → String → Outcome String jwt.PublicKey

-- Decoding gives back the key that was encoded.
abbrev pub Decodes : (jwt : Jwt) → KeyCodec jwt → Type 0
Decodes jwt codec =
    (k : jwt.PublicKey) → codec.decode (codec.encode_modulus k) (codec.encode_exponent k) ≡ ok k

module _ {jwt : Jwt} (codec : KeyCodec jwt) where
  open jwt use {PrivateKey, PublicKey, public_key}

  -- generateKey, on what rsa.GenerateKey returns
  unfoldable pub generate_key : Outcome String PrivateKey → Outcome String (KeyEntry jwt)
  generate_key generated = do
    key ← generated
    ok (record { private_key = key; kid = codec.compute_kid (public_key key) })

  -- NewManager
  unfoldable pub new_manager : ℕ → ℤ → Outcome String PrivateKey → Outcome String (Manager jwt)
  unfolding generate_key
  new_manager key_size rotation_interval generated = do
    entry ← generate_key generated
    ok (record {
      current = entry;
      previous = none;
      key_size = key_size;
      lifetime = rotation_interval;
    })

  -- Rotate; on an error the manager stays
  unfoldable pub rotate :
      Manager jwt → Outcome String PrivateKey → Manager jwt × Outcome String (Unit {0})
  unfolding generate_key
  rotate m generated = elim (generate_key generated) [
    | err e ↦ (m, err e)
    | ok entry ↦ (record m { previous = some m.current; current = entry }, ok tt)
  ]

  -- newPublicKey
  unfoldable pub new_public_key : KeyEntry jwt → JwkKey
  new_public_key entry = record {
    kty = "RSA";
    use_of = "sig";
    alg = "RS256";
    kid = entry.kid;
    modulus = codec.encode_modulus (public_key entry.private_key);
    exponent = codec.encode_exponent (public_key entry.private_key);
  }

  -- PublicKeys
  unfoldable pub public_keys : Manager jwt → List JwkKey
  unfolding new_public_key
  public_keys m =
      new_public_key m.current
      ∷ elim m.previous [ none ↦ [] | some entry ↦ new_public_key entry ∷ [] ]

  -- RSAPublicKey
  unfoldable pub rsa_public_key : JwkKey → Outcome String PublicKey
  rsa_public_key pk = codec.decode pk.modulus pk.exponent

-- What `JWKSHandler` answers; a key set is a JWKSet in its encoding.
pub data JwksReply : Type 0 where
  method_not_allowed : JwksReply
  key_set : Map String String → List JwkKey → JwksReply

-- JWKSHandler, on the method of a request
unfoldable pub jwks_handler : {jwt : Jwt} → KeyCodec jwt → Manager jwt → String → JwksReply
jwks_handler codec m method =
    if not (method == "GET")
    then method_not_allowed
    else (key_set
        (("Content-Type", "application/json") ∷ ("Cache-Control", "public, max-age=300") ∷ [])
        (public_keys codec m))

-- SigningKey
unfoldable pub signing_key : {jwt : Jwt} → Manager jwt → jwt.PrivateKey × String
signing_key m = (m.current.private_key, m.current.kid)
