-- ===== src/Tts/Verifier/Rotation.antt =====
-- Which keys are accepted around a rotation.
use kontxt.Base.{
  String, ◌≡◌, refl, ◌∙◌, ◌≢◌, false, arith, eq_iff, ◌==◌, Eq_nat, Eq_string, test_refl, ok, err,
}
use kontxt.Jwt.{Jwt, JwtToken, rsa}
use kontxt.Keys.{
  Manager, KeyCodec, Decodes, rotate, generate_key, public_keys, new_public_key, rsa_public_key,
}
use kontxt.Tts.Verifier.{unknown_kid, text_at, find_key, key_func}

pub text_differs : (a b : String) → a ≢ b → (a == b) ≡ false
text_differs a b n = ground (arith, n, eq_iff a b)

module _ {jwt : Jwt} (codec : KeyCodec jwt) where
  open jwt use {PrivateKey, public_key}

  abbrev pub kid_of : PrivateKey → String
  kid_of key = codec.compute_kid (public_key key)

  abbrev pub rotated : Manager jwt → PrivateKey → Manager jwt
  rotated m key = (rotate codec m (ok key)).0

  key_func_found :
      (m : Manager jwt) (t : JwtToken) (kid : String)
      → t.method ≡ rsa
      → text_at "kid" t.header ≡ kid
      → kid ≢ ""
      → key_func codec m t ≡ find_key codec (public_keys codec m) kid
  unfolding key_func
  key_func_found m t kid is_rsa same there = rw (is_rsa, same, text_differs kid "" there) refl

  -- After a rotation to a key with another id, the key function answers a token of an RSA method,
  -- whose key id is the one of the key before and not empty, with that key, when decoding gives
  -- back encoded keys.
  pub key_func-rotate :
      (m : Manager jwt) (key : PrivateKey) (t : JwtToken)
      → Decodes jwt codec
      → t.method ≡ rsa
      → text_at "kid" t.header ≡ m.current.kid
      → m.current.kid ≢ ""
      → kid_of key ≢ m.current.kid
      → key_func codec (rotated m key) t ≡ ok (public_key m.current.private_key)
  unfolding find_key public_keys new_public_key rsa_public_key rotate generate_key
  key_func-rotate m key t decodes is_rsa same there differs =
      key_func_found (rotated m key) t m.current.kid is_rsa same there
      ∙ (rw
          (
            text_differs (kid_of key) m.current.kid differs,
            test_refl m.current.kid,
            decodes (public_key m.current.private_key),
          )
          refl)

  -- After two rotations to keys with other ids, the key function refuses a token of an RSA method,
  -- whose key id is the one of the first key and not empty, as one with an unknown key id.
  pub key_func-rotate_twice :
      (m : Manager jwt) (key next : PrivateKey) (t : JwtToken)
      → t.method ≡ rsa
      → text_at "kid" t.header ≡ m.current.kid
      → m.current.kid ≢ ""
      → kid_of key ≢ m.current.kid
      → kid_of next ≢ m.current.kid
      → key_func codec (rotated (rotated m key) next) t ≡ err (unknown_kid m.current.kid)
  unfolding find_key public_keys new_public_key rsa_public_key rotate generate_key
  key_func-rotate_twice m key next t is_rsa same there differs differs' =
      key_func_found (rotated (rotated m key) next) t m.current.kid is_rsa same there
      ∙ (rw
          (
            text_differs (kid_of next) m.current.kid differs',
            text_differs (kid_of key) m.current.kid differs,
          )
          refl)
