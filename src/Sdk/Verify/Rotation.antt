-- ===== src/Sdk/Verify/Rotation.antt =====
-- Which keys the cache of a verifier accepts around the rotations of the token service.
use kontxt.Base.{String, ◌≡◌, refl, ap, ◌∙◌, ◌≢◌, none, some, List, Eq_nat, Eq_string, ok, err}
use kontxt.Base.Maps.{lookup}
use kontxt.Jwt.{Jwt, JwtToken}
use kontxt.Keys.{Manager, JwkKey, KeyCodec, rotate, generate_key, public_keys, new_public_key}
use kontxt.Jwks.{Http, get_jwks}
use kontxt.Jwks.Laws.{key_of, published}
use kontxt.Tts.Verifier.Rotation
use kontxt.Tts.Verifier.Rotation.{rotated, text_differs}
use kontxt.Sdk.Verify.{Verifier, kid_of, cached, key_for, key_func, key_not_found}
use kontxt.Sdk.Verify.Laws.{holding, lookup-fetched, key_for-fetched}

module _ {jwt : Jwt} (codec : KeyCodec jwt) where
  open jwt use {PrivateKey, PublicKey, public_key}

  abbrev twice : Manager jwt → PrivateKey → PrivateKey → Manager jwt
  twice m key next = rotated codec (rotated codec m key) next

  published-twice :
      (m : Manager jwt) (key next : PrivateKey)
      → Rotation.kid_of codec key ≢ m.current.kid
      → Rotation.kid_of codec next ≢ m.current.kid
      → published codec (public_keys codec (twice m key next)) m.current.kid ≡ none
  unfolding published public_keys new_public_key rotate generate_key key_of
  published-twice m key next differs differs' =
      rw
        (
          text_differs (Rotation.kid_of codec key) m.current.kid differs,
          text_differs (Rotation.kid_of codec next) m.current.kid differs',
        )
        refl

  key_func-named :
      (http : Http) (t : JwtToken) (kid : String) (v : Verifier jwt)
      → kid_of t ≡ ok kid
      → key_func http codec t v ≡ key_for http codec kid v
  unfolding key_func
  key_func-named http t kid v named = rw named refl

  key_for-cached :
      (http : Http) (kid : String) (v : Verifier jwt) {key : PublicKey}
      → lookup kid v.keys ≡ some key
      → key_for http codec kid v ≡ (v, ok key)
  unfolding key_for
  key_for-cached http kid v there = rw (there, key_for) refl

  -- A key id that is neither cached nor published is refused.
  key_for-unpublished :
      (http : Http) (ks : List JwkKey) (kid : String) (v : Verifier jwt)
      → get_jwks http v.jwks_url ≡ ok ks
      → lookup kid v.keys ≡ none
      → published codec ks kid ≡ none
      → (key_for http codec kid v).1 ≡ err (key_not_found kid v.jwks_url)
  unfolding cached
  key_for-unpublished http ks kid v served missing unpublished =
      ap (λ r. r.1) (key_for-fetched codec http ks kid v served missing)
      ∙ rw (lookup-fetched codec ks kid ∙ unpublished, cached) refl

  module _ (m : Manager jwt) (key next : PrivateKey) (http : Http) (v : Verifier jwt)
      (old fresh : JwtToken) {kid : String} {known : PublicKey} where
    -- After two rotations to keys with other ids, a verifier still answers a token of the first key
    -- from its cache, until a token with a key id that is not cached makes it fetch the key set of
    -- the service, after which the first key is refused.
    pub key_func_rotated :
        Rotation.kid_of codec key ≢ m.current.kid
        → Rotation.kid_of codec next ≢ m.current.kid
        → get_jwks http v.jwks_url ≡ ok (public_keys codec (twice m key next))
        → kid_of old ≡ ok m.current.kid
        → lookup m.current.kid v.keys ≡ some known
        → kid_of fresh ≡ ok kid
        → lookup kid v.keys ≡ none
        → (key_func http codec old v ≡ (v, ok known))
          × ((key_func http codec old (key_func http codec fresh v).0).1
              ≡ err (key_not_found m.current.kid v.jwks_url))
    key_func_rotated differs differs' served named there named' missing =
        let ks : List JwkKey = public_keys codec (twice m key next) in
        let unpublished = published-twice m key next differs differs' in
        let after =
          key_func-named http fresh kid v named'
          ∙ key_for-fetched codec http ks kid v served missing in
        (
          key_func-named http old m.current.kid v named ∙ key_for-cached http m.current.kid v there,
          ap (λ r. (key_func http codec old r.0).1) after
              ∙ ap (λ r. r.1) (key_func-named http old m.current.kid (holding codec ks v) named)
              ∙ key_for-unpublished http ks m.current.kid (holding codec ks v) served
                  (lookup-fetched codec ks m.current.kid ∙ unpublished) unpublished,
        )
