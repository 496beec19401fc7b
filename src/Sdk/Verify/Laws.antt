-- ===== src/Sdk/Verify/Laws.antt =====
-- The key function over a served key set answers as the one of the token service.
use kontxt.Base.{
  String, ◌≡◌, refl, ap, ◌∙◌, inl, inr, false, Option, none, some, List, [], arith, eq_iff,
  if◌then◌else◌, ◌==◌, Eq_nat, Eq_string, Bool-cases, Option-cases, Outcome, ok, err,
}
use kontxt.Base.Maps.{lookup}
use kontxt.Jwt.{Jwt, JwtToken, is_rsa}
use kontxt.Keys.{
  Manager, KeyEntry, JwkKey, KeyCodec, Decodes, public_keys, new_public_key, rsa_public_key,
}
use kontxt.Jwks.{Http, get_jwks, cache_keys, jwk_to_rsa_public_key}
use kontxt.Jwks.Laws.{key_of, or_else, published, lookup-cache_keys}
use kontxt.Tts.Verifier
use kontxt.Tts.Verifier.{find_key, text_at}
use kontxt.Sdk.Verify.{Verifier, new, kid_of, cached, fetch_jwks, fetch_key, key_for, key_func}

-- The result, if there is one.
abbrev pub result {ℓ κ} : {E : Type ℓ} {A : Type κ} → Outcome E A → Option A
result (ok a) = some a
result (err e) = none

module _ {jwt : Jwt} (codec : KeyCodec jwt) where
  open jwt use {PublicKey, public_key}

  -- The two keys of a manager have different ids.
  abbrev pub IsDistinct : Manager jwt → Type 0
  IsDistinct m =
      (entry : KeyEntry jwt) → m.previous ≡ some entry → (entry.kid == m.current.kid) ≡ false

  -- What the manager publishes as a key.
  key_of-new_public_key :
      (entry : KeyEntry jwt) (kid : String)
      → Decodes jwt codec
      → key_of codec kid (new_public_key codec entry)
        ≡ (if entry.kid == kid then some (public_key entry.private_key) else none)
  unfolding key_of new_public_key jwk_to_rsa_public_key
  key_of-new_public_key entry kid decodes =
      rw (decodes (public_key entry.private_key)) (ground arith)

  rsa_public_key-new_public_key :
      (entry : KeyEntry jwt)
      → Decodes jwt codec
      → rsa_public_key codec (new_public_key codec entry) ≡ ok (public_key entry.private_key)
  unfolding new_public_key rsa_public_key
  rsa_public_key-new_public_key entry decodes = decodes (public_key entry.private_key)

  -- The key set of a manager publishes under a key id the key that the token service finds.
  published-find_key :
      (m : Manager jwt) (kid : String)
      → Decodes jwt codec
      → IsDistinct m
      → published codec (public_keys codec m) kid
        ≡ result (find_key codec (public_keys codec m) kid)
  unfolding published public_keys find_key new_public_key
  published-find_key m kid decodes distinct = elim (Option-cases m.previous) [
    | inl missing ↦
        rw
          (
            missing,
            key_of-new_public_key m.current kid decodes,
            rsa_public_key-new_public_key m.current decodes,
          )
          (ground arith)
    | inr (entry, there) ↦
        rw
          (
            there,
            key_of-new_public_key m.current kid decodes,
            rsa_public_key-new_public_key m.current decodes,
            key_of-new_public_key entry kid decodes,
            rsa_public_key-new_public_key entry decodes,
          )
          (ground (
            arith,
            distinct entry there,
            eq_iff entry.kid m.current.kid,
            eq_iff entry.kid kid,
            eq_iff m.current.kid kid,
          ))
  ]

  result-cached : (kid : String) (v : Verifier jwt) → result (cached kid v) ≡ lookup kid v.keys
  unfolding cached
  result-cached kid v = elim (Option-cases (lookup kid v.keys)) [
    | inl missing ↦ rw (missing, cached) refl
    | inr (key, there) ↦ rw (there, cached) refl
  ]

  or_else-none : (o : Option PublicKey) → or_else codec o none ≡ o
  or_else-none none = refl
  or_else-none (some k) = refl

  -- A fetch leaves just the keys that were published.
  pub lookup-fetched :
      (ks : List JwkKey) (kid : String)
      → lookup kid (cache_keys codec ks []) ≡ published codec ks kid
  unfolding lookup
  lookup-fetched ks kid = lookup-cache_keys codec kid ks [] ∙ or_else-none (published codec ks kid)

  -- The verifier with the keys of a key set.
  abbrev pub holding : List JwkKey → Verifier jwt → Verifier jwt
  holding ks v = record v { keys = cache_keys codec ks [] }

  -- A key id that is not cached is looked up in the key set that is served, which the cache then is.
  pub key_for-fetched :
      (http : Http) (ks : List JwkKey) (kid : String) (v : Verifier jwt)
      → get_jwks http v.jwks_url ≡ ok ks
      → lookup kid v.keys ≡ none
      → key_for http codec kid v ≡ (holding ks v, cached kid (holding ks v))
  unfolding key_for fetch_key fetch_jwks
  key_for-fetched http ks kid v served missing = rw (missing, key_for) (rw served refl)

  pub result-key_for :
      (http : Http) (ks : List JwkKey) (kid : String) (v : Verifier jwt)
      → get_jwks http v.jwks_url ≡ ok ks
      → lookup kid v.keys ≡ none
      → result (key_for http codec kid v).1 ≡ published codec ks kid
  result-key_for http ks kid v served missing =
      ap (λ r. result r.1) (key_for-fetched http ks kid v served missing)
      ∙ result-cached kid (holding ks v)
      ∙ lookup-fetched ks kid

  -- A new verifier, to which the key set of the token service is served, resolves the keys that the
  -- token service itself resolves, and no others, when decoding gives back encoded keys and the two
  -- keys have different ids.
  pub key_func_served :
      (m : Manager jwt) (http : Http) (url audience : String) (t : JwtToken)
      → Decodes jwt codec
      → IsDistinct m
      → get_jwks http url ≡ ok (public_keys codec m)
      → result (key_func http codec t (new url audience)).1 ≡ result (Verifier.key_func codec m t)
  unfolding key_func kid_of Verifier.key_func new lookup
  key_func_served m http url audience t decodes distinct served =
      elim (Bool-cases (is_rsa t.method)) [
        | inr other ↦ rw other refl
        | inl rsa ↦ elim (Bool-cases (text_at "kid" t.header == "")) [
          | inl empty ↦ rw (rsa, empty) refl
          | inr named ↦
              rw (rsa, named)
                (result-key_for http (public_keys codec m) (text_at "kid" t.header)
                    (new url audience) served refl
                  ∙ published-find_key m (text_at "kid" t.header) decodes distinct)
        ]
      ]
