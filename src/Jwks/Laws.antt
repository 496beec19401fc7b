-- ===== src/Jwks/Laws.antt =====
-- What a cache answers after a key set was fetched.
use kontxt.Base.{
  String, ◌≡◌, refl, ap, ◌∙◌, ◌⊎◌, inl, inr, ◌&&◌, Option, none, some, List, [], ◌∷◌, arith, eq_iff,
  if◌then◌else◌, ◌==◌, Eq_nat, Eq_string, ok, err, Outcome-cases,
}
use kontxt.Base.Maps.{Map, lookup, lookup-insert}
use kontxt.Jwt.{Jwt}
use kontxt.Keys.{JwkKey, KeyCodec}
use kontxt.Jwks.{jwk_to_rsa_public_key, cache_key, cache_keys}

module _ {jwt : Jwt} (codec : KeyCodec jwt) where
  open jwt use {PublicKey}

  -- The key that an entry of a key set publishes under a key id.
  unfoldable pub key_of : String → JwkKey → Option PublicKey
  key_of kid k =
      if k.kid == kid && (k.kty == "RSA" && k.use_of == "sig")
      then elim (jwk_to_rsa_public_key codec k) [ err _ ↦ none | ok key ↦ some key ]
      else none

  abbrev pub or_else : Option PublicKey → Option PublicKey → Option PublicKey
  or_else (some k) o = some k
  or_else none o = o

  -- The key that a key set publishes under a key id: the last one, where several do.
  unfoldable pub published : List JwkKey → String → Option PublicKey
  published [] kid = none
  published (k ∷ ks) kid = or_else (published ks kid) (key_of kid k)

  lookup-cache_key :
      (kid : String) (k : JwkKey) (keys : Map String PublicKey)
      → lookup kid (cache_key codec k keys) ≡ or_else (key_of kid k) (lookup kid keys)
  unfolding cache_key key_of
  lookup-cache_key kid k keys = elim (Outcome-cases (jwk_to_rsa_public_key codec k)) [
    | inl (key, decoded) ↦
        rw decoded (ground (arith, lookup-insert k.kid kid key keys, eq_iff k.kid kid))
    | inr (e, broken) ↦ rw broken (ground arith)
  ]

  or_else_assoc : (a b c : Option PublicKey) → or_else a (or_else b c) ≡ or_else (or_else a b) c
  or_else_assoc (some k) b c = refl
  or_else_assoc none b c = refl

  -- A cache answers with the key that was published last, and else as before.
  pub lookup-cache_keys :
      (kid : String) (ks : List JwkKey) (keys : Map String PublicKey)
      → lookup kid (cache_keys codec ks keys) ≡ or_else (published ks kid) (lookup kid keys)
  unfolding cache_keys published
  lookup-cache_keys kid [] keys = refl
  lookup-cache_keys kid (k ∷ ks) keys =
      lookup-cache_keys kid ks (cache_key codec k keys)
      ∙ ap (or_else (published ks kid)) (lookup-cache_key kid k keys)
      ∙ or_else_assoc (published ks kid) (key_of kid k) (lookup kid keys)

  pub or_else-cases :
      (a b : Option PublicKey) {key : PublicKey}
      → or_else a b ≡ some key
      → (a ≡ some key) ⊎ (b ≡ some key)
  or_else-cases (some k) b e = inl e
  or_else-cases none b e = inr e

  pub or_else-some :
      (a b : Option PublicKey) {key : PublicKey}
      → b ≡ some key
      → (other : PublicKey) × (or_else a b ≡ some other)
  or_else-some (some k) b e = (k, refl)
  or_else-some none b {key} e = (key, e)
