-- ===== src/Tests/Sdk.antt =====
-- The verifier and the middleware of the SDK at concrete inputs.
use kontxt.Base.{
  String, ◌≡◌, refl, ◌⊎◌, false, none, [], ◌∷◌, ◌==◌, Eq_nat, Eq_string, ok, err, subst, some_inj,
}
use kontxt.Base.Maps.{lookup}
use kontxt.Base.Integers.{pos}
use kontxt.Token.{header_name}
use kontxt.Keys.{Manager, public_keys, rotate, generate_key, KeyEntry}
use kontxt.Jwks.{get_ok, get_jwks}
use kontxt.Tts.Verifier
use kontxt.Tts.Verifier.Rotation.{rotated}
use kontxt.Sdk.Verify.{Verifier, new, kid_of, key_func, key_not_found}
use kontxt.Sdk.Verify.Laws.{result, key_func_served}
use kontxt.Sdk.Verify.Rotation.{key_func_rotated}
use kontxt.Sdk.Middleware.{Request, Response}
use kontxt.Sdk.Middleware.Laws.{IsRefused, IsPassed, verify_tx_token_lem}
use kontxt.Tests.Fixtures.{text_jwt, text_codec, text_manager, differ}
use kontxt.Tests.Parsing.{toy_token, token_with, text_parser, text_parser-IsParser, serving}

abbrev url : String
url = "https://tts/.well-known/jwks.json"

abbrev moved : Manager text_jwt
moved = rotated text_codec text_manager "k2"

key_func_served_example :
    result
      (key_func
        (serving (public_keys text_codec moved))
        text_codec
        toy_token
        (new url "example.com")).1
    ≡ result (Verifier.key_func text_codec moved toy_token)
unfolding get_jwks get_ok rotate generate_key
key_func_served_example =
    key_func_served text_codec moved (serving (public_keys text_codec moved)) url "example.com"
      toy_token (λ k. refl)
      (λ entry there.
        subst (λ (e : KeyEntry text_jwt). (e.kid == "k2") ≡ false) (some_inj there) refl)
      refl

abbrev holder : Verifier text_jwt
holder = record { jwks_url = url; audience = "example.com"; keys = ("k1", "k1") ∷ [] }

abbrev moved_twice : Manager text_jwt
moved_twice = rotated text_codec moved "k3"

key_func_rotated_example :
    (key_func (serving (public_keys text_codec moved_twice)) text_codec toy_token holder
      ≡ (holder, ok "k1"))
    × ((key_func
          (serving (public_keys text_codec moved_twice))
          text_codec
          toy_token
          (key_func
            (serving (public_keys text_codec moved_twice))
            text_codec
            (token_with "k3")
            holder).0).1
        ≡ err (key_not_found "k1" url))
unfolding get_jwks get_ok lookup kid_of
key_func_rotated_example =
    key_func_rotated text_codec text_manager "k2" "k3"
      (serving (public_keys text_codec moved_twice)) holder toy_token (token_with "k3")
      (differ "k2" "k1" refl) (differ "k3" "k1" refl) refl refl refl refl refl

abbrev incoming : Request
incoming = record { context = none; headers = (header_name, "a.b.c") ∷ [] }

abbrev fine : Request → Response
fine r = record { status = 200; headers = []; body = [] }

verify_tx_token_lem_example :
    IsRefused text_codec
      (serving (public_keys text_codec text_manager))
      text_parser
      (λ e. "no key")
      (λ e. "not verified")
      (pos 0)
      fine
      incoming
      holder
    ⊎ IsPassed text_codec
        (serving (public_keys text_codec text_manager))
        text_parser
        (λ e. "no key")
        (λ e. "not verified")
        (pos 0)
        fine
        incoming
        holder
verify_tx_token_lem_example =
    verify_tx_token_lem text_codec (serving (public_keys text_codec text_manager)) text_parser
      (λ e. "no key") (λ e. "not verified") (pos 0) fine incoming holder text_parser-IsParser
