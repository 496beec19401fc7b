-- ===== src/Tts/Verifier/Laws.antt =====
-- Reading the claims back, and which keys are accepted.
use kontxt.Base.{String, ◌≡◌, refl, ap, none, some, ◌++◌, Eq_nat, Eq_string}
use kontxt.Base.Maps.{lookup}
use kontxt.Base.Integers.{ℤ, ◌+ℤ◌, floor_div}
use kontxt.Any.{Object, entries-members}
use kontxt.Token.{Claims, jwt_claims, second, optional_entry}
use kontxt.Tts.Verifier.{extract_claims, object_at}

tctx_back :
    (tctx rctx : Object)
    → object_at "tctx" (optional_entry "tctx" tctx ++ optional_entry "rctx" rctx) ≡ tctx
unfolding lookup
tctx_back none none = refl
tctx_back none (some r) = refl
tctx_back (some t) r = ap some (entries-members t)

rctx_back :
    (tctx rctx : Object)
    → object_at "rctx" (optional_entry "tctx" tctx ++ optional_entry "rctx" rctx) ≡ rctx
unfolding lookup
rctx_back none none = refl
rctx_back (some t) none = refl
rctx_back none (some r) = ap some (entries-members r)
rctx_back (some t) (some r) = ap some (entries-members r)

-- The claims of a token that was made from these at a time, with a lifetime and a transaction id.
abbrev pub issued : Claims → ℤ → ℤ → String → Claims
issued claims now lifetime txn = record claims {
  issued_at = floor_div now second;
  expires_at = floor_div (now +ℤ lifetime) second;
  transaction_id = txn;
}

-- The verifier reads back the claims that a new token is signed for, with its times and its
-- transaction id.
pub extract_claims-jwt_claims :
    (claims : Claims) (now lifetime : ℤ) (txn : String)
    → extract_claims (jwt_claims claims now lifetime txn) ≡ issued claims now lifetime txn
unfolding extract_claims jwt_claims lookup
extract_claims-jwt_claims claims now lifetime txn = λ i. record (issued claims now lifetime txn) {
  transaction_context = tctx_back claims.transaction_context claims.requester_context i;
  requester_context = rctx_back claims.transaction_context claims.requester_context i;
}
