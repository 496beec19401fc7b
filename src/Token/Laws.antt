-- ===== src/Token/Laws.antt =====
-- What `New` requires of the claims, and what it signs.
use kontxt.Base.{String, ◌≡◌, ◌≢◌, ◌↔◌, inl, inr, arith, eq_iff, ok, Outcome-cases, map_err-eq-ok}
use kontxt.Base.Integers.{ℤ}
use kontxt.Jwt.{Jwt}
use kontxt.Token.{Claims, validate_required, jwt_claims, jwt_header, transaction_of, new, signing}

-- Every claim that `validateRequired` asks for is there.
pub record HasRequired (claims : Claims) : Type 0 where
  pub has_issuer : claims.issuer ≢ ""
  pub has_audience : claims.audience ≢ ""
  pub has_subject : claims.subject ≢ ""
  pub has_scope : claims.scope ≢ ""
  pub has_workload : claims.requesting_workload ≢ ""

pub validate_required_iff : (c : Claims) → (validate_required c ≡ ok tt) ↔ HasRequired c
unfolding validate_required
validate_required_iff c = ground (
  arith,
  eq_iff c.issuer "",
  eq_iff c.audience "",
  eq_iff c.subject "",
  eq_iff c.scope "",
  eq_iff c.requesting_workload "",
)

-- A token is created exactly when the required claims are there and the signer signs the claims
-- map, whose transaction id is the given one or a fresh one.
pub new_iff :
    (jwt : Jwt) (now : ℤ) (uuid : String) (claims : Claims) (key : jwt.PrivateKey) (kid : String)
    (lifetime : ℤ) (s : String)
    → (new jwt now uuid claims key kid lifetime ≡ ok s) ↔ (
        HasRequired claims
        × (jwt.sign
              (jwt_header kid)
              (jwt_claims claims now lifetime (transaction_of claims uuid))
              key
            ≡ ok s))
unfolding new
new_iff jwt now uuid claims key kid lifetime s = elim (Outcome-cases (validate_required claims)) [
  | inl (tt, valid) ↦
      rw valid (
        (λ e. ((validate_required_iff claims).0 valid, map_err-eq-ok signing _ e)),
        (λ h. rw (h.1)),
      )
  | inr (e, invalid) ↦ rw invalid ((λ h. cc), (λ h. cc ((validate_required_iff claims).1 h.0)))
]

-- A given transaction id is kept.
pub transaction_of_given :
    (claims : Claims) (uuid : String)
    → claims.transaction_id ≢ ""
    → transaction_of claims uuid ≡ claims.transaction_id
unfolding transaction_of
transaction_of_given claims uuid given = ground (arith, eq_iff claims.transaction_id "")
