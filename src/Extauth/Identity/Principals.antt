-- ===== src/Extauth/Identity/Principals.antt =====
-- SPIFFE principals: what a principal of the documented form resolves to.
use Prim.Native.String.{[], ◌∷◌}
use mathlib.Core.List.{[], ◌∷◌}
use kontxt.Base.{
  String, ◌≡◌, refl, ap, ◌∙◌, inl, inr, false, some, arith, eq_iff, ◌==◌, Eq_string, Bool-cases, ok,
  concat,
}
use kontxt.Base.Strings.{split, strip_prefix, contains_char}
use kontxt.Base.Strings.Parts.{cut-concat, split-concat, split-whole, strip_prefix-concat}
use kontxt.Extauth.Identity.{identity_of, identity_of_parts, resolve_from_principal}

-- The path of a service account, and the principal of a trust domain with it.
abbrev path_of : String → String → String
path_of ns sa = concat "ns" ("/" ∷ concat ns ("/" ∷ concat "sa" ("/" ∷ sa)))

abbrev pub principal_of : String → String → String → String
principal_of trust_domain ns sa = concat "spiffe://" (concat trust_domain ("/" ∷ path_of ns sa))

split-path_of :
    (ns sa : String)
    → contains_char ns 47 ≡ false
    → contains_char sa 47 ≡ false
    → split 47 (path_of ns sa) ≡ "ns" ∷ ns ∷ "sa" ∷ sa ∷ []
unfolding contains_char
split-path_of ns sa ns_plain sa_plain =
    split-concat 47 "ns" _ "/" refl refl
    ∙ ap (λ l. "ns" ∷ l)
        (split-concat 47 ns _ "/" refl ns_plain
          ∙ ap (λ l. ns ∷ l)
              (split-concat 47 "sa" _ "/" refl refl
                ∙ ap (λ l. "sa" ∷ l) (split-whole 47 sa sa_plain)))

spiffe_nonempty :
    (principal path : String)
    → strip_prefix principal "spiffe://" ≡ some path
    → (principal == "") ≡ false
unfolding strip_prefix
spiffe_nonempty principal path e = elim (Bool-cases (principal == "")) [
  | inr there ↦ there
  | inl empty ↦ absurd (ground (arith, (rw ((eq_iff principal "").0 empty) at e)))
]

-- A principal of the documented form, whose parts hold no slash, resolves to the service account
-- that it names.
pub resolve_from_principal-principal_of :
    (trust_domain ns sa : String)
    → contains_char trust_domain 47 ≡ false
    → contains_char ns 47 ≡ false
    → contains_char sa 47 ≡ false
    → resolve_from_principal (principal_of trust_domain ns sa) ≡ ok (identity_of ns sa)
unfolding resolve_from_principal identity_of_parts
resolve_from_principal-principal_of trust_domain ns sa td_plain ns_plain sa_plain =
    let spiffe = strip_prefix-concat "spiffe://" (concat trust_domain ("/" ∷ path_of ns sa)) in
    rw (spiffe_nonempty _ _ spiffe, spiffe, resolve_from_principal)
      (rw (cut-concat 47 trust_domain (path_of ns sa) "/" refl td_plain, resolve_from_principal)
        (rw (split-path_of ns sa ns_plain sa_plain, resolve_from_principal) refl))
