-- ===== src/Controller/Policy.antt =====
-- The policy functions of internal/controller/rules.go.
pub mod Laws
use kontxt.Base.{
  String, Bool, false, not, ◌&&◌, ◌||◌, Option, none, some, List, [], ◌∷◌, ◌++◌, map, if◌then◌else◌,
  ◌==◌, Eq_nat, Eq_string, is_some, any, contains, Outcome, ok, err,
}
use kontxt.Base.Maps.{Map, lookup}
use kontxt.Base.Integers.{ℤ, exceeds}
use kontxt.Crd.{TransactionType, TctxEnrichment, TctxFieldMapping, TokenPolicy}

-- A violation, with what its text shows.
pub data Violation : Type 0 where
  lifetime_exceeds : String → String → Violation
  field_not_produced : String → Violation
  enricher_disallowed : String → Violation

-- `parse_duration` is time.ParseDuration.
module _ (parse_duration : String → Outcome String ℤ) where
  -- Both durations parse, and the first is longer.
  unfoldable pub longer : String → String → Bool
  longer a b = elim (parse_duration a) [
    | err _ ↦ false
    | ok m ↦ elim (parse_duration b) [ err _ ↦ false | ok n ↦ exceeds m n ]
  ]

  -- The lifetime check of `ValidateTransactionTypeAgainstPolicy`.
  unfoldable pub lifetime_violations : String → String → List Violation
  lifetime_violations max_lifetime lifetime =
      if not (max_lifetime == "") && not (lifetime == "") && longer lifetime max_lifetime
      then lifetime_exceeds lifetime max_lifetime ∷ []
      else []

  -- The inner loops over the mapping and the enrichments.
  unfoldable pub produces : TransactionType → String → Bool
  produces txn required =
      is_some (lookup required txn.spec.tctx_mapping)
      || any (λ e. e.field == required) txn.spec.tctx_enrichments

  -- The loop over the mandatory fields.
  unfoldable pub field_violations : TransactionType → List String → List Violation
  field_violations txn [] = []
  field_violations txn (required ∷ fields) =
      let rest = field_violations txn fields in
      if required == "purpose" || produces txn required
      then rest
      else field_not_produced required ∷ rest

  -- The inner loop over the disallowed enrichers: one violation for each that matches.
  unfoldable pub matching_enrichers : TctxEnrichment → List String → List Violation
  matching_enrichers e [] = []
  matching_enrichers e (disallowed ∷ rest) =
      let others = matching_enrichers e rest in
      if e.enricher == disallowed then enricher_disallowed e.enricher ∷ others else others

  -- The loop over the enrichments.
  unfoldable pub enricher_violations : List TctxEnrichment → List String → List Violation
  enricher_violations [] disallowed = []
  enricher_violations (e ∷ es) disallowed =
      matching_enrichers e disallowed ++ enricher_violations es disallowed

  -- ValidateTransactionTypeAgainstPolicy
  unfoldable pub validate_against_policy : TransactionType → Option TokenPolicy → List Violation
  validate_against_policy txn none = []
  validate_against_policy txn (some policy) =
      let limits = policy.spec.constraints in
      lifetime_violations limits.max_token_lifetime txn.spec.token_lifetime
      ++ field_violations txn limits.mandatory_tctx_fields
      ++ enricher_violations txn.spec.tctx_enrichments limits.disallowed_enrichers

  -- ClampTokenLifetime behind the default
  unfoldable pub clamp : String → String → String
  clamp requested max_lifetime =
      if max_lifetime == ""
      then requested
      else if longer requested max_lifetime
      then max_lifetime
      else requested

  -- ClampTokenLifetime
  unfoldable pub clamp_token_lifetime : String → String → String → String
  clamp_token_lifetime requested max_lifetime default_lifetime =
      clamp (if requested == "" then default_lifetime else requested) max_lifetime

-- The names of a mapping, in the order of a range.
abbrev pub names : Map String TctxFieldMapping → List String
names [] = []
names ((k, v) ∷ m) = k ∷ names m

-- ComputeProducedTctxFields
unfoldable pub compute_produced_tctx_fields : TransactionType → List String
compute_produced_tctx_fields txn =
    "purpose" ∷ (names txn.spec.tctx_mapping ++ map (λ e. e.field) txn.spec.tctx_enrichments)

-- The first policy without a selector.
unfoldable pub find_default : List TokenPolicy → Option TokenPolicy
find_default [] = none
find_default (policy ∷ policies) = elim policy.spec.target_namespaces [
  | none ↦ some policy
  | some _ ↦ find_default policies
]

-- The first loop of `findApplicablePolicy`.
unfoldable pub find_matching : List TokenPolicy → String → Option TokenPolicy
find_matching [] namespace = none
find_matching (policy ∷ policies) namespace =
    let rest = find_matching policies namespace in
    elim policy.spec.target_namespaces [
      | none ↦ some policy
      | some selector ↦ if contains selector.match_names namespace then some policy else rest
    ]

-- findApplicablePolicy on the listed policies
unfoldable pub find_applicable_policy : List TokenPolicy → String → Option TokenPolicy
find_applicable_policy policies namespace = elim (find_matching policies namespace) [
  | some policy ↦ some policy
  | none ↦ find_default policies
]
