-- ===== src/Deployment/History/Sides.antt =====
-- The three streams of the rule server as sides of it.
use kontxt.Base.{ℕ, ◌≡◌, refl, sym, ap, List, map, ok, subst}
use kontxt.Cel.{Cel}
use kontxt.Crd.{TransactionType, ServiceTokenRequirement, TokenPolicy}
use kontxt.Controller.Conditions.{Fetched}
use kontxt.Controller.Generation
use kontxt.Controller.Verification
use kontxt.Controller.Issuance
use kontxt.Distribution.Server.{
  RuleServer, update_generation_rules, update_verification_rules, update_issuance_rules,
  Eq_rule_key, Eq_issuance_key, generation_key, verification_key, issuance_key,
}
use kontxt.Distribution.Laws.{Unique}
use kontxt.Distribution.Sync.{View, HasRoom, Run, updated}
use kontxt.Distribution.Kinds.{generation_kind, verification_kind, issuance_kind}
use kontxt.Command.Controller.{
  Round, transaction_type, service_token_requirement, token_policy, handle,
}
use kontxt.Command.Controller.Step.{next-keeps, generation_next, verification_next, issuance_next}
use kontxt.Command.Controller.Laws.{published}
use kontxt.Deployment.History.{Side}

module _ (cel : Cel) (id : ℕ) where
  -- A list that a call gets meets a channel with room and gives no key two rules.
  abbrev IsFitGeneration : Round → RuleServer → Type 0
  IsFitGeneration (transaction_type c fetched) rs =
      (items : List TransactionType)
      → c.list_types ≡ ok items
      → HasRoom generation_kind id rs.generation
        × Unique generation_key (map (Generation.generation_rule c) items)
  IsFitGeneration (service_token_requirement c fetched) rs = Unit
  IsFitGeneration (token_policy c fetched) rs = Unit

  abbrev IsFitVerification : Round → RuleServer → Type 0
  IsFitVerification (transaction_type c fetched) rs = Unit
  IsFitVerification (service_token_requirement c fetched) rs =
      (items : List ServiceTokenRequirement)
      → c.list_requirements ≡ ok items
      → HasRoom verification_kind id rs.verification
        × Unique verification_key (map (Verification.verification_rule cel) items)
  IsFitVerification (token_policy c fetched) rs = Unit

  abbrev IsFitIssuance : Round → RuleServer → Type 0
  IsFitIssuance (transaction_type c fetched) rs = Unit
  IsFitIssuance (service_token_requirement c fetched) rs = Unit
  IsFitIssuance (token_policy c fetched) rs =
      (items : List TokenPolicy)
      → c.list_policies ≡ ok items
      → HasRoom issuance_kind id rs.issuance × Unique issuance_key (Issuance.rules_of_all cel items)

  -- What a call makes of the server, in the words of its listing, for a property of the server that the
  -- listing keeps.
  generation-keeps :
      (Holds : RuleServer → Type 0) (c : Generation.Cluster) (fetched : Fetched TransactionType)
      (rs : RuleServer)
      → Holds rs
      → ((items : List TransactionType)
          → c.list_types ≡ ok items
          → Holds (update_generation_rules rs (map (Generation.generation_rule c) items)))
      → Holds (handle cel (transaction_type c fetched) rs)
  unfolding handle
  generation-keeps Holds c fetched rs h made =
      subst Holds (sym (generation_next c fetched rs))
        (next-keeps Holds _ fetched c.status_update c.list_types rs h made)

  verification-keeps :
      (Holds : RuleServer → Type 0) (c : Verification.Cluster)
      (fetched : Fetched ServiceTokenRequirement) (rs : RuleServer)
      → Holds rs
      → ((items : List ServiceTokenRequirement)
          → c.list_requirements ≡ ok items
          → Holds (update_verification_rules rs (map (Verification.verification_rule cel) items)))
      → Holds (handle cel (service_token_requirement c fetched) rs)
  unfolding handle
  verification-keeps Holds c fetched rs h made =
      subst Holds (sym (verification_next cel c fetched rs))
        (next-keeps Holds _ fetched c.status_update c.list_requirements rs h made)

  issuance-keeps :
      (Holds : RuleServer → Type 0) (c : Issuance.Cluster) (fetched : Fetched TokenPolicy)
      (rs : RuleServer)
      → Holds rs
      → ((items : List TokenPolicy)
          → c.list_policies ≡ ok items
          → Holds (update_issuance_rules rs (Issuance.rules_of_all cel items)))
      → Holds (handle cel (token_policy c fetched) rs)
  unfolding handle
  issuance-keeps Holds c fetched rs h made =
      subst Holds (sym (issuance_next cel c fetched rs))
        (next-keeps Holds _ fetched c.status_update c.list_policies rs h made)

  pub handle-generation_Run :
      (round : Round) (rs : RuleServer) {m : View generation_kind id}
      → IsFitGeneration round rs
      → Run generation_kind id rs.generation m
      → Run generation_kind id (handle cel round rs).generation m
  unfolding update_generation_rules update_verification_rules update_issuance_rules
  handle-generation_Run (transaction_type c fetched) rs {m} fit run =
      generation-keeps (λ s. Run generation_kind id s.generation m) c fetched rs run
        (λ items got. updated _ run (fit items got).0 (fit items got).1)
  handle-generation_Run (service_token_requirement c fetched) rs {m} fit run =
      verification-keeps (λ s. Run generation_kind id s.generation m) c fetched rs run (λ _ _. run)
  handle-generation_Run (token_policy c fetched) rs {m} fit run =
      issuance-keeps (λ s. Run generation_kind id s.generation m) c fetched rs run (λ _ _. run)

  pub handle-verification_Run :
      (round : Round) (rs : RuleServer) {m : View verification_kind id}
      → IsFitVerification round rs
      → Run verification_kind id rs.verification m
      → Run verification_kind id (handle cel round rs).verification m
  unfolding update_generation_rules update_verification_rules update_issuance_rules
  handle-verification_Run (transaction_type c fetched) rs {m} fit run =
      generation-keeps (λ s. Run verification_kind id s.verification m) c fetched rs run
        (λ _ _. run)
  handle-verification_Run (service_token_requirement c fetched) rs {m} fit run =
      verification-keeps (λ s. Run verification_kind id s.verification m) c fetched rs run
        (λ items got. updated _ run (fit items got).0 (fit items got).1)
  handle-verification_Run (token_policy c fetched) rs {m} fit run =
      issuance-keeps (λ s. Run verification_kind id s.verification m) c fetched rs run (λ _ _. run)

  pub handle-issuance_Run :
      (round : Round) (rs : RuleServer) {m : View issuance_kind id}
      → IsFitIssuance round rs
      → Run issuance_kind id rs.issuance m
      → Run issuance_kind id (handle cel round rs).issuance m
  unfolding update_generation_rules update_verification_rules update_issuance_rules
  handle-issuance_Run (transaction_type c fetched) rs {m} fit run =
      generation-keeps (λ s. Run issuance_kind id s.issuance m) c fetched rs run (λ _ _. run)
  handle-issuance_Run (service_token_requirement c fetched) rs {m} fit run =
      verification-keeps (λ s. Run issuance_kind id s.issuance m) c fetched rs run (λ _ _. run)
  handle-issuance_Run (token_policy c fetched) rs {m} fit run =
      issuance-keeps (λ s. Run issuance_kind id s.issuance m) c fetched rs run
        (λ items got. updated _ run (fit items got).0 (fit items got).1)

  abbrev pub generation_side : Side cel id
  generation_side = record {
    kind = generation_kind;
    stream = λ rs. rs.generation;
    with_stream = λ rs st. record rs { generation = st };
    IsFit = IsFitGeneration;
    stream-with_stream = λ rs st. refl;
    published-with_stream = λ rs st same. ap (λ l. record (published rs) { generation = l }) same;
    handle-Run = λ round rs fit run. handle-generation_Run round rs fit run;
  }

  abbrev pub verification_side : Side cel id
  verification_side = record {
    kind = verification_kind;
    stream = λ rs. rs.verification;
    with_stream = λ rs st. record rs { verification = st };
    IsFit = IsFitVerification;
    stream-with_stream = λ rs st. refl;
    published-with_stream = λ rs st same. ap (λ l. record (published rs) { verification = l }) same;
    handle-Run = λ round rs fit run. handle-verification_Run round rs fit run;
  }

  abbrev pub issuance_side : Side cel id
  issuance_side = record {
    kind = issuance_kind;
    stream = λ rs. rs.issuance;
    with_stream = λ rs st. record rs { issuance = st };
    IsFit = IsFitIssuance;
    stream-with_stream = λ rs st. refl;
    published-with_stream = λ rs st same. ap (λ l. record (published rs) { issuance = l }) same;
    handle-Run = λ round rs fit run. handle-issuance_Run round rs fit run;
  }
