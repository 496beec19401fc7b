-- ===== src/Command/Controller/Laws.antt =====
-- What the controller publishes.
use kontxt.Base.{◌≡◌, refl, sym, ap, ◌∙◌, List, [], ◌∷◌, map}
use kontxt.Cel.{Cel}
use kontxt.Rules.{GenerationRule, VerificationRule, IssuanceRule}
use kontxt.Controller.Generation
use kontxt.Controller.Verification
use kontxt.Controller.Issuance
use kontxt.Distribution.Stream.{push, update_rules}
use kontxt.Distribution.Server.{
  RuleServer, update_generation_rules, update_verification_rules, update_issuance_rules,
}
use kontxt.Command.Controller.Step.{
  next, next-natural, generation_next, verification_next, issuance_next,
}
use kontxt.Command.Controller.{
  Round, transaction_type, service_token_requirement, token_policy, handle, run,
}

-- The rules of the three streams.
pub record Published : Type 0 where
  pub generation : List GenerationRule
  pub verification : List VerificationRule
  pub issuance : List IssuanceRule

abbrev pub published : RuleServer → Published
published rs = record {
  generation = rs.generation.rules;
  verification = rs.verification.rules;
  issuance = rs.issuance.rules;
}

module _ (cel : Cel) where
  -- What one call makes of the published rules: a list that it gets to replaces those of its stream.
  abbrev pub replay_one : Round → Published → Published
  replay_one (transaction_type c fetched) p = record p {
    generation =
        next (map (Generation.generation_rule c)) fetched c.status_update c.list_types p.generation;
  }
  replay_one (service_token_requirement c fetched) p = record p {
    verification =
        next (map (Verification.verification_rule cel)) fetched c.status_update c.list_requirements
          p.verification;
  }
  replay_one (token_policy c fetched) p = record p {
    issuance = next (Issuance.rules_of_all cel) fetched c.status_update c.list_policies p.issuance;
  }

  abbrev pub replay : List Round → Published → Published
  replay [] p = p
  replay (round ∷ rounds) p = replay rounds (replay_one round p)

  pub handle-replay_one :
      (round : Round) (rs : RuleServer)
      → published (handle cel round rs) ≡ replay_one round (published rs)
  unfolding handle update_generation_rules update_verification_rules update_issuance_rules
      update_rules push
  handle-replay_one (transaction_type c fetched) rs =
      ap published (generation_next c fetched rs)
      ∙ next-natural published _ fetched c.status_update c.list_types rs
      ∙ sym (
          next-natural (λ l. record (published rs) { generation = l })
            (map (Generation.generation_rule c)) fetched c.status_update c.list_types
            rs.generation.rules)
  handle-replay_one (service_token_requirement c fetched) rs =
      ap published (verification_next cel c fetched rs)
      ∙ next-natural published _ fetched c.status_update c.list_requirements rs
      ∙ sym (
          next-natural (λ l. record (published rs) { verification = l })
            (map (Verification.verification_rule cel)) fetched c.status_update c.list_requirements
            rs.verification.rules)
  handle-replay_one (token_policy c fetched) rs =
      ap published (issuance_next cel c fetched rs)
      ∙ next-natural published _ fetched c.status_update c.list_policies rs
      ∙ sym (
          next-natural (λ l. record (published rs) { issuance = l }) (Issuance.rules_of_all cel)
            fetched c.status_update c.list_policies rs.issuance.rules)

  -- The rule server has, for each stream, the rules of the list that the latest call got to which
  -- reads that kind of resource and gets to a list, and those from before where there was no such
  -- call.
  pub run-replay :
      (rounds : List Round) (rs : RuleServer)
      → published (run cel rounds rs) ≡ replay rounds (published rs)
  unfolding run
  run-replay [] rs = refl
  run-replay (round ∷ rounds) rs =
      run-replay rounds (handle cel round rs) ∙ ap (replay rounds) (handle-replay_one round rs)
