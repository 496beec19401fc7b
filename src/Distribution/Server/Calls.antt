-- ===== src/Distribution/Server/Calls.antt =====
-- Calls of the methods of RuleServer, and the steps of its stream calls, one after the other.
use kontxt.Base.{ℕ, String, none, some, List, [], ◌∷◌, Eq_nat, Eq_string}
use kontxt.Base.Maps.{lookup, insert}
use kontxt.Rules.{GenerationRule, VerificationRule, IssuanceRule}
use kontxt.Distribution.Stream.{Stream, unsubscribe, receive}
use kontxt.Distribution.Server.{
  RuleServer, update_generation_rules, upsert_generation_rule, remove_generation_rule,
  update_verification_rules, upsert_verification_rule, remove_verification_rule,
  update_issuance_rules, upsert_issuance_rule, remove_issuance_rule, stream_generation_rules,
  stream_verification_rules, stream_issuance_rules,
}

-- The server after a stream call took the oldest response out of its channel.
unfoldable pub take_response : {R P : Type 0} → Stream R P → ℕ → Stream R P
take_response st id = elim (lookup id st.subscribers) [
  | none ↦ st
  | some ch ↦ elim (receive ch) [
    | none ↦ st
    | some (_, rest) ↦ record st { subscribers = insert id rest st.subscribers }
  ]
]

pub data Call : Type 0 where
  update_generation : List GenerationRule → Call
  upsert_generation : GenerationRule → Call
  remove_generation : String → String → Call
  update_verification : List VerificationRule → Call
  upsert_verification : VerificationRule → Call
  remove_verification : String → String → Call
  update_issuance : List IssuanceRule → Call
  upsert_issuance : IssuanceRule → Call
  remove_issuance : String → String → Call
  join_generation join_verification join_issuance : Call
  leave_generation leave_verification leave_issuance : ℕ → Call
  send_generation send_verification send_issuance : ℕ → Call

unfoldable pub call : Call → RuleServer → RuleServer
call (update_generation rules) s = update_generation_rules s rules
call (upsert_generation rule) s = upsert_generation_rule s rule
call (remove_generation namespace name) s = remove_generation_rule s namespace name
call (update_verification rules) s = update_verification_rules s rules
call (upsert_verification rule) s = upsert_verification_rule s rule
call (remove_verification namespace name) s = remove_verification_rule s namespace name
call (update_issuance rules) s = update_issuance_rules s rules
call (upsert_issuance rule) s = upsert_issuance_rule s rule
call (remove_issuance namespace name) s = remove_issuance_rule s namespace name
call join_generation s = (stream_generation_rules s).0
call join_verification s = (stream_verification_rules s).0
call join_issuance s = (stream_issuance_rules s).0
call (leave_generation id) s = record s { generation = unsubscribe s.generation id }
call (leave_verification id) s = record s { verification = unsubscribe s.verification id }
call (leave_issuance id) s = record s { issuance = unsubscribe s.issuance id }
call (send_generation id) s = record s { generation = take_response s.generation id }
call (send_verification id) s = record s { verification = take_response s.verification id }
call (send_issuance id) s = record s { issuance = take_response s.issuance id }

unfoldable pub calls : List Call → RuleServer → RuleServer
calls [] s = s
calls (c ∷ cs) s = calls cs (call c s)
