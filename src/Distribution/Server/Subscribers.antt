-- ===== src/Distribution/Server/Subscribers.antt =====
-- The subscribers of the three streams, after any calls since the start.
use kontxt.Base.{ℕ, ◌+◌, ◌^◌, ◌≤◌, ◌<◌, ◌≡◌, sym, List, [], ◌∷◌, arith, length, subst}
use kontxt.Distribution.Stream.{
  Stream, update_rules, upsert_rule, remove_rule, remove_rules, subscribe, next_version,
}
use kontxt.Distribution.Server.{
  RuleServer, new_rule_server, update_generation_rules, upsert_generation_rule,
  remove_generation_rule, update_verification_rules, upsert_verification_rule,
  remove_verification_rule, update_issuance_rules, upsert_issuance_rule, remove_issuance_rule,
  stream_generation_rules, stream_verification_rules, stream_issuance_rules,
}
use kontxt.Rules.{GenerationRule, VerificationRule, IssuanceRule}
use kontxt.Distribution.Proto.{GenerationMessage}
use kontxt.Distribution.Server.Sound.{
  empty-Sound, Sound, push-Sound, Sound-later, subscribe-Sound, unsubscribe-Sound,
  take_response-Sound,
}
use kontxt.Distribution.Server.Calls.{
  Call, call, calls, update_generation, upsert_generation, remove_generation, update_verification,
  upsert_verification, remove_verification, update_issuance, upsert_issuance, remove_issuance,
  join_generation, join_verification, join_issuance, leave_generation, leave_verification,
  leave_issuance, send_generation, send_verification, send_issuance,
}

pub record IsSound (s : RuleServer) : Type 0 where
  pub generation : Sound s.sub_id_counter s.generation
  pub verification : Sound s.sub_id_counter s.verification
  pub issuance : Sound s.sub_id_counter s.issuance

next_id : (v : ℕ) → v + 1 < 2 ^ 64 → next_version v ≡ v + 1
unfolding next_version
next_id v small = omega arith

-- The streams after a join of one of them.
joined-Sound :
    {R P : Type 0} (counter : ℕ) (st : Stream R P) (to_proto : R → P)
    → counter + 1 < 2 ^ 64
    → Sound counter st
    → Sound (next_version counter) (subscribe to_proto st (next_version counter)).0
joined-Sound counter st to_proto small h =
    subst (λ id. Sound id (subscribe to_proto st id).0) (sym (next_id counter small))
      (subscribe-Sound counter st h to_proto)

other-Sound :
    {R P : Type 0} (counter : ℕ) (st : Stream R P)
    → counter + 1 < 2 ^ 64
    → Sound counter st
    → Sound (next_version counter) st
other-Sound counter st small h =
    subst (λ id. Sound id st) (sym (next_id counter small)) (Sound-later counter st h)

generation_set :
    (s : RuleServer) (st : Stream GenerationRule GenerationMessage)
    → Sound s.sub_id_counter st
    → IsSound s
    → IsSound (record s { generation = st })
generation_set s st set h = record {
  generation = set;
  verification = h.verification;
  issuance = h.issuance;
}

verification_set :
    (s : RuleServer) (st : Stream VerificationRule VerificationRule)
    → Sound s.sub_id_counter st
    → IsSound s
    → IsSound (record s { verification = st })
verification_set s st set h = record {
  generation = h.generation;
  verification = set;
  issuance = h.issuance;
}

issuance_set :
    (s : RuleServer) (st : Stream IssuanceRule IssuanceRule)
    → Sound s.sub_id_counter st
    → IsSound s
    → IsSound (record s { issuance = st })
issuance_set s st set h = record {
  generation = h.generation;
  verification = h.verification;
  issuance = set;
}

call-IsSound :
    (c : Call) (s : RuleServer)
    → s.sub_id_counter + 1 < 2 ^ 64
    → IsSound s
    → IsSound (call c s) × ((call c s).sub_id_counter ≤ s.sub_id_counter + 1)
unfolding call update_generation_rules upsert_generation_rule remove_generation_rule
    update_verification_rules upsert_verification_rule remove_verification_rule
    update_issuance_rules upsert_issuance_rule remove_issuance_rule stream_generation_rules
    stream_verification_rules stream_issuance_rules update_rules upsert_rule remove_rule
    remove_rules
call-IsSound (update_generation rules) s small h = (
  generation_set s _ (push-Sound s.sub_id_counter s.generation h.generation _ _ _) h,
  omega arith,
)
call-IsSound (upsert_generation rule) s small h = (
  generation_set s _ (push-Sound s.sub_id_counter s.generation h.generation _ _ _) h,
  omega arith,
)
call-IsSound (remove_generation namespace name) s small h = (
  generation_set s _ (push-Sound s.sub_id_counter s.generation h.generation _ _ _) h,
  omega arith,
)
call-IsSound join_generation s small h = (
  record {
    generation = joined-Sound s.sub_id_counter s.generation _ small h.generation;
    verification = other-Sound s.sub_id_counter s.verification small h.verification;
    issuance = other-Sound s.sub_id_counter s.issuance small h.issuance;
  },
  rw (next_id s.sub_id_counter small) (omega arith),
)
call-IsSound (leave_generation id) s small h = (
  generation_set s _ (unsubscribe-Sound s.sub_id_counter s.generation h.generation id) h,
  omega arith,
)
call-IsSound (send_generation id) s small h = (
  generation_set s _ (take_response-Sound s.sub_id_counter s.generation h.generation id) h,
  omega arith,
)
call-IsSound (update_verification rules) s small h = (
  verification_set s _ (push-Sound s.sub_id_counter s.verification h.verification _ _ _) h,
  omega arith,
)
call-IsSound (upsert_verification rule) s small h = (
  verification_set s _ (push-Sound s.sub_id_counter s.verification h.verification _ _ _) h,
  omega arith,
)
call-IsSound (remove_verification namespace name) s small h = (
  verification_set s _ (push-Sound s.sub_id_counter s.verification h.verification _ _ _) h,
  omega arith,
)
call-IsSound join_verification s small h = (
  record {
    generation = other-Sound s.sub_id_counter s.generation small h.generation;
    verification = joined-Sound s.sub_id_counter s.verification _ small h.verification;
    issuance = other-Sound s.sub_id_counter s.issuance small h.issuance;
  },
  rw (next_id s.sub_id_counter small) (omega arith),
)
call-IsSound (leave_verification id) s small h = (
  verification_set s _ (unsubscribe-Sound s.sub_id_counter s.verification h.verification id) h,
  omega arith,
)
call-IsSound (send_verification id) s small h = (
  verification_set s _ (take_response-Sound s.sub_id_counter s.verification h.verification id) h,
  omega arith,
)
call-IsSound (update_issuance rules) s small h =
    (issuance_set s _ (push-Sound s.sub_id_counter s.issuance h.issuance _ _ _) h, omega arith)
call-IsSound (upsert_issuance rule) s small h =
    (issuance_set s _ (push-Sound s.sub_id_counter s.issuance h.issuance _ _ _) h, omega arith)
call-IsSound (remove_issuance namespace name) s small h =
    (issuance_set s _ (push-Sound s.sub_id_counter s.issuance h.issuance _ _ _) h, omega arith)
call-IsSound join_issuance s small h = (
  record {
    generation = other-Sound s.sub_id_counter s.generation small h.generation;
    verification = other-Sound s.sub_id_counter s.verification small h.verification;
    issuance = joined-Sound s.sub_id_counter s.issuance _ small h.issuance;
  },
  rw (next_id s.sub_id_counter small) (omega arith),
)
call-IsSound (leave_issuance id) s small h =
    (issuance_set s _ (unsubscribe-Sound s.sub_id_counter s.issuance h.issuance id) h, omega arith)
call-IsSound (send_issuance id) s small h = (
  issuance_set s _ (take_response-Sound s.sub_id_counter s.issuance h.issuance id) h,
  omega arith,
)

calls-keeps :
    (cs : List Call) (s : RuleServer)
    → s.sub_id_counter + length cs < 2 ^ 64
    → IsSound s
    → IsSound (calls cs s)
unfolding calls
calls-keeps [] s small h = h
calls-keeps (c ∷ cs) s small h =
    let (h', few) = call-IsSound c s (omega arith) h in calls-keeps cs (call c s) (omega arith) h'

-- After any calls since the start of the rule server, fewer than 2^64, no channel of any stream has
-- more than 64 responses, and no subscriber has an id above the counter, so that the next stream
-- call gets one that is not taken.
pub calls-IsSound : (cs : List Call) → length cs < 2 ^ 64 → IsSound (calls cs new_rule_server)
unfolding new_rule_server
calls-IsSound cs small =
    calls-keeps cs new_rule_server (omega arith)
      (record { generation = empty-Sound; verification = empty-Sound; issuance = empty-Sound })
