-- ===== src/Distribution/Serve.antt =====
-- StreamGenerationRules, StreamVerificationRules and StreamIssuanceRules of ruleserver/server.go as whole
-- calls, next to what other calls do meanwhile. The three have one code up to the types.
pub mod Laws
pub mod Versions
use kontxt.Base.{ℕ, String, Option, none, some, List, [], ◌∷◌, Eq_nat, Eq_string, Outcome, ok, err}
use kontxt.Base.Maps.{lookup, insert}
use kontxt.Distribution.Stream.{
  RuleRef, Response, Stream, delta, push, update_rules, upsert_rule, subscribe, unsubscribe,
  receive,
}
use kontxt.Distribution.Sync.{RuleKind}
use kontxt.Distribution.Kinds.{generation_kind, verification_kind, issuance_kind}

-- What other calls do under the lock: the three methods that change the rules, and the start and the end
-- of another stream call.
pub data Change (R : Type 0) : Type 0 where
  update : List R → Change R
  upsert : R → Change R
  remove : RuleRef → Change R
  join leave : ℕ → Change R

-- What the loop of a call meets: a change by others, the end of its context, or its turn at the channel,
-- with the answer of Send. No code closes the channel.
pub data Wake (R : Type 0) : Type 0 where
  changed : Change R → Wake R
  cancelled : String → Wake R
  turn : Outcome String (Unit {0}) → Wake R

-- What a call has sent, the server behind it, and the error if it has returned.
pub record Served (R P : Type 0) : Type 0 where
  pub sent : List (Response P)
  pub server : Stream R P
  pub returned : Option String

abbrev pub and_sent : {R P : Type 0} → Response P → Served R P → Served R P
and_sent resp s = record s { sent = resp ∷ s.sent }

module _ (kind : RuleKind) where
  open kind use {R, P, K, Eq_key, to_proto, key, removed}

  unfoldable pub apply_change : Change R → Stream R P → Stream R P
  apply_change (update rules) st = update_rules to_proto st rules
  apply_change (upsert r) st = upsert_rule to_proto ⦃e = Eq_key⦄ key st r
  apply_change (remove ref) st = push to_proto st (removed ref st.rules) (delta [] (ref ∷ []))
  apply_change (join other) st = (subscribe to_proto st other).0
  apply_change (leave other) st = unsubscribe st other

  module _ (id : ℕ) where
    -- The end of a call, with the deferred deletion.
    unfoldable pub return_with : Stream R P → String → Served R P
    return_with st e = record { sent = []; server = unsubscribe st id; returned = some e }

    -- The channel of the call, which is empty where there is none.
    unfoldable pub channel_of : Stream R P → List (Response P)
    channel_of st = elim (lookup id st.subscribers) [ none ↦ [] | some ch ↦ ch ]

    -- The server after `<-ch`.
    unfoldable pub took : Stream R P → List (Response P) → Stream R P
    took st rest = record st { subscribers = insert id rest st.subscribers }

    -- The loop; on an empty channel it waits on.
    unfoldable pub stream_loop : List (Wake R) → Stream R P → Served R P
    stream_loop [] st = record { sent = []; server = st; returned = none }
    stream_loop (changed c ∷ ws) st = stream_loop ws (apply_change c st)
    stream_loop (cancelled e ∷ ws) st = return_with st e
    stream_loop (turn (ok _) ∷ ws) st = elim (receive (channel_of st)) [
      | none ↦ stream_loop ws st
      | some (resp, rest) ↦ and_sent resp (stream_loop ws (took st rest))
    ]
    stream_loop (turn (err e) ∷ ws) st = elim (receive (channel_of st)) [
      | none ↦ stream_loop ws st
      | some (resp, rest) ↦ return_with (took st rest) e
    ]

    -- The call: the answers of the first Recv and the first Send, and what the loop meets.
    unfoldable pub stream_rules :
        Outcome String (Unit {0})
        → Outcome String (Unit {0})
        → List (Wake R)
        → Stream R P
        → Served R P
    stream_rules (err e) first ws st = record { sent = []; server = st; returned = some e }
    stream_rules (ok _) (err e) ws st = return_with (subscribe to_proto st id).0 e
    stream_rules (ok _) (ok _) ws st =
        let (st', snapshot) = subscribe to_proto st id in and_sent snapshot (stream_loop ws st')
