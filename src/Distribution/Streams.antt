-- ===== src/Distribution/Streams.antt =====
-- pkg/extauth/ruleclient/client.go: the rule client of the ext_authz services, with its two streams.
pub mod Laws
pub mod Interleaving
pub mod Given
use kontxt.Base.{
  ℕ, ◌*◌, String, Bool, true, false, not, ◌&&◌, ◌||◌, Option, none, some, List, [], ◌∷◌,
  if◌then◌else◌, ltb, is_some, Outcome, ok, err,
}
use kontxt.Base.Maps.{Map}
use kontxt.Rules.{GenerationRule, VerificationRule}
use kontxt.Distribution.Proto.{GenerationMessage}
use kontxt.Distribution.Stream.{RuleKey, Update}
use kontxt.Distribution.Client.{values, apply_generation, apply_verification}

-- One stream of the client: the setter that is there, whether it has synced, and the map of the
-- goroutine while that runs.
pub record Side (T R : Type 0) : Type 0 where
  pub setter : Option T
  pub synced : Bool
  pub rules : Option (Map RuleKey R)

-- The errors of `connect`, of a stream, and of the context.
pub data ConnectError : Type 0 where
  dial open_stream send_request recv : String → ConnectError
  cancelled : ConnectError

-- What a goroutine meets: an open stream that took the request, a response, or an error.
pub data Met (P : Type 0) : Type 0 where
  opened : Met P
  received : Update P → Met P
  failed : ConnectError → Met P

module _ {T R : Type 0} where
  -- The start of the goroutine, if there is a setter, with an empty map.
  unfoldable pub start : Option T → Side T R → Side T R
  start none s = s
  start (some _) s = record s { rules = some [] }

module _ {T R P : Type 0} (set : List R → T → T)
    (apply : Map RuleKey R → Update P → Map RuleKey R) where
  -- A round of the loop behind Recv, on the setter and the map.
  unfoldable pub hand_on : T → Map RuleKey R → Update P → Side T R
  hand_on target rules u = record {
    setter = some (set (values (apply rules u)) target);
    synced = true;
    rules = some (apply rules u);
  }

  -- A response, if the goroutine runs.
  unfoldable pub deliver : Option T → Option (Map RuleKey R) → Update P → Side T R → Side T R
  deliver none rules u s = s
  deliver (some target) none u s = s
  deliver (some target) (some rules) u s = hand_on target rules u

  -- streamGeneration or streamVerification, at what it meets; without a setter there is no goroutine.
  unfoldable pub stream : Met P → Side T R → Side T R
  stream opened s = start s.setter s
  stream (received u) s = deliver s.setter s.rules u s
  stream (failed e) s = record s { rules = none }

-- RuleClient
pub record RuleClient (G V : Type 0) : Type 0 where
  pub gen : Side G GenerationRule
  pub ver : Side V VerificationRule

-- What happens on a connection, in the order of the two goroutines.
pub data Event : Type 0 where
  generation : Met GenerationMessage → Event
  verification : Met VerificationRule → Event

-- One round of the loop of `Run`: whether the controller is dialled, what the goroutines meet until
-- the next connection, and whether the context is done when `connect` ends, or during the wait.
pub record Attempt : Type 0 where
  pub dialled : Outcome String (Unit {0})
  pub events : List Event
  pub done : Bool
  pub done_waiting : Bool

-- The wait before the next connection, in milliseconds: `min(backoff*2, maxBackoff)`
unfoldable pub next_backoff : ℕ → ℕ
next_backoff backoff = if ltb (backoff * 2) 30000 then backoff * 2 else 30000

module _ {G V : Type 0} where
  -- NewRuleClient
  unfoldable pub new_rule_client : RuleClient G V
  new_rule_client = record {
    gen = record { setter = none; synced = false; rules = none };
    ver = record { setter = none; synced = false; rules = none };
  }

  -- SetGenerationSetter
  unfoldable pub set_generation_setter : G → RuleClient G V → RuleClient G V
  set_generation_setter g c = record c { gen = record (c.gen) { setter = some g } }

  -- SetVerificationSetter
  unfoldable pub set_verification_setter : V → RuleClient G V → RuleClient G V
  set_verification_setter v c = record c { ver = record (c.ver) { setter = some v } }

  -- Ready
  unfoldable pub ready : RuleClient G V → Bool
  ready c =
      if is_some c.gen.setter && not c.gen.synced
      then false
      else if is_some c.ver.setter && not c.ver.synced
      then false
      else true

  -- The error of a stream that runs, as it is sent to `errCh`.
  unfoldable pub sent_error : Event → RuleClient G V → Option ConnectError
  sent_error (generation (failed e)) c = elim c.gen.setter [ none ↦ none | some _ ↦ some e ]
  sent_error (verification (failed e)) c = elim c.ver.setter [ none ↦ none | some _ ↦ some e ]
  sent_error _ c = none

  module _ (set_generation : List GenerationRule → G → G)
      (set_verification : List VerificationRule → V → V) where
    -- What one event changes.
    unfoldable pub handle : Event → RuleClient G V → RuleClient G V
    handle (generation m) c = record c { gen = stream set_generation apply_generation m c.gen }
    handle (verification m) c = record c {
      ver = stream set_verification apply_verification m c.ver;
    }

    -- The goroutines of a connection, and the first error; the other stream may go on behind it.
    unfoldable pub handle_all : List Event → RuleClient G V → RuleClient G V × Option ConnectError
    handle_all [] c = (c, none)
    handle_all (e ∷ es) c =
        let (d, later) = handle_all es (handle e c) in
        (d, elim (sent_error e c) [ none ↦ later | some x ↦ some x ])

    -- connect; without an error it waits for the end of the context.
    unfoldable pub connect : Attempt → RuleClient G V → RuleClient G V × ConnectError
    connect a c = elim a.dialled [
      | err e ↦ (c, dial e)
      | ok _ ↦
          let (d, first) = handle_all a.events c in
          (d, elim first [ none ↦ cancelled | some e ↦ e ])
    ]

    -- Run, up to some attempt, with the waits between the attempts and whether it has returned.
    unfoldable pub run : List Attempt → ℕ → RuleClient G V → RuleClient G V × List ℕ × Bool
    run [] backoff c = (c, [], false)
    run (a ∷ rest) backoff c =
        let d = (connect a c).0 in
        let (t, waits, returned) = run rest (next_backoff backoff) d in
        if a.done || a.done_waiting then (d, [], true) else (t, backoff ∷ waits, returned)
