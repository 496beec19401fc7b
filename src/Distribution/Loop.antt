-- ===== src/Distribution/Loop.antt =====
-- pkg/tts/ruleclient/client.go: the loops of the token service's rule client, Run, connect and
-- streamIssuance, over what its connections bring.
pub mod Laws
pub mod Waits
use kontxt.Base.{
  ℕ, ◌*◌, String, Bool, true, false, ◌||◌, List, [], ◌∷◌, if◌then◌else◌, ltb, Outcome, ok, err,
}
use kontxt.Base.Maps.{Map}
use kontxt.Cel.{Cel}
use kontxt.Jwt.{Jwt}
use kontxt.Rules.{IssuanceRule}
use kontxt.Tts.Rules.{CompileError}
use kontxt.Tts.Handler.{Handler}
use kontxt.Distribution.Stream.{IssuanceKey, Update}
use kontxt.Distribution.Client.{apply_issuance, flatten}
use kontxt.Distribution.Setter.{apply_issuance_rules}

-- What the client changes: the handler behind its setter, and whether it has synced.
pub record State (jwt : Jwt) (cel : Cel) : Type 0 where
  pub handler : Handler jwt cel
  pub synced : Bool

-- What one connection brings: whether it is dialled, the stream opened and the request sent, the
-- updates that are received, and the error of the last Recv.
pub record Connection : Type 0 where
  pub dialled : Outcome String (Unit {0})
  pub opened : Outcome String (Unit {0})
  pub sent : Outcome String (Unit {0})
  pub received : List (Update IssuanceRule)
  pub broken : String

-- The errors of `connect`.
pub data ConnectError : Type 0 where
  dial open_stream send_request recv : String → ConnectError

-- One round of the loop of `Run`: a connection, and whether the context is done when it ends, or
-- during the wait after it.
pub record Attempt : Type 0 where
  pub connection : Connection
  pub done : Bool
  pub done_waiting : Bool

-- The next wait in milliseconds: `if backoff < maxBackoff { backoff *= 2; … }`
unfoldable pub next_wait : ℕ → ℕ
next_wait backoff =
    if ltb backoff 30000 then if ltb 30000 (backoff * 2) then 30000 else backoff * 2 else backoff

module _ {jwt : Jwt} {cel : Cel} where
  -- `if err := c.setter.SetIssuanceRules(flat); err != nil { … } else { c.synced.Store(true) }`
  unfoldable pub settle :
      State jwt cel → Handler jwt cel × Outcome CompileError (Unit {0}) → State jwt cel
  settle s (h, ok tt) = record { handler = h; synced = true }
  settle s (h, err e) = record { handler = h; synced = s.synced }

  -- The loop of `streamIssuance`, on the rules so far.
  unfoldable pub receive_all :
      Map IssuanceKey IssuanceRule → State jwt cel → List (Update IssuanceRule) → State jwt cel
  receive_all rules s [] = s
  receive_all rules s (u ∷ us) =
      receive_all (apply_issuance rules u)
        (settle s (apply_issuance_rules s.handler (flatten (apply_issuance rules u)))) us

  -- streamIssuance
  unfoldable pub stream_issuance : Connection → State jwt cel → State jwt cel × ConnectError
  stream_issuance c s = elim c.opened [
    | err e ↦ (s, open_stream e)
    | ok _ ↦ elim c.sent [
      | err e ↦ (s, send_request e)
      | ok _ ↦ (receive_all [] s c.received, recv c.broken)
    ]
  ]

  -- connect
  unfoldable pub connect : Connection → State jwt cel → State jwt cel × ConnectError
  connect c s = elim c.dialled [ err e ↦ (s, dial e) | ok _ ↦ stream_issuance c s ]

  -- Run, up to some attempt, with the waits between the attempts and whether it has returned.
  unfoldable pub run : List Attempt → ℕ → State jwt cel → State jwt cel × List ℕ × Bool
  run [] backoff s = (s, [], false)
  run (a ∷ rest) backoff s =
      let s' = (connect a.connection s).0 in
      let (t, waits, returned) = run rest (next_wait backoff) s' in
      if a.done || a.done_waiting then (s', [], true) else (t, backoff ∷ waits, returned)
