-- ===== src/Command.antt =====
-- cmd/tts/main.go: the token service with the client of the rule server.
pub mod Laws
pub mod Extauth
pub mod Controller
use kontxt.Base.{
  ℕ, String, false, not, some, List, if◌then◌else◌, ◌==◌, Eq_nat, Eq_string, Outcome, ok, err,
}
use kontxt.Cel.{Cel}
use kontxt.Jwt.{Jwt}
use kontxt.Distribution.Loop.{State, Attempt, run}
use kontxt.Tts.Handler.{Handler}
use kontxt.Tts.Server.{Server, set_ready_check}

-- The first wait of `Run`, in milliseconds.
abbrev pub first_wait : ℕ
first_wait = 500

module _ {jwt : Jwt} {cel : Cel} where
  -- The state of the rule client when it starts on the handler of the server.
  unfoldable pub start : Server jwt cel → State jwt cel
  start srv = record { handler = srv.handler; synced = false }

  -- The check that is given to `SetReadyCheck`.
  unfoldable pub ready_check : State jwt cel → Outcome String (Unit {0})
  ready_check s = if not s.synced then err "issuance rules not yet synced" else ok tt

  -- The server while the rule client runs, or without one where no controller address is given.
  unfoldable pub wire : Server jwt cel → String → List Attempt → Server jwt cel
  unfolding start ready_check
  wire srv controller_addr attempts =
      if not (controller_addr == "")
      then (let s = (run attempts first_wait (start srv)).0 in
          set_ready_check (record srv { handler = s.handler }) (some (ready_check s)))
      else srv
