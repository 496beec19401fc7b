-- ===== src/Command/Laws.antt =====
-- When the token service says that it is ready, and which rules it has.
use kontxt.Base.{
  String, ◌≡◌, refl, ◌≢◌, ◌↔◌, sym, ◌∙◌, inl, inr, true, false, none, some, List, eq_iff, ◌==◌,
  Eq_nat, Eq_string, Bool-cases, is_some,
}
use kontxt.Cel.{Cel}
use kontxt.Jwt.{Jwt}
use kontxt.Distribution.Loop.{State, Attempt, run}
use kontxt.Distribution.Loop.Laws.{lists_of_all, last_compiled, run-Has}
use kontxt.Tts.Server.{Server, plain, readyz, set_ready_check}
use kontxt.Command.{first_wait, start, ready_check, wire}

module _ {jwt : Jwt} {cel : Cel} (srv : Server jwt cel) where
  -- The server in one state of the rule client.
  abbrev while_in : State jwt cel → Server jwt cel
  while_in s = set_ready_check (record srv { handler = s.handler }) (some (ready_check s))

  ready_waiting : (s : State jwt cel) → s.synced ≡ false → readyz (while_in s) ≢ plain 200 "ready"
  unfolding readyz set_ready_check ready_check
  ready_waiting s waiting e = cc (rw (waiting, readyz) at e)

  ready_synced : (s : State jwt cel) → s.synced ≡ true → readyz (while_in s) ≡ plain 200 "ready"
  unfolding readyz set_ready_check ready_check
  ready_synced s synced = rw synced refl

  ready_iff : (s : State jwt cel) → (readyz (while_in s) ≡ plain 200 "ready") ↔ (s.synced ≡ true)
  ready_iff s = (
    (λ e. elim (Bool-cases s.synced) [
      | inl synced ↦ synced
      | inr waiting ↦ absurd (ready_waiting s waiting e)
    ]),
    ready_synced s,
  )

  -- With a controller address, and a handler without rules at first, the handler of the token
  -- service has, after any connections, the compiled rules of the last list that compiles, of the
  -- lists that its streams make up after each of their updates until the context is done, and it
  -- says that it is ready exactly when there is such a list.
  pub readyz-wire :
      (addr : String) (attempts : List Attempt)
      → addr ≢ ""
      → srv.handler.issuance_rules ≡ none
      → ((wire srv addr attempts).handler.issuance_rules
          ≡ last_compiled none (lists_of_all attempts))
        × ((readyz (wire srv addr attempts) ≡ plain 200 "ready")
            ↔ (is_some (last_compiled {cel = cel} none (lists_of_all attempts)) ≡ true))
  unfolding wire set_ready_check start
  readyz-wire addr attempts given fresh = elim (Bool-cases (addr == "")) [
    | inl empty ↦ absurd (given ((eq_iff addr "").0 empty))
    | inr there ↦ rw there (
        let (rules, synced) = run-Has attempts first_wait none (start srv) (fresh, refl) in
        let (to, from) = ready_iff (run attempts first_wait (start srv)).0 in
        (rules, ((λ e. sym synced ∙ to e), (λ some_rules. from (synced ∙ some_rules)))))
  ]
