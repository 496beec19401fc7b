-- ===== src/Distribution/Loop/Laws.antt =====
-- What the loops of the rule client hand to the handler.
use kontxt.Base.{
  ℕ, ◌≡◌, refl, sym, inl, inr, Bool, ◌||◌, Option, some, if◌then◌else◌, List, [], ◌∷◌, ◌++◌, map,
  Bool-cases, is_some, ok, err, Outcome-cases, subst,
}
use kontxt.Base.Maps.{Map}
use kontxt.Cel.{Cel}
use kontxt.Jwt.{Jwt}
use kontxt.Rules.{IssuanceRule}
use kontxt.Tts.Rules.{IssuanceRule as CompiledRule, compile_issuance_rules}
use kontxt.Tts.Handler.{set_issuance_rules}
use kontxt.Distribution.Stream.{IssuanceKey, Update}
use kontxt.Distribution.Client.{apply_issuance, flatten}
use kontxt.Distribution.Setter.{config_of, apply_issuance_rules}
use kontxt.Distribution.Loop.{
  State, Connection, Attempt, next_wait, settle, receive_all, stream_issuance, connect, run,
}

abbrev pub is_done : Attempt → Bool
is_done a = a.done || a.done_waiting

-- The lists that a stream makes up: the rules after each of its updates.
abbrev pub lists_after :
    Map IssuanceKey IssuanceRule → List (Update IssuanceRule) → List (List IssuanceRule)
lists_after rules [] = []
lists_after rules (u ∷ us) =
    let rules' = apply_issuance rules u in flatten rules' ∷ lists_after rules' us

-- The lists of a connection: those of its stream from an empty map, where one is opened at all.
abbrev pub lists_of : Connection → List (List IssuanceRule)
lists_of c = elim c.dialled [
  | err _ ↦ []
  | ok _ ↦ elim c.opened [
    | err _ ↦ []
    | ok _ ↦ elim c.sent [ err _ ↦ [] | ok _ ↦ lists_after [] c.received ]
  ]
]

-- The lists of all connections until the context is done.
abbrev pub lists_of_all : List Attempt → List (List IssuanceRule)
lists_of_all [] = []
lists_of_all (a ∷ rest) = lists_of a.connection ++ (if is_done a then [] else lists_of_all rest)

module _ {cel : Cel} where
  -- The compiled rules of a list, or those from before where it does not compile.
  abbrev compiled_or :
      Option (List (CompiledRule cel)) → List IssuanceRule → Option (List (CompiledRule cel))
  compiled_or before flat = elim (compile_issuance_rules cel (map config_of flat)) [
    | ok rules ↦ some rules
    | err _ ↦ before
  ]

  -- The compiled rules of the last list that compiles, or those from before where none does.
  abbrev pub last_compiled :
      Option (List (CompiledRule cel)) → List (List IssuanceRule) → Option (List (CompiledRule cel))
  last_compiled before [] = before
  last_compiled before (flat ∷ lists) = last_compiled (compiled_or before flat) lists

  last_compiled-append :
      (before : Option (List (CompiledRule cel))) (ls ms : List (List IssuanceRule))
      → last_compiled before (ls ++ ms) ≡ last_compiled (last_compiled before ls) ms
  last_compiled-append before [] ms = refl
  last_compiled-append before (l ∷ ls) ms = last_compiled-append (compiled_or before l) ls ms

module _ {jwt : Jwt} {cel : Cel} where
  -- The handler has these rules, and the client has synced exactly when there are any.
  abbrev pub Has : Option (List (CompiledRule cel)) → State jwt cel → Type 0
  Has rules s = (s.handler.issuance_rules ≡ rules) × (s.synced ≡ is_some rules)

  settle-Has :
      (before : Option (List (CompiledRule cel))) (s : State jwt cel) (flat : List IssuanceRule)
      → Has before s
      → Has (compiled_or before flat) (settle s (apply_issuance_rules s.handler flat))
  unfolding settle set_issuance_rules apply_issuance_rules
  settle-Has before s flat (rules, synced) =
      elim (Outcome-cases (compile_issuance_rules cel (map config_of flat))) [
        | inl (compiled, e) ↦
            let applied : (apply_issuance_rules s.handler flat
                ≡ (set_issuance_rules s.handler compiled, ok tt)) =
              rw (e, apply_issuance_rules) refl in
            rw (e, compiled_or)
              (subst (λ r. Has (some compiled) (settle s r)) (sym applied) (refl, refl))
        | inr (cause, e) ↦
            let applied : (apply_issuance_rules s.handler flat ≡ (s.handler, err cause)) =
              rw (e, apply_issuance_rules) refl in
            rw (e, compiled_or) (subst (λ r. Has before (settle s r)) (sym applied) (rules, synced))
      ]

  receive_all-Has :
      (rules : Map IssuanceKey IssuanceRule) (before : Option (List (CompiledRule cel)))
      (s : State jwt cel) (us : List (Update IssuanceRule))
      → Has before s
      → Has (last_compiled before (lists_after rules us)) (receive_all rules s us)
  unfolding receive_all
  receive_all-Has rules before s [] h = h
  receive_all-Has rules before s (u ∷ us) h =
      receive_all-Has (apply_issuance rules u) _ _ us
        (settle-Has before s (flatten (apply_issuance rules u)) h)

  connect-Has :
      (c : Connection) (before : Option (List (CompiledRule cel))) (s : State jwt cel)
      → Has before s
      → Has (last_compiled before (lists_of c)) (connect c s).0
  unfolding connect stream_issuance
  connect-Has c before s h = elim (Outcome-cases c.dialled) [
    | inr (e, failed) ↦ rw failed h
    | inl (tt, dialled) ↦ elim (Outcome-cases c.opened) [
      | inr (e, failed) ↦ rw (dialled, failed) h
      | inl (tt, opened) ↦ elim (Outcome-cases c.sent) [
        | inr (e, failed) ↦ rw (dialled, opened, failed) h
        | inl (tt, sent) ↦ rw (dialled, opened, sent) (receive_all-Has [] before s c.received h)
      ]
    ]
  ]

  pub run-Has :
      (attempts : List Attempt) (backoff : ℕ) (before : Option (List (CompiledRule cel)))
      (s : State jwt cel)
      → Has before s
      → Has (last_compiled before (lists_of_all attempts)) (run attempts backoff s).0
  unfolding run
  run-Has [] backoff before s h = h
  run-Has (a ∷ rest) backoff before s h =
      let now = connect-Has a.connection before s h in
      elim (Bool-cases (a.done || a.done_waiting)) [
        | inl over ↦ (rw (over, last_compiled-append before (lists_of a.connection) []) now)
        | inr on ↦
            rw (on, last_compiled-append before (lists_of a.connection) (lists_of_all rest))
              (run-Has rest (next_wait backoff) _ (connect a.connection s).0 now)
      ]
