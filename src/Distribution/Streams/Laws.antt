-- ===== src/Distribution/Streams/Laws.antt =====
-- What every event keeps holds after any connections of the rule client of the ext_authz services.
use kontxt.Base.{ℕ, inl, inr, ◌||◌, List, [], ◌∷◌, Bool-cases, Outcome-cases}
use kontxt.Rules.{GenerationRule, VerificationRule}
use kontxt.Distribution.Streams.{
  RuleClient, Event, Attempt, next_backoff, handle, handle_all, connect, run,
}

module _ {G V : Type 0} (set_generation : List GenerationRule → G → G)
    (set_verification : List VerificationRule → V → V) where
  -- What every event keeps holds after any connections.
  module _ {ℓ} (Holds : RuleClient G V → Type ℓ)
      (keeps : (e : Event) (c : RuleClient G V)
        → Holds c
        → Holds (handle set_generation set_verification e c)) where
    handle_all-keeps :
        (es : List Event) (c : RuleClient G V)
        → Holds c
        → Holds (handle_all set_generation set_verification es c).0
    unfolding handle_all
    handle_all-keeps [] c h = h
    handle_all-keeps (e ∷ es) c h = handle_all-keeps es _ (keeps e c h)

    connect-keeps :
        (a : Attempt) (c : RuleClient G V)
        → Holds c
        → Holds (connect set_generation set_verification a c).0
    unfolding connect
    connect-keeps a c h = elim (Outcome-cases a.dialled) [
      | inr (e, refused) ↦ rw refused h
      | inl (tt, dialled) ↦ rw dialled (handle_all-keeps a.events c h)
    ]

    pub run-keeps :
        (attempts : List Attempt) (backoff : ℕ) (c : RuleClient G V)
        → Holds c
        → Holds (run set_generation set_verification attempts backoff c).0
    unfolding run
    run-keeps [] backoff c h = h
    run-keeps (a ∷ rest) backoff c h = elim (Bool-cases (a.done || a.done_waiting)) [
      | inl over ↦ rw over (connect-keeps a c h)
      | inr on ↦ rw on (run-keeps rest (next_backoff backoff) _ (connect-keeps a c h))
    ]
