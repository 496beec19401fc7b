-- ===== src/Deployment/History.antt =====
-- The controller, the rule server and a client of one of its streams together, from the client's joining.
pub mod Sides
use kontxt.Base.{
  ℕ, ◌≡◌, refl, sym, ap, ◌∙◌, false, some, List, [], ◌∷◌, ◌==◌, Eq_nat, Eq_string, subst,
}
use kontxt.Base.Maps.{lookup, insert}
use kontxt.Cel.{Cel}
use kontxt.Controller.Generation
use kontxt.Controller.Verification
use kontxt.Controller.Issuance
use kontxt.Distribution.Stream.{Response, Stream, update_rules, subscribe, unsubscribe}
use kontxt.Distribution.Server.{
  RuleServer, update_generation_rules, update_verification_rules, update_issuance_rules,
}
use kontxt.Distribution.Laws.{Unique}
use kontxt.Distribution.Sync.{
  RuleKind, Server, View, HasRoom, Run, joined, updated, joined_by, left_by, read, take_in,
}
use kontxt.Distribution.Kinds.{generation_kind, verification_kind, issuance_kind}
use kontxt.Command.Controller.{
  Round, transaction_type, service_token_requirement, token_policy, handle,
}
use kontxt.Command.Controller.Step.{next-keeps, generation_next, verification_next, issuance_next}
use kontxt.Command.Controller.Laws.{Published, published, replay_one, handle-replay_one}

module _ (cel : Cel) (id : ℕ) where
  -- One of the three streams of the rule server, with what the controller's calls do to it.
  pub record Side : Type 1 where
    pub kind : RuleKind
    pub stream : RuleServer → Server kind id
    pub with_stream : RuleServer → Server kind id → RuleServer
    pub IsFit : Round → RuleServer → Type 0
    pub stream-with_stream :
        (rs : RuleServer) (st : Server kind id) → stream (with_stream rs st) ≡ st
    pub published-with_stream :
        (rs : RuleServer) (st : Server kind id)
        → st.rules ≡ (stream rs).rules
        → published (with_stream rs st) ≡ published rs
    pub handle-Run :
        (round : Round) (rs : RuleServer) {m : View kind id}
        → IsFit round rs
        → Run kind id (stream rs) m
        → Run kind id (stream (handle cel round rs)) m

  module _ (side : Side) where
    open side use {kind, stream, with_stream, IsFit}

    -- What the published rules should be, the server, and the client's rules, after the client joined,
    -- calls of the reconcilers, the joining and leaving of other clients, and the client's reading.
    pub data History : Published → RuleServer → View kind id → Type 1 where
      connected :
          (rs : RuleServer)
          → Unique ⦃e = kind.Eq_key⦄ kind.key (stream rs).rules
          → History
              (published rs)
              (with_stream rs (subscribe kind.to_proto (stream rs) id).0)
              (take_in kind id [] (subscribe kind.to_proto (stream rs) id).1.update)
      reconciled :
          {p : Published} {rs : RuleServer} {m : View kind id} (round : Round)
          → History p rs m
          → IsFit round rs
          → History (replay_one cel round p) (handle cel round rs) m
      other_joined :
          {p : Published} {rs : RuleServer} {m : View kind id} (other : ℕ)
          → History p rs m
          → (other == id) ≡ false
          → History p (with_stream rs (subscribe kind.to_proto (stream rs) other).0) m
      other_left :
          {p : Published} {rs : RuleServer} {m : View kind id} (other : ℕ)
          → History p rs m
          → (other == id) ≡ false
          → History p (with_stream rs (unsubscribe (stream rs) other)) m
      received :
          {p : Published} {rs : RuleServer} {m : View kind id} (resp : Response kind.P)
          (ch : List (Response kind.P))
          → History p rs m
          → lookup id (stream rs).subscribers ≡ some (resp ∷ ch)
          → History p
              (with_stream rs
                (record (stream rs) { subscribers = insert id ch (stream rs).subscribers }))
              (take_in kind id m resp.update)

    -- The rule server publishes what it should.
    pub History-published :
        {p : Published} {rs : RuleServer} {m : View kind id} → History p rs m → published rs ≡ p
    unfolding subscribe unsubscribe
    History-published (connected rs unique) = side.published-with_stream rs _ refl
    History-published (reconciled {rs = rs} round h fit) =
        handle-replay_one cel round rs ∙ ap (replay_one cel round) (History-published h)
    History-published (other_joined {rs = rs} other h differs) =
        side.published-with_stream rs _ refl ∙ History-published h
    History-published (other_left {rs = rs} other h differs) =
        side.published-with_stream rs _ refl ∙ History-published h
    History-published (received {rs = rs} resp ch h there) =
        side.published-with_stream rs _ refl ∙ History-published h

    set-Run :
        (rs : RuleServer) {st : Server kind id} {m : View kind id}
        → Run kind id st m
        → Run kind id (stream (with_stream rs st)) m
    set-Run rs {st} {m} run = subst (λ x. Run kind id x m) (sym (side.stream-with_stream rs st)) run

    -- The stream and the client are on a run.
    pub History-Run :
        {p : Published} {rs : RuleServer} {m : View kind id}
        → History p rs m
        → Run kind id (stream rs) m
    History-Run (connected rs unique) = set-Run rs (joined (stream rs) unique)
    History-Run (reconciled {rs = rs} round h fit) = side.handle-Run round rs fit (History-Run h)
    History-Run (other_joined {rs = rs} other h differs) =
        set-Run rs (joined_by other (History-Run h) differs)
    History-Run (other_left {rs = rs} other h differs) =
        set-Run rs (left_by other (History-Run h) differs)
    History-Run (received {rs = rs} resp ch h there) =
        set-Run rs (read resp ch (History-Run h) there)
