-- ===== src/Distribution/Serve/Laws.antt =====
-- What a stream call sends, and what it leaves behind.
use kontxt.Base.{
  ℕ, String, ◌≡◌, refl, sym, ◌⊎◌, inl, inr, false, none, some, List, [], ◌∷◌, arith, ◌==◌, Eq_nat,
  Eq_string, Option-cases, Outcome, ok, err, subst,
}
use kontxt.Base.Maps.{lookup, lookup-delete}
use kontxt.Distribution.Stream.{Response, subscribe, unsubscribe, receive}
use kontxt.Distribution.Laws.{Unique}
use kontxt.Distribution.Sync.{
  RuleKind, Server, View, Run, joined, updated, upserted, removed_by, joined_by, left_by, read,
  HasRoom, take_all,
}
use kontxt.Distribution.Serve.{
  Change, update, upsert, remove, join, leave, Wake, changed, cancelled, turn, Served, and_sent,
  apply_change, return_with, channel_of, took, stream_loop, stream_rules,
}

module _ (kind : RuleKind) (id : ℕ) where
  open kind use {R, P, K, Eq_key, to_proto, key}

  -- A change that leaves the call its channel and room in it, and that gives no key two rules.
  abbrev pub IsOrderlyChange : Change R → Server kind id → Type 0
  IsOrderlyChange (update rules) st = HasRoom kind id st × Unique ⦃e = Eq_key⦄ key rules
  IsOrderlyChange (upsert r) st = HasRoom kind id st
  IsOrderlyChange (remove ref) st = HasRoom kind id st
  IsOrderlyChange (join other) st = (other == id) ≡ false
  IsOrderlyChange (leave other) st = (other == id) ≡ false

  change-Run :
      (c : Change R) {st : Server kind id} {m : View kind id}
      → IsOrderlyChange c st
      → Run kind id st m
      → Run kind id (apply_change kind c st) m
  unfolding apply_change
  change-Run (update rules) (room, unique) run = updated rules run room unique
  change-Run (upsert r) room run = upserted r run room
  change-Run (remove ref) room run = removed_by ref run room
  change-Run (join other) differs run = joined_by other run differs
  change-Run (leave other) differs run = left_by other run differs

  -- The changes that the loop meets are orderly, each at the server that it meets.
  abbrev pub AreOrderly : List (Wake R) → Server kind id → Type 0
  AreOrderly [] st = Unit
  AreOrderly (changed c ∷ ws) st = IsOrderlyChange c st × AreOrderly ws (apply_change kind c st)
  AreOrderly (cancelled e ∷ ws) st = Unit
  AreOrderly (turn r ∷ ws) st = elim (receive (channel_of kind id st)) [
    | none ↦ AreOrderly ws st
    | some (resp, rest) ↦ AreOrderly ws (took kind id st rest)
  ]

  pub turn-cases :
      (st : Server kind id)
      → (receive (channel_of kind id st) ≡ none)
        ⊎ ((resp : Response P) × (rest : List (Response P)) × (receive (channel_of kind id st)
              ≡ some (resp, rest))
            × (lookup id st.subscribers ≡ some (resp ∷ rest)))
  unfolding channel_of receive
  turn-cases st = elim (Option-cases (lookup id st.subscribers)) [
    | inl missing ↦ inl (rw (missing, channel_of) refl)
    | inr ([], there) ↦ inl (rw (there, channel_of) refl)
    | inr (resp ∷ rest, there) ↦ inr (resp, rest, rw (there, channel_of) refl, there)
  ]

  pub turn_waits :
      (r : Outcome String (Unit {0})) (ws : List (Wake R)) (st : Server kind id)
      → receive (channel_of kind id st) ≡ none
      → stream_loop kind id (turn r ∷ ws) st ≡ stream_loop kind id ws st
  unfolding stream_loop
  turn_waits (ok _) ws st waits = rw (waits, stream_loop) refl
  turn_waits (err e) ws st waits = rw (waits, stream_loop) refl

  pub turn_sends :
      (ws : List (Wake R)) (st : Server kind id) (resp : Response P) (rest : List (Response P))
      → receive (channel_of kind id st) ≡ some (resp, rest)
      → stream_loop kind id (turn (ok tt) ∷ ws) st
        ≡ and_sent resp (stream_loop kind id ws (took kind id st rest))
  unfolding stream_loop
  turn_sends ws st resp rest taken = rw (taken, stream_loop) refl

  pub turn_fails :
      (ws : List (Wake R)) (st : Server kind id) (resp : Response P) (rest : List (Response P))
      (e : String)
      → receive (channel_of kind id st) ≡ some (resp, rest)
      → stream_loop kind id (turn (err e) ∷ ws) st ≡ return_with kind id (took kind id st rest) e
  unfolding stream_loop
  turn_fails ws st resp rest e taken = rw (taken, stream_loop) refl

  -- A call that has not returned is on a run, with the view of a client that took in what was sent.
  abbrev Follows : View kind id → Served R P → Type 0
  Follows m s = s.returned ≡ none → Run kind id s.server (take_all kind id m s.sent)

  stream_loop-Run :
      (ws : List (Wake R)) {st : Server kind id} {m : View kind id}
      → AreOrderly ws st
      → Run kind id st m
      → (stream_loop kind id ws st).returned ≡ none
      → Run kind id
          (stream_loop kind id ws st).server
          (take_all kind id m (stream_loop kind id ws st).sent)
  unfolding stream_loop return_with
  stream_loop-Run [] orderly run open_ = run
  stream_loop-Run (changed c ∷ ws) (orderly, rest) run open_ =
      stream_loop-Run ws rest (change-Run c orderly run) open_
  stream_loop-Run (cancelled e ∷ ws) orderly run open_ = cc
  stream_loop-Run (turn (ok _) ∷ ws) {st} {m} orderly run open_ = elim (turn-cases st) [
    | inl waits ↦
        subst (Follows m) (sym (turn_waits (ok tt) ws st waits))
          (stream_loop-Run ws (rw (waits, AreOrderly) at orderly) run) open_
    | inr (resp, rest, taken, there) ↦
        subst (Follows m) (sym (turn_sends ws st resp rest taken))
          (stream_loop-Run ws (rw (taken, AreOrderly) at orderly)
            (unfold took in read resp rest run there))
          open_
  ]
  stream_loop-Run (turn (err e) ∷ ws) {st} {m} orderly run open_ = elim (turn-cases st) [
    | inl waits ↦
        subst (Follows m) (sym (turn_waits (err e) ws st waits))
          (stream_loop-Run ws (rw (waits, AreOrderly) at orderly) run) open_
    | inr (resp, rest, taken, there) ↦
        subst (Follows m) (sym (turn_fails ws st resp rest e taken)) (unfold return_with in λ o. cc)
          open_
  ]

  -- The rules that a call has sent, taken in one after the other, bring a client along such a run,
  -- as long as the call has not returned, the changes that it meets are orderly, and the server had
  -- no key twice.
  pub stream_rules-Run :
      (ws : List (Wake R)) (st : Server kind id)
      → Unique ⦃e = Eq_key⦄ key st.rules
      → AreOrderly ws (subscribe to_proto st id).0
      → (stream_rules kind id (ok tt) (ok tt) ws st).returned ≡ none
      → Run kind id
          (stream_rules kind id (ok tt) (ok tt) ws st).server
          (take_all kind id [] (stream_rules kind id (ok tt) (ok tt) ws st).sent)
  unfolding stream_rules
  stream_rules-Run ws st unique orderly open_ = stream_loop-Run ws orderly (joined st unique) open_

  lookup-return_with :
      (st : Server kind id) (e : String)
      → lookup id (return_with kind id st e).server.subscribers ≡ none
  unfolding return_with unsubscribe
  lookup-return_with st e = ground (arith, lookup-delete id id st.subscribers)

  -- The channel that a call leaves behind.
  abbrev IsClosed : Served R P → Type 0
  IsClosed s = (e : String) → s.returned ≡ some e → lookup id s.server.subscribers ≡ none

  stream_loop-IsClosed :
      (ws : List (Wake R)) (st : Server kind id) → IsClosed (stream_loop kind id ws st)
  unfolding stream_loop
  stream_loop-IsClosed [] st = λ e returned. cc
  stream_loop-IsClosed (changed c ∷ ws) st = stream_loop-IsClosed ws (apply_change kind c st)
  stream_loop-IsClosed (cancelled e ∷ ws) st = λ _ _. lookup-return_with st e
  stream_loop-IsClosed (turn (ok _) ∷ ws) st = elim (turn-cases st) [
    | inl waits ↦ subst IsClosed (sym (turn_waits (ok tt) ws st waits)) (stream_loop-IsClosed ws st)
    | inr (resp, rest, taken, there) ↦
        subst IsClosed (sym (turn_sends ws st resp rest taken))
          (stream_loop-IsClosed ws (took kind id st rest))
  ]
  stream_loop-IsClosed (turn (err e) ∷ ws) st = elim (turn-cases st) [
    | inl waits ↦ subst IsClosed (sym (turn_waits (err e) ws st waits)) (stream_loop-IsClosed ws st)
    | inr (resp, rest, taken, there) ↦
        subst IsClosed (sym (turn_fails ws st resp rest e taken))
          (λ _ _. lookup-return_with (took kind id st rest) e)
  ]

  -- A call that has returned has no channel at the server, whichever of Recv, Send and the context
  -- ended it, when its id had none before.
  pub lookup-stream_rules :
      (asked first : Outcome String (Unit {0})) (ws : List (Wake R)) (st : Server kind id)
      (e : String)
      → lookup id st.subscribers ≡ none
      → (stream_rules kind id asked first ws st).returned ≡ some e
      → lookup id (stream_rules kind id asked first ws st).server.subscribers ≡ none
  unfolding stream_rules
  lookup-stream_rules (err _) first ws st e fresh returned = fresh
  lookup-stream_rules (ok _) (err cause) ws st e fresh returned =
      lookup-return_with (subscribe to_proto st id).0 cause
  lookup-stream_rules (ok _) (ok _) ws st e fresh returned =
      stream_loop-IsClosed ws (subscribe to_proto st id).0 e returned
