-- ===== src/Tests/Distribution.antt =====
-- The distribution of rules at concrete inputs.
use kontxt.Base.{
  ℕ, zero, suc, ◌≤◌, ◌≡◌, refl, sym, ap, ◌∙◌, true, none, some, List, [], ◌∷◌, ◌++◌, arith, ltb,
  Eq_nat, Eq_string, length, length-append, ok, err, subst, some_inj,
}
use kontxt.Base.Maps.{lookup, insert}
use kontxt.Rules.{IssuanceRule}
use kontxt.Distribution.Stream.{
  Response, empty_stream, subscribe, upsert_rule, replace_or_append, push, broadcast, offer,
  next_version, delta, snapshot, update_rules, build_snapshot,
}
use kontxt.Distribution.Server.{issuance_key}
use kontxt.Distribution.Client.{apply, store, drop_refs}
use kontxt.Distribution.Sync.{
  Run, joined, updated, upserted, read, take_all, lookup-broadcast, offer-room, Run-Agrees, Server,
  View, Agrees,
}
use kontxt.Distribution.Kinds.{issuance_kind}
use kontxt.Distribution.Sync.Lost.{update_rules-not-Agrees}
use kontxt.Distribution.Serve.{
  Wake, changed, turn, upsert, stream_rules, stream_loop, apply_change, channel_of, took,
  return_with,
}
use kontxt.Distribution.Serve.Versions.{Increases, stream_rules-Increases}
use kontxt.Distribution.Server.{new_rule_server}
use kontxt.Distribution.Server.Calls.{
  calls, join_issuance, join_generation, upsert_issuance, send_issuance, leave_generation,
}
use kontxt.Distribution.Server.Subscribers.{IsSound, calls-IsSound}
use kontxt.Distribution.Serve.Laws.{stream_rules-Run, lookup-stream_rules}
use kontxt.Distribution.Stream.{receive}
use kontxt.Distribution.Sync.Drained.{Reads, Reads-Agrees}

abbrev issuance : IssuanceRule
issuance = record {
  policy_namespace = "";
  policy_name = "limits";
  rule_name = "good";
  cel = "true";
  message = "";
  target_namespaces = [];
}

-- The server and the client after the client joined, a rule was added, and the client read it.
abbrev start : Server issuance_kind 1
start = (subscribe issuance_kind.to_proto empty_stream 1).0

abbrev added : Server issuance_kind 1
added = upsert_rule issuance_kind.to_proto ⦃e = issuance_kind.Eq_key⦄ issuance_key start issuance

abbrev sent : Response IssuanceRule
sent = record { update = delta (issuance_kind.to_proto issuance ∷ []) []; version = 1 }

abbrev after : Server issuance_kind 1
after = record added { subscribers = insert 1 [] added.subscribers }

abbrev view : View issuance_kind 1
view =
    apply ⦃e = issuance_kind.Eq_key⦄ issuance_kind.from_proto issuance_kind.key issuance_kind.drop
      [] sent.update

one-Run : Run issuance_kind 1 after view
unfolding subscribe build_snapshot upsert_rule push broadcast offer next_version lookup insert apply
    store drop_refs
one-Run =
    read sent []
      (upserted issuance (joined empty_stream tt)
        (λ ch e. subst (λ l. ltb (length l) 64 ≡ true) (some_inj e) refl))
      refl

Run-Agrees_example : lookup ⦃e = issuance_kind.Eq_key⦄ (issuance_key issuance) view ≡ some issuance
unfolding lookup insert upsert_rule push broadcast subscribe replace_or_append
Run-Agrees_example = Run-Agrees issuance_kind 1 one-Run refl (issuance_key issuance)

waiting-Run : Run issuance_kind 1 added []
unfolding subscribe build_snapshot upsert_rule push broadcast offer next_version lookup insert apply
    store drop_refs
waiting-Run =
    upserted issuance (joined empty_stream tt)
      (λ ch e. subst (λ l. ltb (length l) 64 ≡ true) (some_inj e) refl)

Reads-Agrees_example :
    (t : Server issuance_kind 1) × (l : View issuance_kind 1) × Reads issuance_kind 1 added [] 1 t l
    × (t.rules ≡ added.rules)
    × Agrees issuance_kind 1 l added.rules
unfolding lookup insert upsert_rule push broadcast subscribe replace_or_append offer next_version
Reads-Agrees_example = Reads-Agrees issuance_kind 1 (sent ∷ []) waiting-Run refl

-- The server after so many updates that the client has not read.
abbrev unread : ℕ → Server issuance_kind 1
unread zero = start
unread (suc n) = update_rules issuance_kind.to_proto (unread n) []

unread-Run :
    (n : ℕ)
    → n ≤ 64
    → (ch : List (Response IssuanceRule)) × Run issuance_kind 1 (unread n) []
      × (lookup 1 (unread n).subscribers ≡ some ch)
      × (length ch ≡ n)
unfolding subscribe build_snapshot update_rules push apply store insert lookup
unread-Run zero h = ([], joined empty_stream tt, refl, refl)
unread-Run (suc n) h =
    let (ch, run, there, measured) = unread-Run n (omega arith) in
    let room : ltb (length ch) 64 ≡ true = ground (arith, measured) in
    let resp : Response IssuanceRule = record {
      update = snapshot [];
      version = next_version (unread n).version;
    } in
    (
      ch ++ resp ∷ [],
      updated [] run
          (λ l there'. subst (λ x. ltb (length x) 64 ≡ true) (some_inj (sym there ∙ there')) room)
          tt,
      lookup-broadcast resp 1 (unread n).subscribers ch there ∙ ap some (offer-room resp ch room),
      omega (arith, length-append ch (resp ∷ []), measured),
    )

abbrev full : List (Response IssuanceRule)
full = (unread-Run 64 (omega arith)).0

update_rules-not-Agrees_example :
    (lookup 1 (update_rules issuance_kind.to_proto (unread 64) (issuance ∷ [])).subscribers
      ≡ some full)
    × ¬ Agrees issuance_kind 1
        (take_all issuance_kind 1 [] full)
        (update_rules issuance_kind.to_proto (unread 64) (issuance ∷ [])).rules
unfolding update_rules push
update_rules-not-Agrees_example =
    update_rules-not-Agrees issuance_kind 1 (issuance ∷ []) (issuance_key issuance) full
      (unread-Run 64 (omega arith)).1 (unread-Run 64 (omega arith)).2
      (ground (arith, (unread-Run 64 (omega arith)).3)) (λ e. cc e)

-- A call that sends the snapshot and then a rule that another call added.
abbrev wakes : List (Wake IssuanceRule)
wakes = changed (upsert issuance) ∷ turn (ok tt) ∷ []

stream_rules-Run_example :
    Run issuance_kind 1 (stream_rules issuance_kind 1 (ok tt) (ok tt) wakes empty_stream).server (
      take_all issuance_kind 1 []
        (stream_rules issuance_kind 1 (ok tt) (ok tt) wakes empty_stream).sent)
unfolding stream_rules stream_loop subscribe build_snapshot insert upsert_rule push broadcast offer
    next_version lookup receive apply_change channel_of took
stream_rules-Run_example =
    stream_rules-Run issuance_kind 1 wakes empty_stream tt
      ((λ ch e. subst (λ l. ltb (length l) 64 ≡ true) (some_inj e) refl), tt) refl

-- A call whose second Send fails.
lookup-stream_rules_example :
    lookup 1
      (stream_rules issuance_kind 1
        (ok tt)
        (ok tt)
        (changed (upsert issuance) ∷ turn (err "broken pipe") ∷ [])
        empty_stream).server.subscribers
    ≡ none
unfolding stream_rules stream_loop subscribe build_snapshot insert upsert_rule push broadcast offer
    next_version lookup receive apply_change channel_of took return_with
lookup-stream_rules_example =
    lookup-stream_rules issuance_kind 1 (ok tt) (ok tt)
      (changed (upsert issuance) ∷ turn (err "broken pipe") ∷ []) empty_stream "broken pipe" refl
      refl

stream_rules-Increases_example :
    (rest : List (Response IssuanceRule)) × ((stream_rules issuance_kind 1
        (ok tt)
        (ok tt)
        wakes
        empty_stream).sent
      ≡ build_snapshot issuance_kind.to_proto empty_stream ∷ rest)
    × Increases 0 rest
        (stream_rules issuance_kind 1 (ok tt) (ok tt) wakes empty_stream).server.version
stream_rules-Increases_example =
    stream_rules-Increases issuance_kind 1 wakes empty_stream (tt, tt) (omega arith)

calls-IsSound_example : IsSound (
    calls
      (join_issuance
        ∷ join_generation
        ∷ upsert_issuance issuance
        ∷ send_issuance 1
        ∷ leave_generation 2
        ∷ [])
      new_rule_server)
calls-IsSound_example =
    calls-IsSound
      (join_issuance
        ∷ join_generation
        ∷ upsert_issuance issuance
        ∷ send_issuance 1
        ∷ leave_generation 2
        ∷ [])
      (omega arith)
