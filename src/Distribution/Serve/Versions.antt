-- ===== src/Distribution/Serve/Versions.antt =====
-- The versions that a stream call sends.
use kontxt.Base.{
  ℕ, ◌+◌, ◌^◌, ◌≤◌, ◌<◌, ◌≡◌, refl, sym, ◌∙◌, inl, inr, false, some, List, [], ◌∷◌, ◌++◌, arith,
  ltb, ◌==◌, Eq_nat, Eq_string, Bool-cases, length, ok, err, subst, some_inj,
}
use kontxt.Base.Maps.{lookup, lookup-insert, lookup-delete}
use kontxt.Distribution.Stream.{
  Response, Update, push, update_rules, upsert_rule, subscribe, unsubscribe, offer, capacity,
  next_version, build_snapshot,
}
use kontxt.Distribution.Sync.{RuleKind, Server, lookup-broadcast}
use kontxt.Distribution.Serve.Laws.{turn-cases, turn_waits, turn_sends, turn_fails}
use kontxt.Distribution.Serve.{
  Change, update, upsert, remove, join, leave, Wake, changed, cancelled, turn, Served, apply_change,
  return_with, took, stream_loop, stream_rules,
}

-- The versions increase, from one that is below them all up to one that is not.
abbrev pub Increases : {P : Type 0} → ℕ → List (Response P) → ℕ → Type 0
Increases lo [] hi = lo ≤ hi
Increases lo (resp ∷ rest) hi = (lo < resp.version) × Increases resp.version rest hi

Increases-bounds : {P : Type 0} (lo hi : ℕ) (ch : List (Response P)) → Increases lo ch hi → lo ≤ hi
Increases-bounds lo hi [] h = h
Increases-bounds lo hi (resp ∷ rest) (below, h) =
    let above = Increases-bounds resp.version hi rest h in omega arith

Increases-wider :
    {P : Type 0} (lo hi hi' : ℕ) (ch : List (Response P))
    → hi ≤ hi'
    → Increases lo ch hi
    → Increases lo ch hi'
Increases-wider lo hi hi' [] wider h = omega arith
Increases-wider lo hi hi' (resp ∷ rest) wider (below, h) =
    (below, Increases-wider resp.version hi hi' rest wider h)

Increases-append :
    {P : Type 0} (lo hi : ℕ) (ch : List (Response P)) (resp : Response P)
    → hi < resp.version
    → Increases lo ch hi
    → Increases lo (ch ++ resp ∷ []) resp.version
Increases-append lo hi [] resp above h = (omega arith, omega arith)
Increases-append lo hi (r ∷ rest) resp above (below, h) =
    (below, Increases-append r.version hi rest resp above h)

-- So they do where a later response is offered, whether or not it is dropped.
Increases-offer :
    {P : Type 0} (lo hi : ℕ) (ch : List (Response P)) (resp : Response P)
    → hi < resp.version
    → Increases lo ch hi
    → Increases lo (offer resp ch) resp.version
unfolding offer
Increases-offer lo hi ch resp above h = elim (Bool-cases (ltb (length ch) capacity)) [
  | inl room ↦ rw (room, offer) (Increases-append lo hi ch resp above h)
  | inr full ↦ rw (full, offer) (Increases-wider lo hi resp.version ch (omega arith) h)
]

next_version_small : (v : ℕ) → v + 1 < 2 ^ 64 → next_version v ≡ v + 1
unfolding next_version
next_version_small v small = omega arith

module _ (kind : RuleKind) (id : ℕ) where
  open kind use {R, P, K, Eq_key, to_proto, key, removed}

  -- The channel of the call, and the order in it.
  record Ordered (lo : ℕ) (st : Server kind id) : Type 0 where
    channel : List (Response P)
    there : lookup id st.subscribers ≡ some channel
    increases : Increases lo channel st.version

  push-Ordered :
      (lo : ℕ) (st : Server kind id) (rules : List R) (u : Update P)
      → st.version + 1 < 2 ^ 64
      → Ordered lo st
      → Ordered lo (push to_proto st rules u)
  unfolding push
  push-Ordered lo st rules u small h =
      let resp : Response P = record { update = u; version = next_version st.version } in
      record {
        channel = offer resp h.channel;
        there = lookup-broadcast resp id st.subscribers h.channel h.there;
        increases =
            Increases-offer lo st.version h.channel resp
              (rw (next_version_small st.version small) (omega arith)) h.increases;
      }

  -- The start or the end of another call.
  abbrev pub IsOther : Change R → Type 0
  IsOther (join other) = (other == id) ≡ false
  IsOther (leave other) = (other == id) ≡ false
  IsOther _ = Unit

  change-Ordered :
      (c : Change R) (lo : ℕ) (st : Server kind id)
      → IsOther c
      → st.version + 1 < 2 ^ 64
      → Ordered lo st
      → Ordered lo (apply_change kind c st)
  unfolding apply_change update_rules upsert_rule subscribe unsubscribe
  change-Ordered (update rules) lo st other small h = push-Ordered lo st _ _ small h
  change-Ordered (upsert r) lo st other small h = push-Ordered lo st _ _ small h
  change-Ordered (remove ref) lo st other small h = push-Ordered lo st _ _ small h
  change-Ordered (join another) lo st other small h = record {
    channel = h.channel;
    there = ground (arith, lookup-insert another id [] st.subscribers, other, h.there);
    increases = h.increases;
  }
  change-Ordered (leave another) lo st other small h = record {
    channel = h.channel;
    there = ground (arith, lookup-delete another id st.subscribers, other, h.there);
    increases = h.increases;
  }

  change-version :
      (c : Change R) (st : Server kind id)
      → st.version + 1 < 2 ^ 64
      → (apply_change kind c st).version ≤ st.version + 1
  unfolding apply_change update_rules upsert_rule subscribe unsubscribe push
  change-version (update rules) st small = rw (next_version_small st.version small) (omega arith)
  change-version (upsert r) st small = rw (next_version_small st.version small) (omega arith)
  change-version (remove ref) st small = rw (next_version_small st.version small) (omega arith)
  change-version (join another) st small = omega arith
  change-version (leave another) st small = omega arith

  took-Ordered :
      (lo : ℕ) (st : Server kind id) (resp : Response P) (rest : List (Response P))
      → lookup id st.subscribers ≡ some (resp ∷ rest)
      → Ordered lo st
      → (lo < resp.version) × Ordered resp.version (took kind id st rest)
  unfolding took
  took-Ordered lo st resp rest there h =
      let (below, increases) : Increases lo (resp ∷ rest) st.version =
        subst (λ l. Increases lo l st.version) (some_inj (sym h.there ∙ there)) h.increases in
      (
        below,
        record {
          channel = rest;
          there = ground (arith, lookup-insert id id rest st.subscribers);
          increases = increases;
        },
      )

  -- No other call has the id of this one.
  abbrev pub AreOthers : List (Wake R) → Type 0
  AreOthers [] = Unit
  AreOthers (changed c ∷ ws) = IsOther c × AreOthers ws
  AreOthers (cancelled e ∷ ws) = AreOthers ws
  AreOthers (turn r ∷ ws) = AreOthers ws

  abbrev SendsUpTo : ℕ → Served R P → Type 0
  SendsUpTo lo s = Increases lo s.sent s.server.version

  stream_loop-Increases :
      (ws : List (Wake R)) (lo : ℕ) (st : Server kind id)
      → AreOthers ws
      → st.version + length ws < 2 ^ 64
      → Ordered lo st
      → SendsUpTo lo (stream_loop kind id ws st)
  unfolding stream_loop return_with unsubscribe took
  stream_loop-Increases [] lo st others small h =
      Increases-bounds lo st.version h.channel h.increases
  stream_loop-Increases (changed c ∷ ws) lo st (other, others) small h =
      let few = change-version c st (omega arith) in
      stream_loop-Increases ws lo (apply_change kind c st) others (omega arith)
        (change-Ordered c lo st other (omega arith) h)
  stream_loop-Increases (cancelled e ∷ ws) lo st others small h =
      Increases-bounds lo st.version h.channel h.increases
  stream_loop-Increases (turn (ok _) ∷ ws) lo st others small h = elim (turn-cases kind id st) [
    | inl waits ↦
        subst (SendsUpTo lo) (sym (turn_waits kind id (ok tt) ws st waits))
          (stream_loop-Increases ws lo st others (omega arith) h)
    | inr (resp, rest, taken, there) ↦
        let (below, h') = took-Ordered lo st resp rest there h in
        subst (SendsUpTo lo) (sym (turn_sends kind id ws st resp rest taken)) (
          below,
          stream_loop-Increases ws resp.version (took kind id st rest) others (omega arith) h',
        )
  ]
  stream_loop-Increases (turn (err e) ∷ ws) lo st others small h = elim (turn-cases kind id st) [
    | inl waits ↦
        subst (SendsUpTo lo) (sym (turn_waits kind id (err e) ws st waits))
          (stream_loop-Increases ws lo st others (omega arith) h)
    | inr (resp, rest, taken, there) ↦
        subst (SendsUpTo lo) (sym (turn_fails kind id ws st resp rest e taken))
          (Increases-bounds lo st.version h.channel h.increases)
  ]

  -- A stream call whose first Recv and Send succeed sends the snapshot of the rules first, and the
  -- versions of what it sends then strictly increase from the one of the snapshot, whether or not a
  -- full channel dropped responses, when no other call has its id and the version does not wrap.
  pub stream_rules-Increases :
      (ws : List (Wake R)) (st : Server kind id)
      → AreOthers ws
      → st.version + length ws < 2 ^ 64
      → (rest : List (Response P)) × ((stream_rules kind id (ok tt) (ok tt) ws st).sent
          ≡ build_snapshot to_proto st ∷ rest)
        × Increases st.version rest (stream_rules kind id (ok tt) (ok tt) ws st).server.version
  unfolding stream_rules subscribe
  stream_rules-Increases ws st others small =
      let joined = (subscribe to_proto st id).0 in
      (
        (stream_loop kind id ws joined).sent,
        refl,
        stream_loop-Increases ws st.version joined others small (record {
          channel = [];
          there = ground (arith, lookup-insert id id [] st.subscribers);
          increases = omega arith;
        }),
      )
