-- ===== src/Distribution/Sync.antt =====
-- A client of one rule stream next to the server: the steps that the two take together, and what the
-- client knows when its channel is empty.
pub mod Drained
pub mod Ordered
pub mod Lost
use kontxt.Base.{
  ℕ, ◌≡◌, refl, sym, ap, ◌∙◌, Bool, true, false, Option, none, some, List, [], ◌∷◌, ◌++◌, map,
  arith, if◌then◌else◌, ltb, Eq, ◌==◌, Eq_nat, Eq_string, test_refl, length, subst, some_inj,
}
use kontxt.Base.Maps.{Map, lookup, insert, lookup-insert, lookup-delete}
use kontxt.Distribution.Stream.{
  RuleRef, Update, snapshot, delta, Response, Stream, capacity, next_version, offer, broadcast,
  push, update_rules, upsert_rule, subscribe, unsubscribe, build_snapshot, replace_or_append,
}
use kontxt.Distribution.Client.{store, drop_refs, apply}
use kontxt.Distribution.Perm.{IsKeyed}
use kontxt.Distribution.Laws.{
  find, Unique, find-replace_or_append, Unique-replace_or_append, lookup-store,
}

-- What the three streams have in common: the conversions, the keys, which keys a removed reference
-- names, what it removes from the server's list, and what it deletes from the client's map.
pub record RuleKind : Type 1 where
  pub R : Type 0
  pub P : Type 0
  pub K : Type 0
  pub Eq_key : Eq K
  pub to_proto : R → P
  pub from_proto : P → R
  pub key : R → K
  pub names : RuleRef → K → Bool
  pub removed : RuleRef → List R → List R
  pub drop : RuleRef → Map K R → Map K R
  pub from_proto-to_proto : (r : R) → from_proto (to_proto r) ≡ r
  pub find-removed :
      (ref : RuleRef) (k : K) (rs : List R)
      → Unique ⦃e = Eq_key⦄ key rs
      → find ⦃e = Eq_key⦄ key k (removed ref rs)
        ≡ (if names ref k then none else find ⦃e = Eq_key⦄ key k rs)
  pub Unique-removed :
      (ref : RuleRef) (rs : List R)
      → Unique ⦃e = Eq_key⦄ key rs
      → Unique ⦃e = Eq_key⦄ key (removed ref rs)
  pub lookup-drop :
      (ref : RuleRef) (k : K) (m : Map K R)
      → lookup ⦃e = Eq_key⦄ k (drop ref m) ≡ (if names ref k then none else lookup ⦃e = Eq_key⦄ k m)
  pub drop-IsKeyed :
      (ref : RuleRef) (m : Map K R)
      → IsKeyed ⦃e = Eq_key⦄ key m
      → IsKeyed ⦃e = Eq_key⦄ key (drop ref m)

-- What a subscriber's channel holds after a broadcast.
pub lookup-broadcast :
    {P : Type 0} (resp : Response P) (id : ℕ) (subs : Map ℕ (List (Response P)))
    (ch : List (Response P))
    → lookup id subs ≡ some ch
    → lookup id (broadcast resp subs) ≡ some (offer resp ch)
unfolding broadcast lookup
lookup-broadcast resp id [] ch e = cc
lookup-broadcast resp id ((j, c) ∷ subs) ch e = grind (arith, lookup-broadcast resp id subs ch)

same_option :
    {A : Type 0} (o : Option A) → elim o as (λ _. Option A) [ some r ↦ some r | none ↦ none ] ≡ o
same_option none = refl
same_option (some a) = refl

pub offer-room :
    {P : Type 0} (resp : Response P) (ch : List (Response P))
    → ltb (length ch) capacity ≡ true
    → offer resp ch ≡ ch ++ resp ∷ []
unfolding offer
offer-room resp ch room = rw room refl

module _ (kind : RuleKind) (id : ℕ) where
  open kind use {R, P, K, Eq_key, to_proto, from_proto, key, names, removed, drop}

  abbrev pub Server : Type 0
  Server = Stream R P

  abbrev pub View : Type 0
  View = Map K R

  -- The client applies one update, or those that wait in its channel.
  abbrev pub take_in : View → Update P → View
  take_in m u = apply ⦃e = Eq_key⦄ from_proto key drop m u

  abbrev pub take_all : View → List (Response P) → View
  take_all m [] = m
  take_all m (resp ∷ ch) = take_all (take_in m resp.update) ch

  -- The client finds under every key the rule that the server has.
  abbrev pub Agrees : View → List R → Type 0
  Agrees m rules = (k : K) → lookup ⦃e = Eq_key⦄ k m ≡ find ⦃e = Eq_key⦄ key k rules

  -- The client's channel is not full, so that the next response is not dropped.
  abbrev pub HasRoom : Server → Type 0
  HasRoom st =
      (ch : List (Response P))
      → lookup id st.subscribers ≡ some ch
      → ltb (length ch) capacity ≡ true

  -- The client after it subscribed, the changes of the rules, the joining and leaving of others, and
  -- the client's reading from its channel.
  pub data Run : Server → View → Type 0 where
    joined :
        (st : Server)
        → Unique ⦃e = Eq_key⦄ key st.rules
        → Run (subscribe to_proto st id).0 (take_in [] (subscribe to_proto st id).1.update)
    updated :
        {st : Server} {m : View} (rules : List R)
        → Run st m
        → HasRoom st
        → Unique ⦃e = Eq_key⦄ key rules
        → Run (update_rules to_proto st rules) m
    upserted :
        {st : Server} {m : View} (r : R)
        → Run st m
        → HasRoom st
        → Run (upsert_rule to_proto ⦃e = Eq_key⦄ key st r) m
    removed_by :
        {st : Server} {m : View} (ref : RuleRef)
        → Run st m
        → HasRoom st
        → Run (push to_proto st (removed ref st.rules) (delta [] (ref ∷ []))) m
    joined_by :
        {st : Server} {m : View} (other : ℕ)
        → Run st m
        → (other == id) ≡ false
        → Run (subscribe to_proto st other).0 m
    left_by :
        {st : Server} {m : View} (other : ℕ)
        → Run st m
        → (other == id) ≡ false
        → Run (unsubscribe st other) m
    read :
        {st : Server} {m : View} (resp : Response P) (ch : List (Response P))
        → Run st m
        → lookup id st.subscribers ≡ some (resp ∷ ch)
        → Run (record st { subscribers = insert id ch st.subscribers }) (take_in m resp.update)

  -- What holds all along: the client would agree with the server once it had read its channel.
  pub record Synced (st : Server) (m : View) : Type 0 where
    pub channel : List (Response P)
    pub there : lookup id st.subscribers ≡ some channel
    pub unique : Unique ⦃e = Eq_key⦄ key st.rules
    pub agrees : Agrees (take_all m channel) st.rules

  take_all-append :
      (m : View) (ch : List (Response P)) (resp : Response P)
      → take_all m (ch ++ resp ∷ []) ≡ take_in (take_all m ch) resp.update
  take_all-append m [] resp = refl
  take_all-append m (r ∷ ch) resp = take_all-append (take_in m r.update) ch resp

  snapshot-Agrees :
      (m : View) (rules : List R)
      → Unique ⦃e = Eq_key⦄ key rules
      → Agrees (take_in m (snapshot (map to_proto rules))) rules
  unfolding apply lookup
  snapshot-Agrees m rules u k =
      lookup-store ⦃e = Eq_key⦄ key to_proto from_proto kind.from_proto-to_proto k rules [] u
      ∙ same_option (find ⦃e = Eq_key⦄ key k rules)

  upsert-Agrees :
      (m : View) (rules : List R) (r : R)
      → Agrees m rules
      → Agrees
          (take_in m (delta (to_proto r ∷ []) []))
          (replace_or_append (λ x. Eq_key.test (key x) (key r)) r rules)
  unfolding apply store drop_refs
  upsert-Agrees m rules r a k =
      ap (λ (x : R). lookup ⦃e = Eq_key⦄ k (insert ⦃e = Eq_key⦄ (key x) x m))
        (kind.from_proto-to_proto r)
      ∙ lookup-insert ⦃e = Eq_key⦄ (key r) k r m
      ∙ ap (λ o. if Eq_key.test (key r) k then some r else o) (a k)
      ∙ sym (find-replace_or_append ⦃e = Eq_key⦄ key k r rules)

  removal-Agrees :
      (m : View) (rules : List R) (ref : RuleRef)
      → Unique ⦃e = Eq_key⦄ key rules
      → Agrees m rules
      → Agrees (take_in m (delta [] (ref ∷ []))) (removed ref rules)
  unfolding apply store drop_refs
  removal-Agrees m rules ref u a k =
      kind.lookup-drop ref k m
      ∙ ap (λ o. if names ref k then none else o) (a k)
      ∙ sym (kind.find-removed ref k rules u)

  push-Synced :
      (st : Server) (m : View) (rules : List R) (u : Update P)
      → Synced st m
      → HasRoom st
      → Unique ⦃e = Eq_key⦄ key rules
      → ((l : View) → Agrees l st.rules → Agrees (take_in l u) rules)
      → Synced (push to_proto st rules u) m
  unfolding push
  push-Synced st m rules u s room unique step =
      let resp : Response P = record { update = u; version = next_version st.version } in
      let sent = offer-room resp s.channel (room s.channel s.there) in
      record {
        channel = offer resp s.channel;
        there = lookup-broadcast resp id st.subscribers s.channel s.there;
        unique = unique;
        agrees = λ k.
            ap (λ l. lookup ⦃e = Eq_key⦄ k (take_all m l)) sent
            ∙ ap (λ l. lookup ⦃e = Eq_key⦄ k l) (take_all-append m s.channel resp)
            ∙ step (take_all m s.channel) s.agrees k;
      }

  others_keep :
      (st : Server) (m : View) (subs : Map ℕ (List (Response P)))
      → Synced st m
      → ((ch : List (Response P)) → lookup id st.subscribers ≡ some ch → lookup id subs ≡ some ch)
      → Synced (record st { subscribers = subs }) m
  others_keep st m subs s stays = record {
    channel = s.channel;
    there = stays s.channel s.there;
    unique = s.unique;
    agrees = s.agrees;
  }

  pub waiting :
      {st : Server} {m : View} (s : Synced st m) (ch : List (Response P))
      → lookup id st.subscribers ≡ some ch
      → Agrees (take_all m ch) st.rules
  waiting {st} {m} s ch there =
      subst (λ l. Agrees (take_all m l) st.rules) (some_inj (sym s.there ∙ there)) s.agrees

  pub Run-Synced : {st : Server} {m : View} → Run st m → Synced st m
  unfolding subscribe unsubscribe update_rules upsert_rule build_snapshot
  Run-Synced (joined st unique) = record {
    channel = [];
    there = lookup-insert id id [] st.subscribers ∙ (rw (test_refl id) refl);
    unique = unique;
    agrees = snapshot-Agrees [] st.rules unique;
  }
  Run-Synced (updated {st} {m} rules run room unique) =
      push-Synced st m rules _ (Run-Synced run) room unique (λ l _. snapshot-Agrees l rules unique)
  Run-Synced (upserted {st} {m} r run room) =
      let s = Run-Synced run in
      push-Synced st m _ _ s room (Unique-replace_or_append ⦃e = Eq_key⦄ key r st.rules s.unique)
        (λ l a. upsert-Agrees l st.rules r a)
  Run-Synced (removed_by {st} {m} ref run room) =
      let s = Run-Synced run in
      push-Synced st m _ _ s room (kind.Unique-removed ref st.rules s.unique)
        (λ l a. removal-Agrees l st.rules ref s.unique a)
  Run-Synced (joined_by {st} {m} other run differs) =
      others_keep st m _ (Run-Synced run)
        (λ ch there. lookup-insert other id [] st.subscribers ∙ (rw differs there))
  Run-Synced (left_by {st} {m} other run differs) =
      others_keep st m _ (Run-Synced run)
        (λ ch there. lookup-delete other id st.subscribers ∙ (rw differs there))
  Run-Synced (read {st} {m} resp ch run there) =
      let s = Run-Synced run in
      record {
        channel = ch;
        there = lookup-insert id id ch st.subscribers ∙ (rw (test_refl id) refl);
        unique = s.unique;
        agrees = waiting s (resp ∷ ch) there;
      }

  -- Along every run of a server and a subscribed client, in which no response meets a full channel
  -- of the client, and no list of rules has a key twice, the client has under every key the rule of
  -- the server once its channel is empty.
  pub Run-Agrees :
      {st : Server} {m : View} → Run st m → lookup id st.subscribers ≡ some [] → Agrees m st.rules
  Run-Agrees run empty = waiting (Run-Synced run) [] empty
