-- ===== src/Distribution/Sync/Lost.antt =====
-- A change that meets a full channel.
use kontxt.Base.{
  ℕ, ◌≡◌, refl, sym, ap, ◌∙◌, ◌≢◌, false, some, List, map, ltb, Eq_nat, Eq_string, length,
}
use kontxt.Base.Maps.{lookup}
use kontxt.Distribution.Stream.{Response, Update, snapshot, capacity, offer, push, update_rules}
use kontxt.Distribution.Laws.{find}
use kontxt.Distribution.Sync.{
  RuleKind, Server, View, Run, Agrees, take_all, lookup-broadcast, Run-Synced, waiting,
}

offer-full :
    {P : Type 0} (resp : Response P) (ch : List (Response P))
    → ltb (length ch) capacity ≡ false
    → offer resp ch ≡ ch
unfolding offer
offer-full resp ch full = rw full refl

module _ (kind : RuleKind) (id : ℕ) where
  open kind use {R, P, K, Eq_key, to_proto, key}

  push_dropped :
      (st : Server kind id) (rules : List R) (u : Update P) (ch : List (Response P))
      → lookup id st.subscribers ≡ some ch
      → ltb (length ch) capacity ≡ false
      → lookup id (push to_proto st rules u).subscribers ≡ some ch
  unfolding push
  push_dropped st rules u ch there full =
      lookup-broadcast _ id st.subscribers ch there ∙ ap some (offer-full _ ch full)

  -- New rules that meet a full channel are lost: the channel stays as it is, and a client that has
  -- read it differs from the server, when some key has another rule than before.
  pub update_rules-not-Agrees :
      {st : Server kind id} {m : View kind id} (rules : List R) (k : K) (ch : List (Response P))
      → Run kind id st m
      → lookup id st.subscribers ≡ some ch
      → ltb (length ch) capacity ≡ false
      → find ⦃e = Eq_key⦄ key k rules ≢ find ⦃e = Eq_key⦄ key k st.rules
      → (lookup id (update_rules to_proto st rules).subscribers ≡ some ch)
        × ¬ Agrees kind id (take_all kind id m ch) (update_rules to_proto st rules).rules
  unfolding update_rules push
  update_rules-not-Agrees {st} {m} rules k ch run there full differs = (
    push_dropped st rules (snapshot (map to_proto rules)) ch there full,
    (λ agrees. differs (sym (agrees k) ∙ waiting kind id (Run-Synced kind id run) ch there k)),
  )
