-- ===== src/Distribution/Sync/Drained.antt =====
-- A client that goes on reading gets to the rules of the server.
use kontxt.Base.{ℕ, suc, ◌≡◌, refl, ◌∙◌, some, List, [], ◌∷◌, Eq_nat, Eq_string, test_refl, length}
use kontxt.Base.Maps.{lookup, insert, lookup-insert}
use kontxt.Distribution.Stream.{Response}
use kontxt.Distribution.Sync.{RuleKind, Server, View, Run, Agrees, take_in, read, Run-Agrees}

module _ (kind : RuleKind) (id : ℕ) where
  open kind use {R, P}

  -- So many reads of the client, and nothing else, from one state of both to another.
  pub data Reads : Server kind id → View kind id → ℕ → Server kind id → View kind id → Type 0 where
    done : {st : Server kind id} {m : View kind id} → Reads st m 0 st m
    one :
        {st t : Server kind id} {m l : View kind id} {n : ℕ} (resp : Response P)
        (ch : List (Response P))
        → lookup id st.subscribers ≡ some (resp ∷ ch)
        → Reads
            (record st { subscribers = insert id ch st.subscribers })
            (take_in kind id m resp.update)
            n
            t
            l
        → Reads st m (suc n) t l

  -- From every state of such a run, as many reads as responses wait in the channel of the client
  -- bring it to the rules that the server has, which stay.
  pub Reads-Agrees :
      (ch : List (Response P)) {st : Server kind id} {m : View kind id}
      → Run kind id st m
      → lookup id st.subscribers ≡ some ch
      → (t : Server kind id) × (l : View kind id) × Reads st m (length ch) t l
        × (t.rules ≡ st.rules)
        × Agrees kind id l st.rules
  Reads-Agrees [] {st} {m} run there = (st, m, done, refl, Run-Agrees kind id run there)
  Reads-Agrees (resp ∷ ch) {st} {m} run there =
      let (t, l, reads, same, agrees) =
        Reads-Agrees ch (read resp ch run there)
          (lookup-insert id id ch st.subscribers ∙ rw (test_refl id) refl) in
      (t, l, one resp ch there reads, same, agrees)
