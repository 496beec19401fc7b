-- ===== src/Distribution/Sync/Ordered.antt =====
-- The rules that a client hands on are the server's, in some order.
use kontxt.Base.{ℕ, ◌≡◌, some, List, [], ◌∷◌, Eq_nat, Eq_string}
use mathlib.Core.List.{Permᴰ}
use kontxt.Base.Maps.{lookup}
use kontxt.Distribution.Stream.{RuleRef, Update, snapshot, delta}
use kontxt.Distribution.Client.{values, drop_refs, apply}
use kontxt.Distribution.Perm.{IsKeyed, store-IsKeyed, values-perm}
use kontxt.Distribution.Sync.{
  RuleKind, Server, View, Run, joined, updated, upserted, removed_by, joined_by, left_by, read,
  take_in, Run-Agrees, Run-Synced,
}

module _ (kind : RuleKind) (id : ℕ) where
  open kind use {R, P, K, Eq_key, to_proto, from_proto, key, drop}

  drop_refs-IsKeyed :
      (refs : List RuleRef) (m : View kind id)
      → IsKeyed ⦃e = Eq_key⦄ key m
      → IsKeyed ⦃e = Eq_key⦄ key (drop_refs drop refs m)
  unfolding drop_refs
  drop_refs-IsKeyed [] m h = h
  drop_refs-IsKeyed (ref ∷ refs) m h = drop_refs-IsKeyed refs _ (kind.drop-IsKeyed ref m h)

  take_in-IsKeyed :
      (u : Update P) (m : View kind id)
      → IsKeyed ⦃e = Eq_key⦄ key m
      → IsKeyed ⦃e = Eq_key⦄ key (take_in kind id m u)
  unfolding apply
  take_in-IsKeyed (snapshot ps) m h = store-IsKeyed ⦃e = Eq_key⦄ key from_proto ps [] tt
  take_in-IsKeyed (delta ps refs) m h =
      drop_refs-IsKeyed refs _ (store-IsKeyed ⦃e = Eq_key⦄ key from_proto ps m h)

  Run-IsKeyed :
      {st : Server kind id} {m : View kind id} → Run kind id st m → IsKeyed ⦃e = Eq_key⦄ key m
  Run-IsKeyed (joined st unique) = take_in-IsKeyed _ [] tt
  Run-IsKeyed (updated rules run room unique) = Run-IsKeyed run
  Run-IsKeyed (upserted r run room) = Run-IsKeyed run
  Run-IsKeyed (removed_by ref run room) = Run-IsKeyed run
  Run-IsKeyed (joined_by other run differs) = Run-IsKeyed run
  Run-IsKeyed (left_by other run differs) = Run-IsKeyed run
  Run-IsKeyed (read {m = m} resp ch run there) = take_in-IsKeyed resp.update m (Run-IsKeyed run)

  -- Once its channel is empty, the rules in the client's map are those of the server, in some order.
  pub Run-perm :
      {st : Server kind id} {m : View kind id}
      → Run kind id st m
      → lookup id st.subscribers ≡ some []
      → Permᴰ (values m) st.rules
  Run-perm {st} {m} run empty =
      values-perm ⦃e = Eq_key⦄ key m st.rules (Run-IsKeyed run) (Run-Synced kind id run).unique
        (Run-Agrees kind id run empty)
