-- ===== src/Deployment/Verifying.antt =====
-- The verifying ext_authz service with the rules of the controller.
use kontxt.Base.{ℕ, ◌≡◌, sym, some, [], Eq_nat, Eq_string}
use mathlib.Core.List.Permᴰ
use kontxt.Base.Maps.{lookup}
use kontxt.Cel.{Cel}
use kontxt.Distribution.Client.{values}
use kontxt.Distribution.Sync.{Server, View, Run, Run-Synced}
use kontxt.Distribution.Sync.Ordered.{Run-perm}
use kontxt.Distribution.Kinds.{verification_kind}
use kontxt.Extauth.Server
use kontxt.Extauth.Server.{set_verification_rules, check}
use kontxt.Extauth.Server.Order.{set_verification_rules-perm}

module _ (cel : Cel) (id : ℕ) {st : Server verification_kind id} {m : View verification_kind id}
    (run : Run verification_kind id st m) (empty : lookup id st.subscribers ≡ some []) where
  pub set_verification_rules-values :
      {V : Type 0} (s : Server.Server cel V)
      → set_verification_rules cel s (values m) ≡ set_verification_rules cel s st.rules
  set_verification_rules-values s = sym (
      set_verification_rules-perm cel s (Permᴰ.symm (Run-perm verification_kind id run empty))
        (Run-Synced verification_kind id run).unique)
