-- ===== src/Deployment/Generating.antt =====
-- The generating ext_authz service with the rules of the controller.
use kontxt.Base.{
  ℕ, String, ◌≡◌, sym, ap, ◌∙◌, some, List, [], map, Eq_nat, Eq_string, Outcome, subst,
}
use mathlib.Core.List.Permᴰ
use kontxt.Base.Perm.{AllPairs}
use kontxt.Base.Maps.{lookup}
use kontxt.Base.Strings.{up_to}
use kontxt.Any.{Json}
use kontxt.Crd.{TransactionType}
use kontxt.Controller.Generation.{Cluster, generation_rule}
use kontxt.Distribution.Client.{values}
use kontxt.Distribution.Sync.{Server, View, Run}
use kontxt.Distribution.Sync.Ordered.{Run-perm}
use kontxt.Distribution.Kinds.{generation_kind}
use kontxt.Extauth.Claims.{HttpAttributes}
use kontxt.Extauth.Generate.{GenerationServer, CheckRequest, set_generation_rules, check}
use kontxt.Extauth.Generate.Order.{AreExclusive, check-perm}

module _ (id : ℕ) {st : Server generation_kind id} {m : View generation_kind id}
    (run : Run generation_kind id st m) (empty : lookup id st.subscribers ≡ some []) where
  -- Once its client has read all that waits for it, the generating service answers a request as one
  -- that was given the rules of the transaction types themselves, where the server has published
  -- these, whose names are different, no response met a full channel, and the endpoint of at most
  -- one of them matches the request.
  pub check-set_generation_rules :
      (s : GenerationServer) (c : Cluster) (types : List TransactionType) (json : Json)
      (parse_query : String → Outcome String (String → String)) (req : CheckRequest)
      (http : HttpAttributes)
      → st.rules ≡ map (generation_rule c) types
      → req.http ≡ some http
      → AllPairs (AreExclusive (up_to b'?' http.path) http.method) (map (generation_rule c) types)
      → check json parse_query (set_generation_rules s (values m)) req
        ≡ check json parse_query (set_generation_rules s (map (generation_rule c) types)) req
  check-set_generation_rules s c types json parse_query req http published given exclusive =
      sym (
        check-perm json parse_query s req http given
          (Permᴰ.symm (Run-perm generation_kind id run empty))
          (subst (λ l. AllPairs (AreExclusive (up_to b'?' http.path) http.method) l) (sym published)
            exclusive))
      ∙ ap (λ l. check json parse_query (set_generation_rules s l) req) published
