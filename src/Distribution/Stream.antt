-- ===== src/Distribution/Stream.antt =====
-- One of the three rule streams of ruleserver/server.go: its rules, its version, and the channels of
-- its subscribers. The three streams have the same code up to the types, the keys and the removal.
use kontxt.Base.{
  ℕ, ◌+◌, ◌%◌, ◌^◌, String, Bool, not, Option, none, some, List, [], ◌∷◌, ◌++◌, map, if◌then◌else◌,
  ltb, Eq, ◌==◌, Eq_nat, Eq_string, length, keep,
}
use kontxt.Base.Maps.{Map, insert, delete}

-- ruleKey of the ext_authz client; the server compares the two fields.
pub record RuleKey : Type 0 where
  pub namespace : String
  pub name : String

-- ruleKey of the token service's client
pub record IssuanceKey : Type 0 where
  pub policy_namespace : String
  pub policy_name : String
  pub rule_name : String

-- RuleRef
pub record RuleRef : Type 0 where
  pub namespace : String
  pub name : String

-- A response of a stream: a full snapshot, or a delta.
pub data Update (P : Type 0) : Type 0 where
  snapshot : List P → Update P
  delta : List P → List RuleRef → Update P

pub record Response (P : Type 0) : Type 0 where
  pub update : Update P
  pub version : ℕ

-- The capacity of a subscriber's channel.
abbrev pub capacity : ℕ
capacity = 64

-- The fields of RuleServer for one stream. Subscribers are named by their number; the prefix of the
-- source's ids is one for each stream. Versions are numbers, which the source prints in decimal.
pub record Stream (R P : Type 0) : Type 0 where
  pub rules : List R
  pub version : ℕ
  pub subscribers : Map ℕ (List (Response P))

abbrev pub empty_stream : {R P : Type 0} → Stream R P
empty_stream = record { rules = []; version = 0; subscribers = [] }

-- `v.Add(1)` of an atomic.Uint64
unfoldable pub next_version : ℕ → ℕ
next_version v = (v + 1) % 2 ^ 64

module _ {P : Type 0} where
  -- `select { case ch <- resp: default: }`: a full channel drops the response.
  unfoldable pub offer : Response P → List (Response P) → List (Response P)
  offer resp ch = if ltb (length ch) capacity then ch ++ resp ∷ [] else ch

  -- The loop over the subscribers.
  unfoldable pub broadcast : Response P → Map ℕ (List (Response P)) → Map ℕ (List (Response P))
  broadcast resp [] = []
  broadcast resp ((id, ch) ∷ rest) = (id, offer resp ch) ∷ broadcast resp rest

-- The first element that passes the test is left out.
unfoldable pub remove_first {ℓ} : {A : Type ℓ} → (A → Bool) → List A → List A
remove_first p [] = []
remove_first p (x ∷ xs) = let rest = remove_first p xs in if p x then xs else x ∷ rest

-- The elements that pass the test are left out.
unfoldable pub remove_all {ℓ} : {A : Type ℓ} → (A → Bool) → List A → List A
remove_all p xs = keep (λ x. not (p x)) xs

-- The first element with the test is replaced, or the new one is appended.
unfoldable pub replace_or_append {ℓ} : {A : Type ℓ} → (A → Bool) → A → List A → List A
replace_or_append p a [] = a ∷ []
replace_or_append p a (x ∷ xs) =
    let rest = replace_or_append p a xs in if p x then a ∷ xs else x ∷ rest

module _ {R P : Type 0} (to_proto : R → P) where
  -- New rules with the next version, and their response sent to every subscriber.
  unfoldable pub push : Stream R P → List R → Update P → Stream R P
  push st rules update =
      let version = next_version st.version in
      record {
        rules = rules;
        version = version;
        subscribers = broadcast (record { update = update; version = version }) st.subscribers;
      }

  -- UpdateGenerationRules, UpdateVerificationRules, UpdateIssuanceRules
  unfoldable pub update_rules : Stream R P → List R → Stream R P
  update_rules st rules = push st rules (snapshot (map to_proto rules))

  module _ {K : Type 0} ⦃e : Eq K⦄ (key : R → K) where
    -- UpsertGenerationRule, UpsertVerificationRule, UpsertIssuanceRule
    unfoldable pub upsert_rule : Stream R P → R → Stream R P
    upsert_rule st rule =
        push st (replace_or_append (λ r. key r == key rule) rule st.rules)
          (delta (to_proto rule ∷ []) [])

    -- RemoveGenerationRule, RemoveVerificationRule: the first rule with the key
    unfoldable pub remove_rule : (RuleRef → K) → Stream R P → RuleRef → Stream R P
    remove_rule key_of st ref =
        push st (remove_first (λ r. key r == key_of ref) st.rules) (delta [] (ref ∷ []))

    -- RemoveIssuanceRule: every rule that the test on keys relates to the reference
    unfoldable pub remove_rules : (RuleRef → K → Bool) → Stream R P → RuleRef → Stream R P
    remove_rules matches st ref =
        push st (remove_all (λ r. matches ref (key r)) st.rules) (delta [] (ref ∷ []))

  -- buildGenSnapshot, buildVerSnapshot, buildIssSnapshot
  unfoldable pub build_snapshot : Stream R P → Response P
  build_snapshot st = record { update = snapshot (map to_proto st.rules); version = st.version }

  -- The part of a Stream…Rules call under the lock: the channel is registered, and the snapshot built.
  unfoldable pub subscribe : Stream R P → ℕ → Stream R P × Response P
  subscribe st id = (record st { subscribers = insert id [] st.subscribers }, build_snapshot st)

-- The deferred end of a Stream…Rules call.
unfoldable pub unsubscribe : {R P : Type 0} → Stream R P → ℕ → Stream R P
unsubscribe st id = record st { subscribers = delete id st.subscribers }

-- `case resp := <-ch` in the loop of a Stream…Rules call: the oldest response.
unfoldable pub receive : {P : Type 0} → List (Response P) → Option (Response P × List (Response P))
receive [] = none
receive (resp ∷ rest) = some (resp, rest)
