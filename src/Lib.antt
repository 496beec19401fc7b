-- ===== src/Lib.antt =====
-- Verification of kontxt: Transaction Tokens (TxTokens) for Kubernetes workloads.
--
-- The program. A token service (pkg/tts) exchanges subject tokens for TxTokens, and TxTokens for
-- narrower ones. Two Envoy ext_authz services (pkg/extauth) stand at the entry points, where they ask
-- the token service for a TxToken, and before the services, where they verify it against rules. A
-- controller (internal/controller) turns custom resources (api/v1alpha1) into these rules, and a rule
-- server streams them to the clients beside the token service and the ext_authz services.
--
-- The files, and the code that each of them is about:
--   Base            shared names: conditionals, lists, results, maps, integers, and Go's strings
--   Any, Cel, Jwt   Go's `any` with encoding/json, cel-go and golang-jwt, as interfaces
--   Token           pkg/token: Claims, validateRequired, New
--   Authn           pkg/authn: the module itself is router.go, Config is types.go, Claims is cel.go, and
--                   Oidc with Oidc.Keys is oidc.go
--   Keys            pkg/keys/manager.go: Manager, Rotate, PublicKeys, JWKSHandler
--   Jwks            the key sets that oidc.go and sdk/verify/verifier.go fetch
--   Tts             pkg/tts: Scope is isScopeSubset of handler.go, Rules is cel.go, Verifier is
--                   local_verifier.go, Request and Handler are handler.go, Config is config.go, Server is
--                   server.go
--   Crd, Rules      api/v1alpha1/types.go and the rules of internal/controller/rules.go
--   Sdk             Client is sdk/tts/client.go, Verify is sdk/verify/verifier.go, Middleware is
--                   sdk/middleware
--   Extauth         pkg/extauth: Celverify is celverify/cel.go, Claims, Server and Matching are
--                   server.go, Generate is generate.go, Identity is identity.go
--   Controller      internal/controller: Policy is the checks of rules.go, Generation and Verification
--                   are the reconcilers of controller.go, Issuance is policy_reconciler.go
--   Distribution    internal/controller/ruleserver/server.go, pkg/extauth/ruleclient and
--                   pkg/tts/ruleclient: Stream is one rule stream of the server, Server its three
--                   streams, Server.Calls any calls of its methods, Serve the stream calls until they
--                   return, Proto the conversions, Client what a response changes, Setter the
--                   compilation into the handler, Loop the loops of the token service's client, Streams
--                   the client of the ext_authz services with its two streams, Sync a server and a
--                   client together
--   Command         cmd/tts/main.go: the rule client and the readiness check; Extauth is
--                   cmd/extauth/main.go, Controller is cmd/controller/main.go
--   Deployment      the parts together, from the resources of the controller to what a service decides:
--                   History is the controller, the rule server and a client, EndToEnd the three services
--                   with the rules of such a history
--   Tests           runs at concrete inputs
-- A child module Laws, Replies, Chain, Rotation, Verified, Issued, Status, Order, Ordered, Sync, Drained,
-- Lost, Perm, Step, Sides, Sound, Subscribers, Versions, Given, Waits,
-- Narrowing, Policies, Principals, Unready, Interleaving or Kinds holds
-- proofs about its parent, as do the children of a module Laws.
--
-- The model. Names are those of the source in snake case. Records are structs, Outcome is a result or
-- an error, and an error or a message is a constructor with what its text shows. Handlers are functions
-- from their state, the request and what they read from outside, such as the clock, to the response.
-- Loops are structural recursion, so that no fuel is needed; a loop that waits for the network goes
-- over the list of what it receives. A method that fills a cache takes its object and returns it
-- changed, also with an error, in the actions of Base.State. An atomic pointer is an optional value,
-- and a lock makes an operation one step. A map is an association list in the order of a range over it.
-- The versions and subscriber numbers of the rule server wrap at 2^64, and a channel holds 64 responses,
-- as in the source. Times and durations are integers that do not wrap.
--
-- Parameters. encoding/json, cel-go, golang-jwt, RSA, SHA-256, base64, time.ParseDuration,
-- url.ParseQuery, the HTTP transport and the API server are arguments. A claim that needs more of one of
-- them says so: Roundtrips for JSON, Decodes for the encoding of keys, IsParser for the JWT parser, and
-- IsComplete for the tokens that it accepts.
--
-- Not modelled. Flags, signals and the HTTP and gRPC servers of the commands, generated code, and
-- examples. A server of Tts.Server stands for the service at one time, and its authenticators start
-- with empty caches there. A goroutine of Distribution.Streams that goes on after its connection ended
-- does so before the next one. Letters outside ASCII keep their case in to_lower, and only those that
-- fold to ASCII are folded in equal_fold.
-- A response of the rule server is a snapshot or a delta, never an empty one, and one list of policies
-- stands for those that a reconcile reads anew for each transaction type. The client of the SDK does not
-- write the default token type back into the request of its caller, and an expression of a claim mapping
-- that gives no text is an error where the source panics.
pub mod Base
pub mod Any
pub mod Cel
pub mod Jwt
pub mod Token
pub mod Authn
pub mod Keys
pub mod Jwks
pub mod Tts
pub mod Crd
pub mod Rules
pub mod Sdk
pub mod Extauth
pub mod Controller
pub mod Distribution
pub mod Command
pub mod Deployment
pub mod Tests
