-- ===== src/Extauth/Identity.antt =====
-- pkg/extauth/identity.go: who calls, from a SPIFFE principal or from the address of a pod.
pub mod Laws
pub mod Principals
use kontxt.Base.{
  String, not, ◌&&◌, ◌||◌, none, some, List, [], ◌∷◌, if◌then◌else◌, ◌==◌, Eq_nat, Eq_string,
  Outcome, ok, err, concat,
}
use kontxt.Base.Strings.{split, cut, before_last, strip_prefix, contains_char}
use kontxt.Base.Maps.{Map, lookup, insert, delete}

-- podInfo
pub record PodInfo : Type 0 where
  pub name : String
  pub namespace : String
  pub service_account : String

-- WorkloadIdentity
pub record WorkloadIdentity : Type 0 where
  pub subject : String
  pub namespace : String
  pub service_account : String

-- corev1.Pod, as far as the resolver reads it
pub record Pod : Type 0 where
  pub name : String
  pub namespace : String
  pub service_account_name : String
  pub pod_ip : String

pub data IdentityError : Type 0 where
  empty_principal empty_pod_ip no_identity : IdentityError
  not_spiffe no_path bad_path pod_not_found : String → IdentityError

-- IdentityResolver: the pods by their address
abbrev pub IdentityResolver : Type 0
IdentityResolver = Map String PodInfo

-- NewIdentityResolver
abbrev pub new_identity_resolver : IdentityResolver
new_identity_resolver = []

-- `system:serviceaccount:%s:%s`
unfoldable pub service_account_subject : String → String → String
service_account_subject ns sa = concat "system:serviceaccount:" (concat ns (concat ":" sa))

-- The identity of a service account.
unfoldable pub identity_of : String → String → WorkloadIdentity
identity_of ns sa = record {
  subject = service_account_subject ns sa;
  namespace = ns;
  service_account = sa;
}

-- The part of `ResolveFromPrincipal` that reads the segments.
unfoldable pub identity_of_parts : String → List String → Outcome IdentityError WorkloadIdentity
identity_of_parts principal (a ∷ ns ∷ b ∷ sa ∷ rest) =
    if a == "ns" && b == "sa" then ok (identity_of ns sa) else err (bad_path principal)
identity_of_parts principal _ = err (bad_path principal)

-- ResolveFromPrincipal
unfoldable pub resolve_from_principal : String → Outcome IdentityError WorkloadIdentity
resolve_from_principal principal =
    if principal == "" then err empty_principal else elim (strip_prefix principal "spiffe://") [
      | none ↦ err (not_spiffe principal)
      | some path ↦ elim (cut b'/' path) [
        | none ↦ err (no_path principal)
        | some (trust_domain, rest) ↦ identity_of_parts principal (split b'/' rest)
      ]
    ]

-- The address without a port: `if idx := strings.LastIndex(podIP, ":"); idx > 0 { … }`
unfoldable pub without_port : String → String
without_port pod_ip = elim (before_last b':' pod_ip) [
  | none ↦ pod_ip
  | some host ↦ if host == "" || contains_char pod_ip b']' then pod_ip else host
]

-- ResolveFromPodIP
unfoldable pub resolve_from_pod_ip :
    IdentityResolver → String → Outcome IdentityError WorkloadIdentity
resolve_from_pod_ip r pod_ip =
    if pod_ip == "" then err empty_pod_ip else elim (lookup (without_port pod_ip) r) [
      | none ↦ err (pod_not_found (without_port pod_ip))
      | some info ↦ ok (identity_of info.namespace info.service_account)
    ]

-- UpdatePod
unfoldable pub update_pod : IdentityResolver → Pod → IdentityResolver
update_pod r pod =
    if pod.pod_ip == ""
    then r
    else insert pod.pod_ip
        (record {
          name = pod.name;
          namespace = pod.namespace;
          service_account = pod.service_account_name;
        })
        r

-- DeletePod
unfoldable pub delete_pod : IdentityResolver → Pod → IdentityResolver
delete_pod r pod = if pod.pod_ip == "" then r else delete pod.pod_ip r

-- Resolve
unfoldable pub resolve : IdentityResolver → String → String → Outcome IdentityError WorkloadIdentity
resolve r principal source_ip =
    if not (principal == "")
    then resolve_from_principal principal
    else if not (source_ip == "")
    then resolve_from_pod_ip r source_ip
    else err no_identity
