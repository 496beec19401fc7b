-- ===== src/Extauth/Identity/Laws.antt =====
-- The cache of pods: what an update and a deletion change.
use kontxt.Base.{String, ◌≡◌, ◌≢◌, arith, eq_iff, if◌then◌else◌, ◌==◌, Eq_nat, Eq_string, ok, err}
use kontxt.Base.Maps.{lookup-insert, lookup-delete}
use kontxt.Extauth.Identity.{
  Pod, pod_not_found, IdentityResolver, identity_of, without_port, resolve_from_pod_ip, update_pod,
  delete_pod,
}

-- After an update of a pod with an address, an address that is not empty resolves to the service
-- account of the pod where it is that address once a port is taken off, and else as before.
pub resolve_from_pod_ip-update_pod :
    (r : IdentityResolver) (pod : Pod) (addr : String)
    → pod.pod_ip ≢ ""
    → addr ≢ ""
    → resolve_from_pod_ip (update_pod r pod) addr ≡ (
        if pod.pod_ip == without_port addr
        then ok (identity_of pod.namespace pod.service_account_name)
        else resolve_from_pod_ip r addr)
unfolding resolve_from_pod_ip update_pod
resolve_from_pod_ip-update_pod r pod addr has_ip there = ground (
  arith,
  eq_iff pod.pod_ip "",
  eq_iff addr "",
  lookup-insert pod.pod_ip (without_port addr)
      (record {
        name = pod.name;
        namespace = pod.namespace;
        service_account = pod.service_account_name;
      })
      r,
)

-- After a deletion of a pod with an address, an address that is not empty is not found where it is
-- that address once a port is taken off, and else resolves as before.
pub resolve_from_pod_ip-delete_pod :
    (r : IdentityResolver) (pod : Pod) (addr : String)
    → pod.pod_ip ≢ ""
    → addr ≢ ""
    → resolve_from_pod_ip (delete_pod r pod) addr ≡ (
        if pod.pod_ip == without_port addr
        then err (pod_not_found (without_port addr))
        else resolve_from_pod_ip r addr)
unfolding resolve_from_pod_ip delete_pod
resolve_from_pod_ip-delete_pod r pod addr has_ip there =
    ground
      (arith, eq_iff pod.pod_ip "", eq_iff addr "", lookup-delete pod.pod_ip (without_port addr) r)
