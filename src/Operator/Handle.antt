-- ===== src/Operator/Handle.antt =====
-- Handle of operator/pkg/stub/handler.go: one event for a Vault custom resource. The cluster's API is
-- a parameter; `storage_type` is what GetStorageType answers, which panics on an empty stanza.
pub mod Same
pub mod Registry
pub mod Settled
pub mod Calm
pub mod Configured
pub mod Ensured
pub mod Established
pub mod Again
pub mod Owned
pub mod Replicas
pub mod Secrets
pub mod Certificates
use bank_vaults.Prelude.{
  String, Bool, true, false, Option, none, some, List, [], ◌∷◌, map, join, Exec, Result, ok, err,
  panic, pure, fail, panics, lift, wrapped, map_err, ◌>>=◌, ◌>>◌, Dict, lookup, insert, concat,
  ◌==◌, if◌then◌else◌,
}
use bank_vaults.Operator.Objects.{
  ObjectMeta, WorkloadSpec, Object, secret, stateful_set, config_map, meta_of,
}
use bank_vaults.Operator.Spec.{VaultCr, get_storage_type, external_config_json}
use bank_vaults.Operator.Fabricate.{
  Library, Chain, labels_for_vault, etcd_hosts, secret_for_etcd, as_owner, secret_for_vault,
}
use bank_vaults.Operator.Fabricate.Configurer.{
  deployment_for_configurer, service_for_vault, config_map_for_configurer,
}
use bank_vaults.Operator.Fabricate.Etcd.{etcd_for_vault, stateful_set_for_vault}

-- An API error, by what IsAlreadyExists and IsNotFound answer.
pub data ApiError : Type 0 where
  already_exists absent other : String → ApiError

abbrev pub text : ApiError → String
text (already_exists m) = m
text (absent m) = m
text (other m) = m

-- operator-sdk's action and query, and tls.GenerateTLS. A get by namespace and name answers the
-- object that it fills; a list answers the pods' names.
pub record Cluster (W Any : Type 0) : Type 0 where
  pub create : Object → Exec W ApiError (Unit {0})
  pub update : Object → Exec W ApiError (Unit {0})
  pub update_vault : VaultCr Any → Exec W ApiError (Unit {0})
  pub get_stateful_set : String → String → Exec W ApiError (ObjectMeta × WorkloadSpec)
  pub get_config_map : String → String → Exec W ApiError (ObjectMeta × Option (Dict String))
  pub list_pods : String → Dict String → Exec W ApiError (List ObjectMeta)
  pub generate_tls : String → String → Exec W String Chain

abbrev pub failed : String → String → String
failed what e = concat ("failed to " ∷ what ∷ ": " ∷ e ∷ [])

-- err != nil && !apierrors.IsAlreadyExists(err)
pub unless_exists : String → Result ApiError (Unit {0}) → Result String (Unit {0})
unless_exists what (err (already_exists m)) = ok tt
unless_exists what r = wrapped (λ e. failed what (text e)) r

-- reflect.DeepEqual of two lists of names
unfoldable pub same_names : List String → List String → Bool
same_names [] [] = true
same_names [] (m ∷ ms) = false
same_names (n ∷ ns) [] = false
same_names (n ∷ ns) (m ∷ ms) = if n == m then same_names ns ms else false

-- reflect.DeepEqual tells a nil list from an empty one. `podNames` is nil when there are no pods,
-- and so are the CR's `Nodes` when it was decoded without any.
unfoldable pub get_pod_names : List ObjectMeta → List String
get_pod_names pods = map (λ p. p.name) pods

-- m[k] where a missing key reads as the empty text
pub or_empty : Option String → String
or_empty none = ""
or_empty (some s) = s

module _ {W Any : Type 0} (api : Cluster W Any) (lib : Library Any) where
  pub create : String → Object → Exec W String (Unit {0})
  unfolding unless_exists
  create what obj w = let (r, w') = api.create obj w in (unless_exists what r, w')

  pub prepare_etcd : VaultCr Any → String → Exec W String (Unit {0})
  unfolding create
  prepare_etcd v storage_type = do
    cluster ← map_err (failed "fabricate etcd cluster") (lift (etcd_for_vault lib v storage_type))
    chain ←
        map_err (failed "fabricate secret for etcd")
          (api.generate_tls (join "," (etcd_hosts (meta_of cluster))) "8760h")
    create "create secret for etcd" (secret_for_etcd (meta_of cluster) chain (as_owner lib v ∷ []))
    create "create etcd cluster" cluster

  -- What follows query.Get of the stateful set. Get has overwritten the fabricated object, and
  -- the second call of statefulSetForVault makes its spec anew.
  pub replace : VaultCr Any → String → ObjectMeta → Object → Exec W String (Unit {0})
  replace v storage_type meta (stateful_set m spec) =
      map_err (λ e. failed "update StatefulSet" (text e)) (api.update (stateful_set meta spec))
  replace v storage_type meta obj = panics "not a stateful set"

  pub found_set :
      VaultCr Any
      → String
      → Object
      → Result ApiError (ObjectMeta × WorkloadSpec)
      → Exec W String (VaultCr Any)
  unfolding replace
  found_set v storage_type obj (ok (meta, spec)) = do
    again ←
        map_err (failed "fabricate StatefulSet")
          (lift (stateful_set_for_vault lib v storage_type).0)
    replace v storage_type meta again
    pure (stateful_set_for_vault lib v storage_type).1
  found_set v storage_type obj (err (absent m)) = do
    map_err (λ e. failed "create StatefulSet" (text e)) (api.create obj)
    pure v
  found_set v storage_type obj (err e) = fail (failed "get StatefulSet" (text e))
  found_set v storage_type obj (panic s) = panics s

  -- The result is the CR, whose configuration the fabrication may have changed.
  pub ensure_stateful_set : VaultCr Any → String → Exec W String (VaultCr Any)
  unfolding found_set
  ensure_stateful_set v storage_type = do
    obj ←
        map_err (failed "fabricate StatefulSet")
          (lift (stateful_set_for_vault lib v storage_type).0)
    λ w.
        (let (r, w') = api.get_stateful_set v.namespace v.name w in
          found_set (stateful_set_for_vault lib v storage_type).1 storage_type obj r w')

  pub update_status : VaultCr Any → Exec W String (VaultCr Any)
  unfolding get_pod_names labels_for_vault same_names
  update_status v = do
    pods ←
        map_err (λ e. failed "list pods" (text e))
          (api.list_pods v.namespace (labels_for_vault v.name))
    let names = get_pod_names pods in
        if same_names names v.nodes then pure v else (do
          map_err (λ e. failed "update vault status" (text e))
              (api.update_vault (record v { nodes = names }))
          pure (record v { nodes = names }))

  -- cm.Data[DefaultConfigFile] = externalConfig, where the value differs; on a nil map it panics.
  pub synchronize : String → ObjectMeta → Option (Dict String) → Exec W String (Unit {0})
  unfolding or_empty
  synchronize config meta none =
      if config == "" then pure tt else panics "assignment to entry in nil map"
  synchronize config meta (some entries) =
      if or_empty (lookup "vault-config.yml" entries) == config
      then pure tt
      else map_err (λ e. failed "update configurer configmap" (text e))
          (api.update (config_map meta (some (insert "vault-config.yml" config entries))))

  pub configure : VaultCr Any → Exec W String (Unit {0})
  unfolding create synchronize
  configure v = do
    create "create service" (service_for_vault lib v)
    create "create configurer deployment" (deployment_for_configurer lib v)
    create "create configurer configmap" (config_map_for_configurer lib v)
    (meta, entries) ←
        map_err (λ e. failed "get deployment" (text e))
          (api.get_config_map v.namespace (meta_of (config_map_for_configurer lib v)).name)
    synchronize (external_config_json lib.cast v.spec) meta entries

  pub reconcile : VaultCr Any → String → Exec W String (Unit {0})
  unfolding prepare_etcd create ensure_stateful_set update_status configure
  reconcile v storage_type = do
    if storage_type == "etcd" then prepare_etcd v storage_type else pure tt
    chain ←
        map_err (failed "fabricate secret for vault")
          (api.generate_tls (concat (v.name ∷ "." ∷ v.namespace ∷ ",127.0.0.1" ∷ [])) "8760h")
    create "create secret for vault" (secret_for_vault lib v chain (as_owner lib v ∷ []))
    v1 ← ensure_stateful_set v storage_type
    v2 ← update_status v1
    configure v2

  -- `deleted` is the event's flag.
  unfoldable pub handle : Bool → VaultCr Any → Exec W String (Unit {0})
  unfolding reconcile
  handle true v = pure tt
  handle false v = do
    storage_type ← lift (get_storage_type lib.cast v.spec)
    reconcile v storage_type
