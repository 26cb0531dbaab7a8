-- ===== src/Operator/Handle/Registry.antt =====
-- What the Kubernetes API documents of the calls of Handle in operator/pkg/stub/handler.go: the objects
-- stand in places, by kind, namespace and name.
use bank_vaults.Prelude.{String, Option, none, some, ok, err, Dict, ◌≡◌, ◌≢◌}
use bank_vaults.Operator.Objects.{
  ObjectMeta, WorkloadSpec, Object, secret, etcd_cluster, stateful_set, service, deployment,
  config_map, meta_of,
}
use bank_vaults.Operator.Spec.{VaultCr}
use bank_vaults.Operator.Handle.{Cluster, already_exists, absent}

pub data Kind : Type 0 where
  secrets etcd_clusters stateful_sets services deployments config_maps : Kind

abbrev pub kind_of : Object → Kind
kind_of (secret m d) = secrets
kind_of (etcd_cluster m s) = etcd_clusters
kind_of (stateful_set m s) = stateful_sets
kind_of (service m s) = services
kind_of (deployment m s) = deployments
kind_of (config_map m d) = config_maps

pub record Place : Type 0 where
  pub kind : Kind
  pub namespace : String
  pub name : String

abbrev pub place : Object → Place
place obj = record {
  kind = kind_of obj;
  namespace = (meta_of obj).namespace;
  name = (meta_of obj).name;
}

-- `stands w k` is the object that was last written to the place `k`, before the server's defaults. A
-- call that fails may or may not have taken effect, but one that asks for what is already so changes
-- nothing. What Get answers of a stateful set has its metadata, and a spec that may be defaulted.
pub record Registry {W Any : Type 0} (api : Cluster W Any) (stands : W → Place → Option Object)
    : Type 0 where
  pub creates :
      (obj : Object) (w : W)
      → (api.create obj w).0 ≡ ok tt
      → stands (api.create obj w).1 (place obj) ≡ some obj
  pub exists :
      (obj : Object) (m : String) (w : W)
      → (api.create obj w).0 ≡ err (already_exists m)
      → (x : Object) × (stands (api.create obj w).1 (place obj) ≡ some x)
  pub create_keeps :
      (obj x : Object) (k : Place) (w : W)
      → stands w k ≡ some x
      → stands (api.create obj w).1 k ≡ some x
  pub create_again :
      (obj x : Object) (w : W)
      → stands w (place obj) ≡ some x
      → stands (api.create obj w).1 ≡ stands w
  pub updates :
      (obj : Object) (w : W)
      → (api.update obj w).0 ≡ ok tt
      → stands (api.update obj w).1 (place obj) ≡ some obj
  pub update_keeps :
      (obj : Object) (k : Place) (w : W)
      → k ≢ place obj
      → stands (api.update obj w).1 k ≡ stands w k
  pub update_again :
      (obj : Object) (w : W)
      → stands w (place obj) ≡ some obj
      → stands (api.update obj w).1 ≡ stands w
  pub update_vault_keeps : (u : VaultCr Any) (w : W) → stands (api.update_vault u w).1 ≡ stands w
  pub gets_set :
      (ns n : String) (meta : ObjectMeta) (spec : WorkloadSpec) (w : W)
      → (api.get_stateful_set ns n w).0 ≡ ok (meta, spec)
      → (meta.namespace ≡ ns)
        × (meta.name ≡ n)
        × (x : WorkloadSpec) × (stands w (record { kind = stateful_sets; namespace = ns; name = n })
            ≡ some (stateful_set meta x))
  pub set_absent :
      (ns n m : String) (w : W)
      → (api.get_stateful_set ns n w).0 ≡ err (absent m)
      → stands w (record { kind = stateful_sets; namespace = ns; name = n }) ≡ none
  pub get_set_keeps : (ns n : String) (w : W) → stands (api.get_stateful_set ns n w).1 ≡ stands w
  pub gets_map :
      (ns n : String) (meta : ObjectMeta) (entries : Option (Dict String)) (w : W)
      → (api.get_config_map ns n w).0 ≡ ok (meta, entries)
      → (meta.namespace ≡ ns)
        × (meta.name ≡ n)
        × (stands w (record { kind = config_maps; namespace = ns; name = n })
            ≡ some (config_map meta entries))
  pub get_map_keeps : (ns n : String) (w : W) → stands (api.get_config_map ns n w).1 ≡ stands w
  pub list_keeps :
      (ns : String) (labels : Dict String) (w : W) → stands (api.list_pods ns labels w).1 ≡ stands w
  pub generate_keeps : (h d : String) (w : W) → stands (api.generate_tls h d w).1 ≡ stands w
