-- ===== src/Operator/Handle/Settled.antt =====
-- When a cluster has all that Handle of operator/pkg/stub/handler.go makes of a custom resource.
use bank_vaults.Prelude.{String, Option, none, some, [], ◌∷◌, ok, Dict, lookup, concat, ◌≡◌}
use bank_vaults.Operator.Objects.{
  ObjectMeta, WorkloadSpec, Object, stateful_set, config_map, meta_of,
}
use bank_vaults.Operator.Spec.{VaultCr, external_config_json}
use bank_vaults.Operator.Fabricate.{Library}
use bank_vaults.Operator.Fabricate.Etcd.{etcd_for_vault, stateful_set_for_vault}
use bank_vaults.Operator.Fabricate.Etcd.Belongs.{set_meta}
use bank_vaults.Operator.Handle.{or_empty}
use bank_vaults.Operator.Handle.Registry.{
  secrets, stateful_sets, services, deployments, config_maps, Place, place,
}

-- There is an object.
abbrev pub Standing : Option Object → Type 0
Standing o = (x : Object) × (o ≡ some x)

-- data["vault-config.yml"] of a config map
abbrev pub config_of : Option (Dict String) → String
config_of none = ""
config_of (some entries) = or_empty (lookup "vault-config.yml" entries)

-- What `configure` sees to, for a CR with this namespace, name and external configuration.
pub record Configured (namespace name config : String) (at : Place → Option Object) : Type 0 where
  pub service : Standing (at (record { kind = services; namespace = namespace; name = name }))
  pub deployment : Standing (
      at (record {
        kind = deployments;
        namespace = namespace;
        name = concat (name ∷ "-configurer" ∷ []);
      }))
  pub config_map :
      (meta : ObjectMeta) × (entries : Option (Dict String)) × (meta.namespace ≡ namespace)
      × (meta.name ≡ concat (name ∷ "-configurer" ∷ []))
      × (at (record {
        kind = config_maps;
        namespace = namespace;
        name = concat (name ∷ "-configurer" ∷ []);
      })
          ≡ some (config_map meta entries))
      × (config_of entries ≡ config)

-- The stateful set stands with the spec, under its name.
abbrev pub SetStands : String → String → WorkloadSpec → (Place → Option Object) → Type 0
SetStands namespace name spec at =
    (meta : ObjectMeta) × (meta.namespace ≡ namespace)
    × (meta.name ≡ name)
    × (at (record { kind = stateful_sets; namespace = namespace; name = name })
        ≡ some (stateful_set meta spec))

-- All that Handle makes of a CR stands: with etcd storage the cluster and its certificates, the
-- certificates of the Vault, the stateful set with the spec that is fabricated of the CR, the service,
-- the deployment of the configurer, and a config map with the CR's external configuration.
pub record Settled {Any : Type 0} (lib : Library Any) (v : VaultCr Any) (t : String)
    (at : Place → Option Object) : Type 0 where
  pub etcd :
      t ≡ "etcd"
      → (cluster : Object) → etcd_for_vault lib v t ≡ ok cluster
      → Standing (at (place cluster))
        × Standing (
            at (record {
              kind = secrets;
              namespace = (meta_of cluster).namespace;
              name = concat ((meta_of cluster).name ∷ "-tls" ∷ []);
            }))
  pub tls : Standing (
      at (record { kind = secrets; namespace = v.namespace; name = concat (v.name ∷ "-tls" ∷ []) }))
  pub set :
      (spec : WorkloadSpec)
      → (stateful_set_for_vault lib v t).0 ≡ ok (stateful_set (set_meta lib v) spec)
      → SetStands v.namespace v.name spec at
  pub configured : Configured v.namespace v.name (external_config_json lib.cast v.spec) at
