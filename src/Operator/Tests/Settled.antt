-- ===== src/Operator/Tests/Settled.antt =====
-- A custom resource with storage in etcd, and what Handle brings about there.
use bank_vaults.Prelude.{false, none, [], ◌∷◌, ok, ◌≡◌, refl}
use bank_vaults.Operator.Spec.{VaultCr, get_storage_type}
use bank_vaults.Operator.Handle.{handle}
use bank_vaults.Operator.Handle.Settled.{Settled}
use bank_vaults.Operator.Handle.Established.{handle_establishes}
use bank_vaults.Operator.Handle.Again.{handle_again_changes_nothing}
use bank_vaults.Operator.Tests.{usc, cr}
use bank_vaults.Prelude.{◌>>=◌, lookup, insert}
use bank_vaults.Operator.Spec.{get_storage, external_config_json}
use bank_vaults.Operator.Fabricate.{secret_for_etcd, secret_for_vault}
use bank_vaults.Operator.Fabricate.Configurer.{
  service_for_vault, deployment_for_configurer, config_map_for_configurer,
}
use bank_vaults.Operator.Fabricate.Etcd.{etcd_for_vault, stateful_set_for_vault}
use bank_vaults.Operator.Tests.Memory.{
  Value, text, object, end, field, cast_laws, library, World, cluster, registry,
}

abbrev storage : Value
storage = object (
    field "etcd" (object (field "address" (text "etcd") (field "ha_enabled" (text "true") end)))
      end)

abbrev etcd_cr : VaultCr Value
etcd_cr = record {
  api_version = cr.api_version;
  kind = cr.kind;
  name = "vault";
  namespace = "default";
  uid = "1";
  spec = record {
    size = cr.spec.size;
    image = cr.spec.image;
    bank_vaults_image = "";
    config = ("storage", storage) ∷ [];
    external_config = [];
    unseal_config = usc;
    credentials_config = cr.spec.credentials_config;
  };
  nodes = [];
}

-- Nothing stands before the first event.
abbrev nothing : World
nothing k = none

handled : (handle cluster library false etcd_cr nothing).0 ≡ ok tt
unfolding handle ◌>>=◌ get_storage_type lookup insert get_storage etcd_for_vault secret_for_etcd
    secret_for_vault stateful_set_for_vault service_for_vault deployment_for_configurer
    config_map_for_configurer external_config_json
handled = refl

handle_establishes_example :
    Settled library etcd_cr "etcd" (handle cluster library false etcd_cr nothing).1
unfolding get_storage_type lookup
handle_establishes_example =
    handle_establishes cluster library (λ w. w) registry cast_laws etcd_cr "etcd" nothing refl
      handled

handle_again_changes_nothing_example :
    (handle cluster library false
      (record etcd_cr { nodes = "vault-0" ∷ [] })
      (handle cluster library false etcd_cr nothing).1).1
    ≡ (handle cluster library false etcd_cr nothing).1
unfolding get_storage_type lookup
handle_again_changes_nothing_example =
    handle_again_changes_nothing cluster library (λ w. w) registry cast_laws etcd_cr "etcd" nothing
      refl handled ("vault-0" ∷ []) (handle cluster library false etcd_cr nothing).1 refl
