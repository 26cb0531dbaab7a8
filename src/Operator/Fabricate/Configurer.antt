-- ===== src/Operator/Fabricate/Configurer.antt =====
-- The objects of operator/pkg/stub/handler.go around the stateful set: the configurer's deployment and
-- its configuration, and Vault's service.
use bank_vaults.Prelude.{String, none, some, [], ◌∷◌, concat}
use bank_vaults.Operator.Objects.{
  secret_source, config_map_source, WorkloadSpec, Object, service, deployment, config_map,
}
use bank_vaults.Operator.Spec.{VaultCr, get_bank_vaults_image, external_config_json}
use bank_vaults.Operator.Fabricate.{
  Library, labels_for_vault, labels_for_vault_configurer, as_owner, tls_name, with_credentials_env,
  with_credentials_volume, with_credentials_volume_mount, mount, args,
}

module _ {Any : Type 0} (lib : Library Any) (v : VaultCr Any) where
  pub configurer_name : String
  configurer_name = concat (v.name ∷ "-configurer" ∷ [])

  unfoldable pub configurer_spec : WorkloadSpec
  unfolding with_credentials_env with_credentials_volume with_credentials_volume_mount mount
      tls_name configurer_name
  configurer_spec = record {
    replicas = none;
    match_labels = labels_for_vault_configurer v.name;
    template = record {
      labels = labels_for_vault_configurer v.name;
      containers =
          record {
            image = get_bank_vaults_image lib.cast v.spec;
            name = "bank-vaults";
            command = "bank-vaults" ∷ "configure" ∷ [];
            args = args lib v;
            ports = [];
            env = with_credentials_env lib v (
                record {
                  name = "VAULT_ADDR";
                  value = concat ("https://" ∷ v.name ∷ "." ∷ v.namespace ∷ ":8200" ∷ []);
                }
                ∷ record { name = "VAULT_CACERT"; value = "/vault/tls/ca.crt" }
                ∷ []);
            capabilities = [];
            liveness_probe = none;
            readiness_probe = none;
            volume_mounts =
                with_credentials_volume_mount lib v
                  (mount lib v "config" "/config" ∷ mount lib v "vault-tls" "/vault/tls" ∷ []);
            working_dir = "/config";
          }
          ∷ [];
      volumes = with_credentials_volume lib v (
          record { name = "config"; source = config_map_source configurer_name }
          ∷ record { name = "vault-tls"; source = secret_source (tls_name lib v) }
          ∷ []);
    };
  }

  unfoldable pub deployment_for_configurer : Object
  unfolding configurer_spec configurer_name as_owner
  deployment_for_configurer =
      deployment
        (record {
          name = configurer_name;
          namespace = v.namespace;
          labels = [];
          owner_references = as_owner lib v ∷ [];
        })
        configurer_spec

  unfoldable pub service_for_vault : Object
  unfolding as_owner labels_for_vault
  service_for_vault =
      service
        (record {
          name = v.name;
          namespace = v.namespace;
          labels = [];
          owner_references = as_owner lib v ∷ [];
        })
        (record { selector = labels_for_vault v.name; ports = ("vault", 8200) ∷ [] })

  unfoldable pub config_map_for_configurer : Object
  unfolding as_owner configurer_name labels_for_vault_configurer
  config_map_for_configurer =
      config_map
        (record {
          name = configurer_name;
          namespace = v.namespace;
          labels = labels_for_vault_configurer v.name;
          owner_references = as_owner lib v ∷ [];
        })
        (some (("vault-config.yml", external_config_json lib.cast v.spec) ∷ []))
