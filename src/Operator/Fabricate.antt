-- ===== src/Operator/Fabricate.antt =====
-- The objects of operator/pkg/stub/handler.go, as they are made of a Vault custom resource. The TLS
-- chains of pkg/tls and the calls of Go's libraries are parameters.
pub mod Configurer
pub mod Etcd
pub mod Mounts
use bank_vaults.Prelude.{
  String, true, none, some, List, [], ◌∷◌, ◌++◌, Result, ok, err, panic, Dict, concat, ◌==◌,
  if◌then◌else◌,
}
use bank_vaults.Operator.Unsealing.{to_args}
use bank_vaults.Operator.Objects.{
  OwnerReference, ObjectMeta, empty_dir, secret_source, Volume, VolumeMount, EnvVar, Container,
  WorkloadSpec, Object, secret, stateful_set,
}
use bank_vaults.Operator.Spec.{Cast, VaultCr, get_bank_vaults_image, config_json}

-- tls.Chain
pub record Chain : Type 0 where
  pub ca_cert : String
  pub client_cert : String
  pub client_key : String
  pub peer_cert : String
  pub peer_key : String
  pub server_cert : String
  pub server_key : String

-- `hostname` is url.Parse and Hostname, `file_of` the second result of filepath.Split, and
-- `marshal_owner` json.Marshal.
pub record Library (Any : Type 0) : Type 0 where
  pub cast : Cast Any
  pub hostname : String → Result String String
  pub file_of : String → String
  pub marshal_owner : OwnerReference → Result String String

unfoldable pub labels_for_vault : String → Dict String
labels_for_vault name = ("app", "vault") ∷ ("vault_cr", name) ∷ []

unfoldable pub labels_for_vault_configurer : String → Dict String
labels_for_vault_configurer name = ("app", "vault-configurator") ∷ ("vault_cr", name) ∷ []

-- The secrets of an etcd cluster and of a Vault, over the chain that GenerateTLS made; Handle adds
-- the owner.
pub etcd_hosts : ObjectMeta → List String
etcd_hosts e =
    e.name
    ∷ concat (e.name ∷ "." ∷ e.namespace ∷ [])
    ∷ concat ("*." ∷ e.name ∷ "." ∷ e.namespace ∷ ".svc" ∷ [])
    ∷ concat (e.name ∷ "-client." ∷ e.namespace ∷ ".svc" ∷ [])
    ∷ "localhost"
    ∷ []

unfoldable pub secret_for_etcd : ObjectMeta → Chain → List OwnerReference → Object
unfolding labels_for_vault
secret_for_etcd e chain owners =
    secret
      (record {
        name = concat (e.name ∷ "-tls" ∷ []);
        namespace = e.namespace;
        labels = labels_for_vault e.name;
        owner_references = owners;
      })
      (("etcd-client-ca.crt", chain.ca_cert)
        ∷ ("etcd-client.crt", chain.client_cert)
        ∷ ("etcd-client.key", chain.client_key)
        ∷ ("peer-ca.crt", chain.ca_cert)
        ∷ ("peer.crt", chain.peer_cert)
        ∷ ("peer.key", chain.peer_key)
        ∷ ("server-ca.crt", chain.ca_cert)
        ∷ ("server.crt", chain.server_cert)
        ∷ ("server.key", chain.server_key)
        ∷ [])

module _ {Any : Type 0} (lib : Library Any) (v : VaultCr Any) where
  unfoldable pub as_owner : OwnerReference
  as_owner = record {
    api_version = v.api_version;
    kind = v.kind;
    name = v.name;
    uid = v.uid;
    controller = true;
  }

  tls_name : String
  tls_name = concat (v.name ∷ "-tls" ∷ [])

  unfoldable pub secret_for_vault : Chain → List OwnerReference → Object
  unfolding labels_for_vault tls_name
  secret_for_vault chain owners =
      secret
        (record {
          name = tls_name;
          namespace = v.namespace;
          labels = labels_for_vault v.name;
          owner_references = owners;
        })
        (("ca.crt", chain.ca_cert)
          ∷ ("server.crt", chain.server_cert)
          ∷ ("server.key", chain.server_key)
          ∷ [])

  with_credentials_env : List EnvVar → List EnvVar
  with_credentials_env envs =
      let c = v.spec.credentials_config in
      if c.env == "" then envs else envs ++ (record { name = c.env; value = c.path } ∷ [])

  pub with_credentials_volume : List Volume → List Volume
  with_credentials_volume volumes =
      let c = v.spec.credentials_config in
      if c.secret_name == ""
      then volumes
      else volumes ++ (record { name = c.secret_name; source = secret_source c.secret_name } ∷ [])

  pub with_credentials_volume_mount : List VolumeMount → List VolumeMount
  with_credentials_volume_mount mounts =
      let c = v.spec.credentials_config in
      if c.secret_name == ""
      then mounts
      else mounts
        ++ (record { name = c.secret_name; mount_path = c.path; sub_path = lib.file_of c.path }
            ∷ [])

  mount : String → String → VolumeMount
  mount name path = record { name = name; mount_path = path; sub_path = "" }

  abbrev args : List String
  args = to_args v.spec.unseal_config (record { name = v.name; namespace = v.namespace })

  vault_container : List VolumeMount → Container
  unfolding with_credentials_env
  vault_container mounts = record {
    image = v.spec.image;
    name = "vault";
    command = [];
    args = "server" ∷ "-log-level=debug" ∷ [];
    ports = ("vault", 8200) ∷ [];
    env = with_credentials_env (
        record { name = "VAULT_LOCAL_CONFIG"; value = config_json lib.cast v.spec }
        ∷ record { name = "VAULT_CACERT"; value = "/vault/tls/ca.crt" }
        ∷ []);
    capabilities = "IPC_LOCK" ∷ [];
    liveness_probe = some (record { port = "vault"; path = "/v1/sys/init" });
    readiness_probe = some (record { port = "vault"; path = "/v1/sys/health" });
    volume_mounts = mounts;
    working_dir = "";
  }

  unseal_container : String → Container
  unfolding with_credentials_env with_credentials_volume_mount mount
  unseal_container owner_json = record {
    image = get_bank_vaults_image lib.cast v.spec;
    name = "bank-vaults";
    command = "bank-vaults" ∷ "unseal" ∷ "--init" ∷ [];
    args = args;
    ports = [];
    env = with_credentials_env (
        record { name = "K8S_OWNER_REFERENCE"; value = owner_json }
        ∷ record { name = "VAULT_CACERT"; value = "/vault/tls/ca.crt" }
        ∷ []);
    capabilities = [];
    liveness_probe = none;
    readiness_probe = none;
    volume_mounts = with_credentials_volume_mount (mount "vault-tls" "/vault/tls" ∷ []);
    working_dir = "";
  }

  pub vault_volumes : List Volume
  unfolding with_credentials_volume tls_name
  vault_volumes = with_credentials_volume (
      record { name = "vault-config"; source = empty_dir }
      ∷ record { name = "vault-file"; source = empty_dir }
      ∷ record { name = "vault-tls"; source = secret_source tls_name }
      ∷ [])

  pub vault_mounts : List VolumeMount
  unfolding with_credentials_volume_mount mount
  vault_mounts = with_credentials_volume_mount (
      mount "vault-config" "/vault/config"
      ∷ mount "vault-file" "/vault/file"
      ∷ mount "vault-tls" "/vault/tls"
      ∷ [])

  -- The end of statefulSetForVault, over the volumes and the container's mounts.
  pub stateful_spec : List Volume → List VolumeMount → String → WorkloadSpec
  unfolding vault_container unseal_container
  stateful_spec volumes mounts owner_json = record {
    replicas = some v.spec.size;
    match_labels = labels_for_vault v.name;
    template = record {
      labels = labels_for_vault v.name;
      containers = vault_container mounts ∷ unseal_container owner_json ∷ [];
      volumes = volumes;
    };
  }

  pub assembled : List Volume → List VolumeMount → Result String String → Result String Object
  unfolding stateful_spec as_owner
  assembled volumes mounts (ok owner_json) = ok (
      stateful_set
        (record {
          name = v.name;
          namespace = v.namespace;
          labels = [];
          owner_references = as_owner ∷ [];
        })
        (stateful_spec volumes mounts owner_json))
  assembled volumes mounts (err e) = err e
  assembled volumes mounts (panic s) = panic s
