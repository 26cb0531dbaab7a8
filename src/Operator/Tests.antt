-- ===== src/Operator/Tests.antt =====
-- A custom resource with storage in Consul and unseal keys in Kubernetes, a cluster that records what
-- is created, and the theorems of the operator there.
mod Secrets
mod Memory
mod Settled
mod Certificates
use text.Mathlib.TextLemmas.{append_cancel_left, append-nil}
use bank_vaults.Prelude.{
  ◌≢◌, String, true, false, pos, none, some, List, [], ◌∷◌, ok, err, All, ◌≡◌, refl, subst, concat,
  ◌==◌, if◌then◌else◌,
}
use bank_vaults.Kv.K8s
use bank_vaults.Kv.S3
use bank_vaults.Cli.Flags.{Viper}
use bank_vaults.Cli.Stores.{Sdk, kv_store_for_config}
use bank_vaults.Operator.Unsealing.{UnsealConfig, VaultMeta, to_args, chosen_or}
use bank_vaults.Operator.Unsealing.Flags.{accepted, to_args-accepted}
use bank_vaults.Operator.Unsealing.Chosen.{Reads, named, to_args-named}
use bank_vaults.Operator.Objects.{Object}
use bank_vaults.Operator.Spec.{Cast, VaultCr, get_storage_type, has_ha_storage, is_ha_type}
use bank_vaults.Operator.Fabricate.{Library, Chain}
use bank_vaults.Operator.Fabricate.Configurer.{deployment_for_configurer}
use bank_vaults.Operator.Fabricate.Etcd.{stateful_set_for_vault}
use bank_vaults.Operator.Fabricate.Mounts.{HasMountablePod, pods_mount_their_volumes}
use bank_vaults.Operator.Fabricate.Etcd.Belongs.{BelongsTo}
use bank_vaults.Operator.Handle.{Cluster, absent, handle}
use bank_vaults.Operator.Handle.Owned.{Watched, handle_creates_owned}
use bank_vaults.Operator.Handle.Replicas.{handle_refuses_replicas}

abbrev usc : UnsealConfig
usc = record {
  kubernetes = some (record { secret_namespace = ""; secret_name = "keys" });
  google = none;
  alibaba = none;
  azure = none;
  aws = none;
}

abbrev meta : VaultMeta
meta = record { name = "vault"; namespace = "default" }

to_args-accepted_example : accepted (to_args usc meta) ≡ true
to_args-accepted_example = to_args-accepted usc meta

abbrev sdk : Sdk (Unit {0}) (Unit {0}) (Unit {0}) (Unit {0}) (Unit {0}) (Unit {0})
sdk = record {
  gcs_client = λ w. (err "offline", w);
  base64 = record { encode_to_string = λ s. s; decode_string = λ s. ok s };
  google_client = λ w. (err "offline", w);
  cloudkms = λ c w. (err "offline", w);
  s3_client = λ region. record {
    put_object = λ b n v w. (err (S3.other "offline"), w);
    get_object = λ b n w. (err (S3.other "offline"), w);
    read_all = λ b w. (err "offline", w);
    close = λ b w. w;
  };
  aws_kms =
      λ region. record { encrypt = λ r w. (err "offline", w); decrypt = λ r w. (err "offline", w) };
  azure_client = λ w. (err "offline", w);
  oss_client = λ e i s w. (err "offline", w);
  alibaba_kms = λ r i s w. (err "offline", w);
  k8s = record {
    getenv = λ n. "";
    build_config = λ p w. (ok p, w);
    in_cluster_config = λ w. (ok "in-cluster", w);
    new_for_config = λ c w. (
      ok (record {
        get = λ ns n w'. (err (K8s.absent "missing"), w');
        create = λ ns s w'. (ok s, w');
        update = λ ns s w'. (ok s, w');
      }),
      w,
    );
    unmarshal_owner = λ s. ok s;
  };
  files = record { getenv = λ n. "/root"; read_file = λ p w. (ok "token", w) };
}

abbrev flag_value : String → String
flag_value n =
    if n == "mode"
    then "k8s"
    else if n == "k8s-secret-namespace"
    then "default"
    else if n == "k8s-secret-name"
    then "keys"
    else ""

abbrev viper : Viper
viper = record { get_string = flag_value; get_int = λ n. pos 5; get_bool = λ n. true }

-- A flag's value, by the text that it is written with.
written :
    (flag val : String)
    → flag_value flag ≡ val
    → (name : String) → concat ("--" ∷ flag ∷ []) ≡ concat ("--" ∷ name ∷ [])
    → flag_value name ≡ val
written flag val h name e =
    subst (λ n. flag_value n ≡ val) (rw (append-nil, append-nil) at (append_cancel_left "--" _ _ e))
      h

reads : Reads viper (to_args usc meta)
unfolding to_args chosen_or
reads = (
  written "mode" "k8s" refl,
  (written "k8s-secret-namespace" "default" refl, (written "k8s-secret-name" "keys" refl, tt)),
)

to_args-named_example :
    kv_store_for_config sdk viper
    ≡ named sdk viper meta usc.kubernetes usc.google usc.azure usc.aws usc.alibaba
to_args-named_example = to_args-named sdk viper meta usc reads

abbrev cast : Cast String
cast = record {
  to_string_map = λ x. ("consul", "") ∷ [];
  to_bool = λ x. true;
  as_string = λ x. x;
  of_map = λ m. "";
  of_string = λ s. s;
  marshal = λ m. "{}";
}

abbrev library : Library String
library = record {
  cast = cast;
  hostname = λ a. ok a;
  file_of = λ p. p;
  marshal_owner = λ o. ok "owner";
}

abbrev cr : VaultCr String
cr = record {
  api_version = "vault.banzaicloud.com/v1alpha1";
  kind = "Vault";
  name = "vault";
  namespace = "default";
  uid = "1";
  spec = record {
    size = pos 1;
    image = "vault:0.10.1";
    bank_vaults_image = "";
    config = ("storage", "consul") ∷ [];
    external_config = [];
    unseal_config = usc;
    credentials_config = record {
      env = "AWS_SHARED_CREDENTIALS_FILE";
      path = "/root/.aws/credentials";
      secret_name = "aws";
    };
  };
  nodes = [];
}

pods_mount_their_volumes_example :
    HasMountablePod library (deployment_for_configurer library cr)
    × ((t : String) (obj : Object)
        → (stateful_set_for_vault library cr t).0 ≡ ok obj
        → HasMountablePod library obj)
pods_mount_their_volumes_example = pods_mount_their_volumes library cr

abbrev chain : Chain
chain = record {
  ca_cert = "ca";
  client_cert = "c";
  client_key = "k";
  peer_cert = "c";
  peer_key = "k";
  server_cert = "c";
  server_key = "k";
}

-- The objects that were created.
abbrev cluster : Cluster (List Object) String
cluster = record {
  create = λ obj w. (ok tt, obj ∷ w);
  update = λ obj w. (ok tt, w);
  update_vault = λ v w. (ok tt, w);
  get_stateful_set = λ ns n w. (err (absent "missing"), w);
  get_config_map = λ ns n w. (err (absent "missing"), w);
  list_pods = λ ns l w. (ok [], w);
  generate_tls = λ hosts validity w. (ok chain, w);
}

watched : Watched cluster library cr (λ w. All (λ obj. BelongsTo library cr obj) w)
watched = record {
  creates = λ obj b. record { at = λ w h. (b, h) };
  updates = λ obj _. record { at = λ w h. h };
  updates_vault = λ u. record { at = λ w h. h };
  gets_set = λ ns n. record { at = λ w h. h };
  gets_map = λ ns n. record { at = λ w h. h };
  lists = λ ns l. record { at = λ w h. h };
  generates = λ hosts validity _. record { at = λ w h. h };
}

handle_creates_owned_example :
    All (λ obj. BelongsTo library cr obj) (handle cluster library false cr []).1
handle_creates_owned_example =
    handle_creates_owned cluster library cr (λ w. All (λ obj. BelongsTo library cr obj) w) watched
      false [] tt

-- The same with storage in a file and two replicas.
abbrev file_library : Library String
file_library = record library { cast = record cast { to_string_map = λ x. ("file", "") ∷ [] } }

abbrev two_replicas : VaultCr String
two_replicas = record cr { spec = record cr.spec { size = pos 2 } }

handle_refuses_replicas_example : (handle cluster file_library false two_replicas []).0 ≢ ok tt
unfolding get_storage_type has_ha_storage is_ha_type
handle_refuses_replicas_example =
    handle_refuses_replicas cluster file_library two_replicas refl "file" [] refl refl
