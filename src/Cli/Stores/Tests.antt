-- ===== src/Cli/Stores/Tests.antt =====
-- The command in every mode over remote services in memory, whose key management services open what they
-- are given.
mod Buckets
mod Vaults
use bank_vaults.Prelude.{
  ◌>>=◌, String, Option, true, false, eq_iff, none, some, ok, err, pos, lookup, [], ◌==◌,
  if◌then◌else◌, ◌≡◌, ◌≢◌, refl, arith, sym, ok_inj,
}
use bank_vaults.Kv.Spec.{Faithful, FaithfulBy}
use bank_vaults.Kv.K8s
use bank_vaults.Kv.K8s.Contract.{SecretsLaws, key_in}
use bank_vaults.Kv.S3
use bank_vaults.Kv.Gcs
use bank_vaults.Kv.Oss
use bank_vaults.Kv.Azure
use bank_vaults.Kv.Kms.{encrypted}
use bank_vaults.Kv.Kms.Contract.{opened}
use bank_vaults.Kv.Kms.Aws
use bank_vaults.Kv.Kms.Google
use bank_vaults.Kv.Kms.Google.Contract.{plaintext, key_path}
use bank_vaults.Kv.Kms.Alibaba
use bank_vaults.Cli.Flags.{Viper}
use bank_vaults.Cli.Stores.{Sdk, kv_store_for_config}
use bank_vaults.Cli.Stores.Remote.{Remote, SdkLaws}
use bank_vaults.Cli.Stores.Contract.{kv_store_for_config-Faithful}
use bank_vaults.Cli.Stores.Tests.Buckets.{
  Cloud, bucket_has, s3_api, s3_laws, gcs_api, gcs_laws, oss_api, oss_laws,
}
use bank_vaults.Cli.Stores.Tests.Vaults.{
  folded, vault_has, azure_api, azure_laws, secret_at, secrets, secrets_laws,
}

abbrev base64 : Google.Base64
base64 = record { encode_to_string = λ s. s; decode_string = λ s. ok s }

abbrev aws_api : Aws.AwsApi Cloud
aws_api = record {
  encrypt = λ r w. (ok r.plaintext, w);
  decrypt = λ r w. (ok r.ciphertext_blob, w);
}

abbrev google_api : Google.GoogleApi Cloud
google_api = record { encrypt = λ key s w. (ok s, w); decrypt = λ key s w. (ok s, w) }

abbrev alibaba_api : Alibaba.AlibabaApi Cloud
alibaba_api = record { encrypt = λ key s w. (ok s, w); decrypt = λ s w. (ok s, w) }

abbrev sdk : Sdk Cloud String String String (Unit {0}) String
sdk = record {
  gcs_client = λ w. (ok gcs_api, w);
  base64 = base64;
  google_client = λ w. (ok "client", w);
  cloudkms = λ c w. (ok google_api, w);
  s3_client = λ region. s3_api;
  aws_kms = λ region. aws_api;
  azure_client = λ w. (ok azure_api, w);
  oss_client = λ e i s w. (ok oss_api, w);
  alibaba_kms = λ r i s w. (ok alibaba_api, w);
  k8s = record {
    getenv = λ n. "";
    build_config = λ p w. (ok p, w);
    in_cluster_config = λ w. (ok "cluster", w);
    new_for_config = λ c w. (ok secrets, w);
    unmarshal_owner = λ s. ok s;
  };
  files = record { getenv = λ n. "/root"; read_file = λ p w. (err "no file", w) };
}

abbrev flag_value : String → String → String
flag_value mode n =
    if n == "mode"
    then mode
    else if n == "k8s-secret-namespace"
    then "default"
    else if n == "k8s-secret-name"
    then "vault-unseal-keys"
    else if n == "aws-s3-prefix"
    then "vault/"
    else if n == "google-cloud-storage-prefix"
    then "vault/"
    else if n == "alibaba-oss-prefix"
    then "vault/"
    else "unseal"

abbrev viper : String → Viper
viper mode = record { get_string = flag_value mode; get_int = λ n. pos 5; get_bool = λ n. true }

abbrev remote : Remote Cloud String String String
remote = record {
  gcs_object = λ b. bucket_has;
  gcs_contents = λ r. r;
  google_opens = λ k c. some c;
  s3_object = λ region b. bucket_has;
  s3_contents = λ b. b;
  aws_opens = λ region context c. some c;
  azure_secret = λ u. vault_has;
  azure_name = folded;
  oss_object = λ e b. bucket_has;
  oss_contents = λ b. b;
  alibaba_opens = λ r k c. some c;
  k8s_held = secret_at;
}

laws : (mode : String) → SdkLaws (viper mode) remote sdk
laws mode = record {
  base64 = record { decodes = λ s. refl };
  gcs = λ api w h. rw (sym (ok_inj h)) gcs_laws;
  google = λ c api w h. rw (sym (ok_inj h)) (record {
    encrypts = λ p c w h. grind arith;
    canonical = λ p c s w h k. grind arith;
    decrypts = λ c p w h. grind arith;
    encrypt_keeps = λ p j w. refl;
    decrypt_keeps = λ c j w. refl;
  });
  s3 = s3_laws;
  aws = record {
    encrypts = λ r c w h. grind arith;
    decrypts = λ r p w h. grind arith;
    encrypt_keeps = λ r j w. refl;
    decrypt_keeps = λ r j w. refl;
  };
  azure = λ api w h. rw (sym (ok_inj h)) azure_laws;
  oss = λ i s api w h. rw (sym (ok_inj h)) oss_laws;
  alibaba = λ i s api w h. rw (sym (ok_inj h)) (record {
    encrypts = λ p c w h. grind arith;
    decrypts = λ c p w h. grind arith;
    encrypt_keeps = λ p j w. refl;
    decrypt_keeps = λ c j w. refl;
  });
  k8s = λ c api k w h e e'. rw (sym (ok_inj h), sym e, sym e') (secrets_laws k);
}

abbrev nothing : Cloud
nothing = record { objects = []; written = ""; vault = []; secrets = λ ns n. none }

abbrev below : (String → String) → Cloud → String → Option String
below name w k = lookup (name k) w.objects

differs : (s t : String) → (s == t) ≡ false → s ≢ t
differs s t apart e = let same : (s == t) ≡ true = (eq_iff s t).1 e in cc

-- The services that the command makes in the five modes.
kv_store_for_config-Faithful_example :
    Faithful
      (encrypted
        (S3.service s3_api (record { bucket = "unseal"; prefix = "vault/" }))
        (Aws.encrypt aws_api "unseal")
        (Aws.decrypt aws_api))
      (λ w k. opened (λ c. some c) (below (S3.object_name_with_prefix "vault/") w k))
    × Faithful
        (Google.service base64 google_api
          (key_path "unseal" "unseal" "unseal" "unseal")
          (Gcs.service gcs_api (record { bucket = "unseal"; prefix = "vault/" })))
        (λ w k.
          opened
            (plaintext base64 (λ c. some c))
            (below (Gcs.object_name_with_prefix "vault/") w k))
    × Faithful
        (Alibaba.service alibaba_api "unseal"
          (Oss.service oss_api (record { bucket = "unseal"; prefix = "vault/" })))
        (λ w k. opened (λ c. some c) (below (Oss.object_name_with_prefix "vault/") w k))
    × FaithfulBy folded (Azure.service azure_api "https://unseal.vault.azure.net") vault_has
    × Faithful
        (K8s.service secrets
          (record { namespace = "default"; secret = "vault-unseal-keys"; owner_reference = none }))
        (λ w k. key_in k (secret_at "default" "vault-unseal-keys" w))
unfolding kv_store_for_config S3.new Aws.new Gcs.new Google.new Oss.new Alibaba.new Azure.new
    K8s.new ◌>>=◌
kv_store_for_config-Faithful_example = (
  kv_store_for_config-Faithful (viper "aws-kms-s3") remote sdk (laws "aws-kms-s3") nothing _
      (differs _ _ refl) refl,
  kv_store_for_config-Faithful (viper "google-cloud-kms-gcs") remote sdk
      (laws "google-cloud-kms-gcs") nothing _ (differs _ _ refl) refl,
  kv_store_for_config-Faithful (viper "alibaba-kms-oss") remote sdk (laws "alibaba-kms-oss") nothing
      _ (differs _ _ refl) refl,
  kv_store_for_config-Faithful (viper "azure-key-vault") remote sdk (laws "azure-key-vault") nothing
      _ (differs _ _ refl) refl,
  kv_store_for_config-Faithful (viper "k8s") remote sdk (laws "k8s") nothing _ (differs _ _ refl)
      refl,
)
