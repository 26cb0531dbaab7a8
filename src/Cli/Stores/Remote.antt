-- ===== src/Cli/Stores/Remote.antt =====
-- kvStoreForConfig (cmd/bank-vaults/util.go) and the contract of a key store: what is asked of the
-- remote services behind the backends, and what they hold for the store of each mode.
use bank_vaults.Prelude.{String, Option, ok, Dict, ◌==◌, if◌then◌else◌, ◌≡◌}
use bank_vaults.Kv.K8s
use bank_vaults.Kv.K8s.{Secret, K8sStorage}
use bank_vaults.Kv.K8s.Contract.{SecretsLaws, key_in}
use bank_vaults.Kv.S3
use bank_vaults.Kv.S3.Contract as S3Contract
use bank_vaults.Kv.S3.Contract.{s3_new-Faithful}
use bank_vaults.Kv.Gcs
use bank_vaults.Kv.Gcs.Contract as GcsContract
use bank_vaults.Kv.Gcs.Contract.{gcs_new-Faithful}
use bank_vaults.Kv.Oss
use bank_vaults.Kv.Oss.Contract as OssContract
use bank_vaults.Kv.Oss.Contract.{oss_new-Faithful}
use bank_vaults.Kv.Azure
use bank_vaults.Kv.Azure.Contract as AzureContract
use bank_vaults.Kv.Azure.Contract.{base_url, azure_new-Faithful}
use bank_vaults.Kv.Kms.Contract.{opened}
use bank_vaults.Kv.Kms.Aws.Contract.{AwsLaws, context}
use bank_vaults.Kv.Kms.Google
use bank_vaults.Kv.Kms.Google.Contract.{Base64Laws, GoogleLaws, plaintext, key_path}
use bank_vaults.Kv.Kms.Alibaba
use bank_vaults.Kv.Kms.Alibaba.Contract.{AlibabaLaws}
use bank_vaults.Cli.Flags.{Viper}
use bank_vaults.Cli.Stores.{Sdk}

-- What the remote services hold and open, by the arguments that single one out: the bucket and, for
-- S3, its region, for OSS its endpoint; the key; the vault's URL; the namespace and the Secret.
pub record Remote (W Reader S3Body OssBody : Type 0) : Type 0 where
  pub gcs_object : String → W → String → Option String
  pub gcs_contents : Reader → String
  pub google_opens : String → String → Option String
  pub s3_object : String → String → W → String → Option String
  pub s3_contents : S3Body → String
  pub aws_opens : String → Dict String → String → Option String
  pub azure_secret : String → W → String → Option String
  pub azure_name : String → String  -- what the vault takes for the same name has the same image
  pub oss_object : String → String → W → String → Option String
  pub oss_contents : OssBody → String
  pub alibaba_opens : String → String → String → Option String
  pub k8s_held : String → String → W → Option Secret

-- The objects under a prefix, by the keys of the store.
abbrev pub under :
    {W : Type 0} → (String → String) → (W → String → Option String) → W → String → Option String
under name object w key = object w (name key)

abbrev pub key_path_of : Viper → String
key_path_of cfg =
    key_path (cfg.get_string "google-cloud-kms-project")
      (cfg.get_string "google-cloud-kms-location") (cfg.get_string "google-cloud-kms-key-ring")
      (cfg.get_string "google-cloud-kms-crypto-key")

abbrev pub vault_url : Viper → String
vault_url cfg = base_url (cfg.get_string "azure-key-vault-name")

module _ {W Reader S3Body OssBody : Type 0} (cfg : Viper)
    (remote : Remote W Reader S3Body OssBody) where
  -- The objects that stand below a key management service.
  abbrev pub gcs_below : W → String → Option String
  gcs_below =
      under (Gcs.object_name_with_prefix (cfg.get_string "google-cloud-storage-prefix"))
        (remote.gcs_object (cfg.get_string "google-cloud-storage-bucket"))

  abbrev pub s3_below : W → String → Option String
  s3_below =
      under (S3.object_name_with_prefix (cfg.get_string "aws-s3-prefix"))
        (remote.s3_object (cfg.get_string "aws-s3-region") (cfg.get_string "aws-s3-bucket"))

  abbrev pub oss_below : W → String → Option String
  oss_below = under (Oss.object_name_with_prefix (cfg.get_string "alibaba-oss-prefix")) (
      remote.oss_object (cfg.get_string "alibaba-oss-endpoint")
        (cfg.get_string "alibaba-oss-bucket"))

  -- What the store of the command's mode holds under a key.
  abbrev pub held_by_mode : Google.Base64 → W → String → Option String
  held_by_mode base64 =
      let mode = cfg.get_string "mode" in
      if mode == "google-cloud-kms-gcs"
      then (λ w k.
          opened (plaintext base64 (remote.google_opens (key_path_of cfg))) (gcs_below w k))
      else if mode == "aws-kms-s3"
      then (λ w k.
          opened (remote.aws_opens (cfg.get_string "aws-kms-region") context) (s3_below w k))
      else if mode == "azure-key-vault"
      then remote.azure_secret (vault_url cfg)
      else if mode == "alibaba-kms-oss"
      then (λ w k.
          opened
            (remote.alibaba_opens (cfg.get_string "alibaba-kms-region")
              (cfg.get_string "alibaba-kms-key-id"))
            (oss_below w k))
      else (λ w k. key_in k (
          remote.k8s_held (cfg.get_string "k8s-secret-namespace") (cfg.get_string "k8s-secret-name")
            w))

  -- The keys that the store of the command's mode takes for the same one.
  abbrev pub same_by_mode : String → String
  same_by_mode = if cfg.get_string "mode" == "azure-key-vault" then remote.azure_name else (λ k. k)

module _ {W Reader Writer S3Body OssBucket OssBody : Type 0} (cfg : Viper)
    (remote : Remote W Reader S3Body OssBody) where
  -- What the services' documentation promises of every client that the command may make: the laws
  -- of the backends' contracts.
  pub record SdkLaws (sdk : Sdk W Reader Writer S3Body OssBucket OssBody) : Type 0 where
    pub base64 : Base64Laws sdk.base64
    pub gcs :
        (api : Gcs.Api W Reader Writer) (w : W)
        → (sdk.gcs_client w).0 ≡ ok api
        → GcsContract.ApiLaws api
            (cfg.get_string "google-cloud-storage-bucket")
            (remote.gcs_object (cfg.get_string "google-cloud-storage-bucket"))
            remote.gcs_contents
    pub google :
        (client : String) (api : Google.GoogleApi W) (w : W)
        → (sdk.cloudkms client w).0 ≡ ok api
        → GoogleLaws sdk.base64 api
            (key_path_of cfg)
            (remote.google_opens (key_path_of cfg))
            (gcs_below cfg remote)
    pub s3 :
        S3Contract.ApiLaws
          (sdk.s3_client (cfg.get_string "aws-s3-region"))
          (cfg.get_string "aws-s3-bucket")
          (remote.s3_object (cfg.get_string "aws-s3-region") (cfg.get_string "aws-s3-bucket"))
          remote.s3_contents
    pub aws :
        AwsLaws
          (sdk.aws_kms (cfg.get_string "aws-kms-region"))
          (remote.aws_opens (cfg.get_string "aws-kms-region"))
          (s3_below cfg remote)
    pub azure :
        (api : Azure.Api W) (w : W)
        → (sdk.azure_client w).0 ≡ ok api
        → AzureContract.ApiLaws api
            (vault_url cfg)
            remote.azure_name
            (remote.azure_secret (vault_url cfg))
    pub oss :
        (id secret : String) (api : Oss.Api W OssBucket OssBody) (w : W)
        → (sdk.oss_client (cfg.get_string "alibaba-oss-endpoint") id secret w).0 ≡ ok api
        → OssContract.ApiLaws api
            (cfg.get_string "alibaba-oss-bucket")
            (remote.oss_object
              (cfg.get_string "alibaba-oss-endpoint")
              (cfg.get_string "alibaba-oss-bucket"))
            remote.oss_contents
    pub alibaba :
        (id secret : String) (api : Alibaba.AlibabaApi W) (w : W)
        → (sdk.alibaba_kms (cfg.get_string "alibaba-kms-region") id secret w).0 ≡ ok api
        → AlibabaLaws api
            (cfg.get_string "alibaba-kms-key-id")
            (remote.alibaba_opens
              (cfg.get_string "alibaba-kms-region")
              (cfg.get_string "alibaba-kms-key-id"))
            (oss_below cfg remote)
    pub k8s :
        (config : String) (api : K8s.Secrets W) (k : K8sStorage) (w : W)
        → (sdk.k8s.new_for_config config w).0 ≡ ok api
        → k.namespace ≡ cfg.get_string "k8s-secret-namespace"
        → k.secret ≡ cfg.get_string "k8s-secret-name"
        → SecretsLaws api k (
            remote.k8s_held
              (cfg.get_string "k8s-secret-namespace")
              (cfg.get_string "k8s-secret-name"))
