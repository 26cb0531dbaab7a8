-- ===== src/Cli/Stores.antt =====
-- cmd/bank-vaults/util.go: the helper's configuration and the key store, by the flags.
pub mod Remote
pub mod Contract
mod Tests
use bank_vaults.Prelude.{
  String, ◌||◌, [], ◌∷◌, Exec, fail, map_err, ◌>>=◌, concat, ◌==◌, if◌then◌else◌,
}
use bank_vaults.Kv.{Service, Error, plain, message}
use bank_vaults.Kv.Dev
use bank_vaults.Kv.K8s
use bank_vaults.Kv.S3
use bank_vaults.Kv.Gcs
use bank_vaults.Kv.Oss
use bank_vaults.Kv.Azure
use bank_vaults.Kv.Kms.Aws
use bank_vaults.Kv.Kms.Alibaba
use bank_vaults.Kv.Kms.Google
use bank_vaults.Vault.{Config}
use bank_vaults.Cli.Flags.{Viper}

-- What the backends use of their SDKs and of the machine.
pub record Sdk (W Reader Writer S3Body OssBucket OssBody : Type 0) : Type 0 where
  pub gcs_client : Exec W String (Gcs.Api W Reader Writer)
  pub base64 : Google.Base64
  pub google_client : Exec W String String
  pub cloudkms : String → Exec W String (Google.GoogleApi W)
  pub s3_client : String → S3.Api W S3Body
  pub aws_kms : String → Aws.AwsApi W
  pub azure_client : Exec W String (Azure.Api W)
  pub oss_client : String → String → String → Exec W String (Oss.Api W OssBucket OssBody)
  pub alibaba_kms : String → String → String → Exec W String (Alibaba.AlibabaApi W)
  pub k8s : K8s.Setup W
  pub files : Dev.Files W

-- `fmt.Errorf(text + "%s", err.Error())`
abbrev pub because : String → Error → Error
because text e = plain (concat (text ∷ message e ∷ []))

unfoldable pub vault_config_for_config : Viper → Config
vault_config_for_config cfg = record {
  secret_shares = cfg.get_int "secret-shares";
  secret_threshold = cfg.get_int "secret-threshold";
  init_root_token = cfg.get_string "init-root-token";
  store_root_token = cfg.get_bool "store-root-token";
}

module _ {W Reader Writer S3Body OssBucket OssBody : Type 0}
    (sdk : Sdk W Reader Writer S3Body OssBucket OssBody) (cfg : Viper) where
  google_store : Exec W Error (Service W)
  google_store = do
    g ← map_err (because "error creating google cloud storage kv store: ") (
        Gcs.new sdk.gcs_client (cfg.get_string "google-cloud-storage-bucket")
          (cfg.get_string "google-cloud-storage-prefix"))
    map_err (because "error creating google cloud kms kv store: ") (
        Google.new sdk.base64 sdk.google_client sdk.cloudkms g
          (cfg.get_string "google-cloud-kms-project") (cfg.get_string "google-cloud-kms-location")
          (cfg.get_string "google-cloud-kms-key-ring")
          (cfg.get_string "google-cloud-kms-crypto-key"))

  aws_store : Exec W Error (Service W)
  aws_store = do
    s3 ← map_err (because "error creating AWS S3 kv store: ") (
        S3.new sdk.s3_client (cfg.get_string "aws-s3-region") (cfg.get_string "aws-s3-bucket")
          (cfg.get_string "aws-s3-prefix"))
    map_err (because "error creating AWS KMS kv store: ")
        (Aws.new sdk.aws_kms s3 (cfg.get_string "aws-kms-region") (cfg.get_string "aws-kms-key-id"))

  azure_store : Exec W Error (Service W)
  azure_store =
      map_err (because "error creating Azure Key Vault kv store: ")
        (Azure.new sdk.azure_client (cfg.get_string "azure-key-vault-name"))

  alibaba_clients : String → String → String → Exec W Error (Service W)
  alibaba_clients access_key_id access_key_secret bucket = do
    oss ← map_err (because "error creating Alibaba OSS kv store: ") (
        Oss.new sdk.oss_client (cfg.get_string "alibaba-oss-endpoint") access_key_id
          access_key_secret bucket (cfg.get_string "alibaba-oss-prefix"))
    map_err (because "error creating Alibaba KMS kv store: ") (
        Alibaba.new sdk.alibaba_kms (cfg.get_string "alibaba-kms-region") access_key_id
          access_key_secret (cfg.get_string "alibaba-kms-key-id") oss)

  alibaba_store : Exec W Error (Service W)
  unfolding alibaba_clients
  alibaba_store =
      let access_key_id = cfg.get_string "alibaba-access-key-id" in
      let access_key_secret = cfg.get_string "alibaba-access-key-secret" in
      let bucket = cfg.get_string "alibaba-oss-bucket" in
      if (access_key_id == "") || (access_key_secret == "")
      then fail (plain "Alibaba accessKeyID or accessKeySecret can't be empty")
      else if bucket == ""
      then fail (plain "Alibaba OSS bucket should be specified")
      else alibaba_clients access_key_id access_key_secret bucket

  k8s_store : Exec W Error (Service W)
  k8s_store =
      map_err (because "error creating K8S Secret kv store: ")
        (K8s.new sdk.k8s (cfg.get_string "k8s-secret-namespace") (cfg.get_string "k8s-secret-name"))

  dev_store : Exec W Error (Service W)
  dev_store = map_err (because "error creating Dev Secret kv store: ") (Dev.new sdk.files)

  unfoldable pub kv_store_for_config : Exec W Error (Service W)
  unfolding google_store aws_store azure_store alibaba_store k8s_store dev_store
  kv_store_for_config =
      let mode = cfg.get_string "mode" in
      if mode == "google-cloud-kms-gcs"
      then google_store
      else if mode == "aws-kms-s3"
      then aws_store
      else if mode == "azure-key-vault"
      then azure_store
      else if mode == "alibaba-kms-oss"
      then alibaba_store
      else if mode == "k8s"
      then k8s_store
      else if mode == "dev"
      then dev_store
      else fail (plain (concat ("Unsupported backend mode: '" ∷ mode ∷ "'" ∷ [])))
