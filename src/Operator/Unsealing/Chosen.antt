-- ===== src/Operator/Unsealing/Chosen.antt =====
-- The key store that cmd/bank-vaults/util.go makes of the operator's flags.
use bank_vaults.Prelude.{
  String, ◌||◌, Option, none, some, List, [], ◌∷◌, Exec, fail, map_err, ◌>>=◌, concat, ◌==◌,
  if◌then◌else◌, ◌≡◌, refl,
}
use bank_vaults.Kv.{Service, Error, plain}
use bank_vaults.Kv.K8s
use bank_vaults.Kv.S3
use bank_vaults.Kv.Gcs
use bank_vaults.Kv.Oss
use bank_vaults.Kv.Azure
use bank_vaults.Kv.Kms.Aws
use bank_vaults.Kv.Kms.Alibaba
use bank_vaults.Kv.Kms.Google
use bank_vaults.Operator.Unsealing.{
  UnsealConfig, KubernetesUnsealConfig, GoogleUnsealConfig, AzureUnsealConfig, AwsUnsealConfig,
  AlibabaUnsealConfig, VaultMeta, to_args, args_of, chosen_or, kubernetes_args, google_args,
  aws_args, azure_args, alibaba_args,
}
use bank_vaults.Cli.Flags.{Viper}
use bank_vaults.Cli.Stores.{Sdk, because, kv_store_for_config}

-- What cobra and viper document of arguments in pairs: a flag's value is the argument behind it.
abbrev pub Reads : Viper → List String → Type 0
Reads v [] = Unit
Reads v (flag ∷ []) = Unit
Reads v (flag ∷ val ∷ args) =
    ((name : String) → flag ≡ concat ("--" ∷ name ∷ []) → v.get_string name ≡ val) × Reads v args

module _ {W Reader Writer S3Body OssBucket OssBody : Type 0}
    (sdk : Sdk W Reader Writer S3Body OssBucket OssBody) (v : Viper) (vault : VaultMeta) where
  -- The store that an unseal configuration names; without one it is Google's, of whatever flags are
  -- set otherwise.
  abbrev pub named :
      Option KubernetesUnsealConfig
      → Option GoogleUnsealConfig
      → Option AzureUnsealConfig
      → Option AwsUnsealConfig
      → Option AlibabaUnsealConfig
      → Exec W Error (Service W)
  named (some c) google azure aws alibaba =
      map_err (because "error creating K8S Secret kv store: ") (
        K8s.new sdk.k8s (chosen_or c.secret_namespace vault.namespace)
          (chosen_or c.secret_name (concat (vault.name ∷ "-unseal-keys" ∷ []))))
  named none (some c) azure aws alibaba = do
    g ←
        map_err (because "error creating google cloud storage kv store: ")
          (Gcs.new sdk.gcs_client c.storage_bucket (v.get_string "google-cloud-storage-prefix"))
    map_err (because "error creating google cloud kms kv store: ") (
        Google.new sdk.base64 sdk.google_client sdk.cloudkms g c.kms_project c.kms_location
          c.kms_key_ring c.kms_crypto_key)
  named none none (some c) aws alibaba =
      map_err (because "error creating Azure Key Vault kv store: ")
        (Azure.new sdk.azure_client c.key_vault_name)
  named none none none (some c) alibaba = do
    s3 ←
        map_err (because "error creating AWS S3 kv store: ")
          (S3.new sdk.s3_client c.s3_region c.s3_bucket c.s3_prefix)
    map_err (because "error creating AWS KMS kv store: ")
        (Aws.new sdk.aws_kms s3 c.kms_region c.kms_key_id)
  named none none none none (some c) =
      let access_key_id = v.get_string "alibaba-access-key-id" in
      let access_key_secret = v.get_string "alibaba-access-key-secret" in
      if (access_key_id == "") || (access_key_secret == "")
      then fail (plain "Alibaba accessKeyID or accessKeySecret can't be empty")
      else if c.oss_bucket == ""
      then fail (plain "Alibaba OSS bucket should be specified")
      else (do
        oss ← map_err (because "error creating Alibaba OSS kv store: ") (
            Oss.new sdk.oss_client c.oss_endpoint access_key_id access_key_secret c.oss_bucket
              c.oss_prefix)
        map_err (because "error creating Alibaba KMS kv store: ") (
            Alibaba.new sdk.alibaba_kms c.kms_region access_key_id access_key_secret c.kms_key_id
              oss))
  named none none none none none = kv_store_for_config sdk v

  args_of-named :
      (k : Option KubernetesUnsealConfig) (g : Option GoogleUnsealConfig)
      (z : Option AzureUnsealConfig) (a : Option AwsUnsealConfig) (b : Option AlibabaUnsealConfig)
      → Reads v (args_of vault k g z a b)
      → kv_store_for_config sdk v ≡ named k g z a b
  unfolding args_of kubernetes_args google_args aws_args azure_args alibaba_args kv_store_for_config
  args_of-named (some c) g z a b h =
      rw (h.0 "mode" refl, h.1.0 "k8s-secret-namespace" refl, h.1.1.0 "k8s-secret-name" refl) refl
  args_of-named none (some c) z a b h =
      rw
        (
          h.0 "mode" refl,
          h.1.0 "google-cloud-kms-key-ring" refl,
          h.1.1.0 "google-cloud-kms-crypto-key" refl,
          h.1.1.1.0 "google-cloud-kms-location" refl,
          h.1.1.1.1.0 "google-cloud-kms-project" refl,
          h.1.1.1.1.1.0 "google-cloud-storage-bucket" refl,
        )
        refl
  args_of-named none none (some c) a b h =
      rw (h.0 "mode" refl, h.1.0 "azure-key-vault-name" refl) refl
  args_of-named none none none (some c) b h =
      rw
        (
          h.0 "mode" refl,
          h.1.0 "aws-kms-key-id" refl,
          h.1.1.0 "aws-kms-region" refl,
          h.1.1.1.0 "aws-s3-bucket" refl,
          h.1.1.1.1.0 "aws-s3-prefix" refl,
          h.1.1.1.1.1.0 "aws-s3-region" refl,
        )
        refl
  args_of-named none none none none (some c) h =
      rw
        (
          h.0 "mode" refl,
          h.1.0 "alibaba-kms-region" refl,
          h.1.1.0 "alibaba-kms-key-id" refl,
          h.1.1.1.0 "alibaba-oss-endpoint" refl,
          h.1.1.1.1.0 "alibaba-oss-bucket" refl,
          h.1.1.1.1.1.0 "alibaba-oss-prefix" refl,
        )
        refl
  args_of-named none none none none none h = refl

  -- If viper reads the arguments that the operator passes, then the command makes the store that
  -- the unseal configuration names, with every value in its place.
  pub to_args-named :
      (usc : UnsealConfig)
      → Reads v (to_args usc vault)
      → kv_store_for_config sdk v ≡ named usc.kubernetes usc.google usc.azure usc.aws usc.alibaba
  unfolding to_args
  to_args-named usc h = args_of-named usc.kubernetes usc.google usc.azure usc.aws usc.alibaba h
