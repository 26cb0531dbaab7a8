-- ===== src/Operator/Unsealing.antt =====
-- The unseal configuration of operator/pkg/apis/vault/v1alpha1/types.go, and its translation to the
-- flags of the bank-vaults command.
pub mod Flags
pub mod Chosen
use bank_vaults.Prelude.{String, Option, none, some, List, [], ◌∷◌, concat, ◌==◌, if◌then◌else◌}

pub record KubernetesUnsealConfig : Type 0 where
  pub secret_namespace : String
  pub secret_name : String

pub record GoogleUnsealConfig : Type 0 where
  pub kms_key_ring : String
  pub kms_crypto_key : String
  pub kms_location : String
  pub kms_project : String
  pub storage_bucket : String

pub record AlibabaUnsealConfig : Type 0 where
  pub kms_region : String
  pub kms_key_id : String
  pub oss_endpoint : String
  pub oss_bucket : String
  pub oss_prefix : String

pub record AzureUnsealConfig : Type 0 where
  pub key_vault_name : String

pub record AwsUnsealConfig : Type 0 where
  pub kms_key_id : String
  pub kms_region : String
  pub s3_bucket : String
  pub s3_prefix : String
  pub s3_region : String

-- A pointer is `none` where it is nil.
pub record UnsealConfig : Type 0 where
  pub kubernetes : Option KubernetesUnsealConfig
  pub google : Option GoogleUnsealConfig
  pub alibaba : Option AlibabaUnsealConfig
  pub azure : Option AzureUnsealConfig
  pub aws : Option AwsUnsealConfig

-- The name and the namespace of a Vault's metadata.
pub record VaultMeta : Type 0 where
  pub name : String
  pub namespace : String

-- if chosen != "" { default = chosen }
unfoldable pub chosen_or : String → String → String
chosen_or chosen default = if chosen == "" then default else chosen

kubernetes_args : VaultMeta → KubernetesUnsealConfig → List String
unfolding chosen_or
kubernetes_args vault c =
    "--mode"
    ∷ "k8s"
    ∷ "--k8s-secret-namespace"
    ∷ chosen_or c.secret_namespace vault.namespace
    ∷ "--k8s-secret-name"
    ∷ chosen_or c.secret_name (concat (vault.name ∷ "-unseal-keys" ∷ []))
    ∷ []

google_args : GoogleUnsealConfig → List String
google_args c =
    "--mode" ∷ "google-cloud-kms-gcs" ∷ "--google-cloud-kms-key-ring" ∷ c.kms_key_ring
    ∷ "--google-cloud-kms-crypto-key" ∷ c.kms_crypto_key ∷ "--google-cloud-kms-location"
    ∷ c.kms_location ∷ "--google-cloud-kms-project" ∷ c.kms_project
    ∷ "--google-cloud-storage-bucket" ∷ c.storage_bucket ∷ []

azure_args : AzureUnsealConfig → List String
azure_args c = "--mode" ∷ "azure-key-vault" ∷ "--azure-key-vault-name" ∷ c.key_vault_name ∷ []

aws_args : AwsUnsealConfig → List String
aws_args c =
    "--mode" ∷ "aws-kms-s3" ∷ "--aws-kms-key-id" ∷ c.kms_key_id ∷ "--aws-kms-region" ∷ c.kms_region
    ∷ "--aws-s3-bucket" ∷ c.s3_bucket ∷ "--aws-s3-prefix" ∷ c.s3_prefix ∷ "--aws-s3-region"
    ∷ c.s3_region ∷ []

alibaba_args : AlibabaUnsealConfig → List String
alibaba_args c =
    "--mode" ∷ "alibaba-kms-oss" ∷ "--alibaba-kms-region" ∷ c.kms_region ∷ "--alibaba-kms-key-id"
    ∷ c.kms_key_id ∷ "--alibaba-oss-endpoint" ∷ c.oss_endpoint ∷ "--alibaba-oss-bucket"
    ∷ c.oss_bucket ∷ "--alibaba-oss-prefix" ∷ c.oss_prefix ∷ []

-- The first configuration that is there counts, in the order of the code.
pub args_of :
    VaultMeta
    → Option KubernetesUnsealConfig
    → Option GoogleUnsealConfig
    → Option AzureUnsealConfig
    → Option AwsUnsealConfig
    → Option AlibabaUnsealConfig
    → List String
unfolding kubernetes_args google_args azure_args aws_args alibaba_args
args_of vault (some c) google azure aws alibaba = kubernetes_args vault c
args_of vault none (some c) azure aws alibaba = google_args c
args_of vault none none (some c) aws alibaba = azure_args c
args_of vault none none none (some c) alibaba = aws_args c
args_of vault none none none none (some c) = alibaba_args c
args_of vault none none none none none = []

unfoldable pub to_args : UnsealConfig → VaultMeta → List String
unfolding args_of
to_args usc vault = args_of vault usc.kubernetes usc.google usc.azure usc.aws usc.alibaba
