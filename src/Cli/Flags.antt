-- ===== src/Cli/Flags.antt =====
-- The flags that cmd/bank-vaults/main.go registers, and what viper answers for them.
use bank_vaults.Prelude.{String, Bool, ℤ, pos, List, [], ◌∷◌}

-- viper.Viper: a flag's value, the environment's, or the default.
pub record Viper : Type 0 where
  pub get_string : String → String
  pub get_int : String → ℤ
  pub get_bool : String → Bool

-- configStringVar's keys and defaults, in the order of `init`
unfoldable pub string_flags : List (String × String)
string_flags =
    ("mode", "google-cloud-kms-gcs")
    ∷ ("google-cloud-kms-project", "")
    ∷ ("google-cloud-kms-location", "")
    ∷ ("google-cloud-kms-key-ring", "")
    ∷ ("google-cloud-kms-crypto-key", "")
    ∷ ("google-cloud-storage-bucket", "")
    ∷ ("google-cloud-storage-prefix", "")
    ∷ ("aws-kms-region", "")
    ∷ ("aws-kms-key-id", "")
    ∷ ("aws-s3-bucket", "")
    ∷ ("aws-s3-prefix", "")
    ∷ ("aws-s3-region", "us-east-1")
    ∷ ("azure-key-vault-name", "")
    ∷ ("alibaba-access-key-id", "")
    ∷ ("alibaba-access-key-secret", "")
    ∷ ("alibaba-kms-region", "")
    ∷ ("alibaba-kms-key-id", "")
    ∷ ("alibaba-oss-endpoint", "")
    ∷ ("alibaba-oss-bucket", "")
    ∷ ("alibaba-oss-prefix", "")
    ∷ ("k8s-secret-namespace", "")
    ∷ ("k8s-secret-name", "")
    ∷ []

-- configIntVar's
unfoldable pub int_flags : List (String × ℤ)
int_flags = ("secret-shares", pos 5) ∷ ("secret-threshold", pos 3) ∷ []
