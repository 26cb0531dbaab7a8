-- ===== src/Cli/Setup.antt =====
-- How the commands of cmd/bank-vaults build the helper: init.go, unseal.go and configure.go begin
-- alike. An error makes `logrus.Fatalf` exit with 1, after it has logged the error's text.
use bank_vaults.Prelude.{String, Exec, map_err, lift, ◌>>=◌, concat, [], ◌∷◌}
use bank_vaults.Kv.{Error, plain}
use bank_vaults.Vault.{Vault, new}
use bank_vaults.Vault.Api.{Client}
use bank_vaults.Cli.Flags.{Viper}
use bank_vaults.Cli.Stores.{Sdk, because, vault_config_for_config, kv_store_for_config}

module _ {W Reader Writer S3Body OssBucket OssBody : Type 0}
    (sdk : Sdk W Reader Writer S3Body OssBucket OssBody)
    (new_client : Exec W String (Client W)) where
  -- vaultConfigForConfig never returns an error.
  unfoldable pub vault_for_config : Viper → Exec W Error (Vault W)
  vault_for_config cfg = do
    store ← map_err (because "error creating kv store: ") (kv_store_for_config sdk cfg)
    cl ← map_err (λ e. plain (concat ("error connecting to vault: " ∷ e ∷ []))) new_client
    map_err (because "error creating vault helper: ")
        (lift (new store cl (vault_config_for_config cfg)))
