-- ===== src/Cli/Init.antt =====
-- cmd/bank-vaults/init.go: the command that initializes the server once. The fuel is that of Init's
-- wait; an error is the text with which `logrus.Fatalf` exits.
use bank_vaults.Prelude.{String, ℕ, Option, none, some, Exec, Result, ok, err, panic, wrapped}
use bank_vaults.Kv.{Error}
use bank_vaults.Vault.{Vault}
use bank_vaults.Vault.Api.{Client}
use bank_vaults.Vault.Init.{init}
use bank_vaults.Cli.Flags.{Viper}
use bank_vaults.Cli.Stores.{Sdk, because}
use bank_vaults.Cli.Setup.{vault_for_config}

module _ {W : Type 0} (sleep : W → W) (fuel : ℕ) where
  -- What the command makes of the result of `Init`.
  initialised : Option (Result Error (Unit {0}) × W) → Option (Result Error (Unit {0}) × W)
  initialised none = none
  initialised (some (r, w)) = some (wrapped (because "error initialising vault: ") r, w)

  run_init : Result Error (Vault W) → W → Option (Result Error (Unit {0}) × W)
  unfolding initialised
  run_init (ok v) w = initialised (init v sleep fuel w)
  run_init (err e) w = some (err e, w)
  run_init (panic s) w = some (panic s, w)

module _ {W Reader Writer S3Body OssBucket OssBody : Type 0}
    (sdk : Sdk W Reader Writer S3Body OssBucket OssBody) (new_client : Exec W String (Client W))
    (sleep : W → W) (fuel : ℕ) where
  unfoldable pub init_command : Viper → W → Option (Result Error (Unit {0}) × W)
  unfolding run_init
  init_command cfg w =
      let (r, w') = vault_for_config sdk new_client cfg w in run_init sleep fuel r w'
