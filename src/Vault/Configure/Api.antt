-- ===== src/Vault/Configure/Api.antt =====
-- What Configure of pkg/vault/vault.go calls outside of the repository, as parameters: Sys() and
-- Logical() of hashicorp/vault/api, spf13/viper, spf13/cast, and the files and the environment of the
-- process. An error is its text.
use bank_vaults.Prelude.{String, Dict, List, Exec}
use bank_vaults.Vault.Configure.Values.{Value}

-- api.AuthMount, by its type
pub record AuthMount : Type 0 where
  pub type_of : String

pub record EnableAuthOptions : Type 0 where
  pub type_of : String

-- api.MountOutput, by its type
pub record MountOutput : Type 0 where
  pub type_of : String

pub record MountInput : Type 0 where
  pub type_of : String
  pub description : String
  pub plugin_name : String
  pub options : Dict String

pub record MountConfigInput : Type 0 where
  pub options : Dict String

pub record Admin (W : Type 0) : Type 0 where
  pub list_auth : Exec W String (Dict AuthMount)
  pub enable_auth : String → EnableAuthOptions → Exec W String (Unit {0})
  pub put_policy : String → String → Exec W String (Unit {0})
  pub list_mounts : Exec W String (Dict MountOutput)
  pub mount : String → MountInput → Exec W String (Unit {0})
  pub tune_mount : String → MountConfigInput → Exec W String (Unit {0})
  pub write : String → Dict Value → Exec W String (Unit {0})

-- viper.UnmarshalKey of the keys "auth", "policies" and "secrets", ioutil.ReadFile, os.Getenv,
-- cast.ToStringMap and cast.ToStringMapString
pub record Host (W : Type 0) : Type 0 where
  pub auth : Exec W String (List (Dict Value))
  pub policies : Exec W String (List (Dict String))
  pub secrets : Exec W String (List (Dict Value))
  pub read_file : String → Exec W String String
  pub getenv : String → W → String
  pub to_string_map : Value → Dict Value
  pub to_string_map_string : Value → Dict String
