-- ===== src/Operator/Spec.antt =====
-- The Vault custom resource of operator/pkg/apis/vault/v1alpha1/types.go and its accessors. A value
-- of the free-form configuration (interface{}) and the casts of spf13/cast are parameters.
use bank_vaults.Prelude.{
  String, Bool, false, ◌||◌, ℤ, Option, List, [], ◌∷◌, Result, ok, panic, Dict, lookup, ◌==◌,
  if◌then◌else◌,
}
use bank_vaults.Operator.Unsealing.{UnsealConfig, chosen_or}

-- spf13/cast, type assertions and JSON on interface{}; `none` is nil.
pub record Cast (Any : Type 0) : Type 0 where
  pub to_string_map : Option Any → Dict Any
  pub to_bool : Option Any → Bool
  pub as_string : Option Any → Option String
  pub of_map : Dict Any → Any
  pub of_string : String → Any
  pub marshal : Dict Any → String

pub record CredentialsConfig : Type 0 where
  pub env : String
  pub path : String
  pub secret_name : String

pub record VaultSpec (Any : Type 0) : Type 0 where
  pub size : ℤ
  pub image : String
  pub bank_vaults_image : String
  pub config : Dict Any
  pub external_config : Dict Any
  pub unseal_config : UnsealConfig
  pub credentials_config : CredentialsConfig

-- The CR: its type and object metadata, its spec, and `Nodes` of its status.
pub record VaultCr (Any : Type 0) : Type 0 where
  pub api_version : String
  pub kind : String
  pub name : String
  pub namespace : String
  pub uid : String
  pub spec : VaultSpec Any
  pub nodes : List String

unfoldable pub ha_storage_types : List String
ha_storage_types = "consul" ∷ "dynamodb" ∷ "etcd" ∷ "gcs" ∷ "spanner" ∷ "zookeeper" ∷ []

unfoldable pub is_ha_type : String → List String → Bool
is_ha_type t [] = false
is_ha_type t (s ∷ ss) = (s == t) || is_ha_type t ss

-- MapKeys()[0]; it panics on an empty map. Go leaves the order of the keys open, and may take another
-- one at each call: the order here is one, that of the list, so that the model is of stanzas with one
-- type of storage, as Vault asks for, or of runs in which every call meets the same key first.
first_key : {Any : Type 0} → Dict Any → Result String String
first_key [] = panic "index out of range"
first_key ((k, x) ∷ m) = ok k

module _ {Any : Type 0} (cast : Cast Any) (spec : VaultSpec Any) where
  -- `getStorage`, and `GetStorage` for the type that `GetStorageType` answered
  unfoldable pub all_storage : Dict Any
  all_storage = cast.to_string_map (lookup "storage" spec.config)

  unfoldable pub get_storage_type : Result String String
  unfolding first_key all_storage
  get_storage_type = first_key all_storage

  unfoldable pub get_storage : String → Dict Any
  unfolding all_storage
  get_storage storage_type = cast.to_string_map (lookup storage_type all_storage)

  has_storage_ha_enabled : String → Bool
  unfolding get_storage
  has_storage_ha_enabled storage_type =
      (storage_type == "consul") || cast.to_bool (lookup "ha_enabled" (get_storage storage_type))

  unfoldable pub has_ha_storage : String → Bool
  unfolding has_storage_ha_enabled is_ha_type ha_storage_types
  has_ha_storage storage_type =
      if is_ha_type storage_type ha_storage_types
      then has_storage_ha_enabled storage_type
      else false

  unfoldable pub get_bank_vaults_image : String
  unfolding chosen_or
  get_bank_vaults_image = chosen_or spec.bank_vaults_image "banzaicloud/bank-vaults:latest"

  unfoldable pub config_json : String
  config_json = cast.marshal spec.config

  unfoldable pub external_config_json : String
  external_config_json = cast.marshal spec.external_config
