-- ===== src/Vault/Api.antt =====
-- The parts of hashicorp/vault/api that pkg/vault/vault.go calls: Sys(), Auth().Token() and the
-- client's token. Each is a parameter; an error of the API is its text.
use bank_vaults.Prelude.{String, Bool, ℕ, ℤ, List, Exec}

pub record SealStatus : Type 0 where
  pub sealed : Bool
  pub progress : ℕ

pub record InitRequest : Type 0 where
  pub secret_shares : ℤ
  pub secret_threshold : ℤ

pub record InitResponse : Type 0 where
  pub keys : List String
  pub root_token : String

pub record TokenCreateRequest : Type 0 where
  pub id : String
  pub policies : List String
  pub display_name : String
  pub no_parent : Bool

pub record Client (W : Type 0) : Type 0 where
  pub seal_status : Exec W String SealStatus
  pub unseal : String → Exec W String SealStatus
  pub init_status : Exec W String Bool
  pub init : InitRequest → Exec W String InitResponse
  pub set_token : String → W → W
  pub create_orphan : TokenCreateRequest → Exec W String (Unit {0})
  pub revoke_self : String → Exec W String (Unit {0})
