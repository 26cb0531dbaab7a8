-- ===== src/Vault.antt =====
-- pkg/vault/vault.go: the helper that initializes, unseals and configures a Vault server with the
-- help of a key store. The server's client (hashicorp/vault/api) is a parameter.
pub mod Api
pub mod Keys
pub mod Unseal
pub mod Init
pub mod Configure
mod Tests
use bank_vaults.Prelude.{
  String, Bool, ℤ, ltb_ℤ, Option, none, some, Exec, Result, ok, err, panic, if◌then◌else◌, [], ◌∷◌,
  concat,
}
use bank_vaults.Kv.{Service, Error, plain}
use Api.{Client, SealStatus}

pub record Config : Type 0 where
  pub secret_shares : ℤ
  pub secret_threshold : ℤ
  pub init_root_token : String
  pub store_root_token : Bool

pub record Vault (W : Type 0) : Type 0 where
  pub key_store : Service W
  pub cl : Client W
  pub config : Config

-- The pair `(bool, error)` that `Sealed` returns: not sealed where the status cannot be read.
seal_answer : Result String SealStatus → Result Error (Bool × Option Error)
seal_answer (ok resp) = ok (resp.sealed, none)
seal_answer (err e) = ok (Bool.false, some (plain (concat ("error checking status: " ∷ e ∷ []))))
seal_answer (panic s) = panic s

module _ {W : Type 0} where
  pub new : Service W → Client W → Config → Result Error (Vault W)
  new k cl config =
      if ltb_ℤ config.secret_shares config.secret_threshold
      then err (plain "the secret threshold can't be bigger than the shares")
      else ok (record { key_store = k; cl = cl; config = config })

  unfoldable pub sealed : Vault W → Exec W Error (Bool × Option Error)
  unfolding seal_answer
  sealed v w = let (r, w') = v.cl.seal_status w in (seal_answer r, w')
