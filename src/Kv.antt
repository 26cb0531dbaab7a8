-- ===== src/Kv.antt =====
-- pkg/kv/kv.go: the errors of a key store and the interface that every backend implements. What a
-- key store promises is in Kv/Spec; the backends of pkg/kv are the other children.
pub mod Spec
pub mod Dev
pub mod K8s
pub mod S3
pub mod Gcs
pub mod Oss
pub mod Azure
pub mod Kms
pub mod Memory
use bank_vaults.Prelude.{String, Exec}

-- `*NotFoundError`, and every other Go error; each carries its text.
pub data Error : Type 0 where
  not_found plain : String → Error

-- err.Error()
abbrev pub message : Error → String
message (not_found m) = m
message (plain m) = m

-- kv.Service. Its calls act on the world `W`: the remote store and all else that a call may change.
pub record Service (W : Type 0) : Type 0 where
  pub set : String → String → Exec W Error Unit
  pub get : String → Exec W Error String
  pub test : String → Exec W Error Unit
