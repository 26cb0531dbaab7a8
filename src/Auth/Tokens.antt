-- ===== src/Auth/Tokens.antt =====
-- auth/tokenstore.go: the token store's interface and its two implementations. A token's time of
-- creation is the text that the server gives it.
pub mod Memory
pub mod Server
use bank_vaults.Prelude.{String, Option, List, Exec}

-- `created_at` is `none` where the pointer is nil.
pub record Token : Type 0 where
  pub id : String
  pub name : String
  pub created_at : Option String

-- A lookup answers `none` for Go's nil pointer.
pub record TokenStore (W : Type 0) : Type 0 where
  pub store : String → Token → Exec W String Unit
  pub lookup : String → String → Exec W String (Option Token)
  pub revoke : String → String → Exec W String Unit
  pub list : String → Exec W String (List (Option Token))
