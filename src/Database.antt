-- ===== src/Database.antt =====
-- database/database.go: DynamicSecretDataSource, which fetches database credentials from Vault. The
-- client of vault/vault.go is a part of the program (Renewal); here the calls of it are parameters,
-- with the Read and NewRenewer of hashicorp/vault/api. An error is its text.
pub mod Credentials
mod Tests
use package.text.Mathlib.Text.{starts_with}
use Prim.Native.String.{slice, len}
use bank_vaults.Prelude.{
  String, Bool, true, false, ℕ, Option, none, some, List, [], ◌∷◌, Exec, Result, ok, err, panic,
  pure, fail, lift, effect, map_err, ◌>>=◌, ◌>>◌, split, concat, if◌then◌else◌, Dict,
}
use bank_vaults.Vault.Configure.Values.{Value, as_string, at}

-- vault.NewClient, Vault().Logical().Read, which may answer no secret, Vault().NewRenewer, the start
-- of the renewer's goroutine, and Close
pub record Server (W : Type 0) : Type 0 where
  pub new_client : String → Exec W String (Unit {0})
  pub read : String → Exec W String (Option (Dict Value))
  pub new_renewer : Exec W String (Unit {0})
  pub renew : W → W
  pub close : W → W

-- strings.HasPrefix and strings.TrimPrefix
unfoldable pub trim_prefix : String → String → String
trim_prefix s start = if starts_with s start then slice s (len start) (len s) else s

-- The parts of the source: exactly two.
unfoldable pub two_parts : List String → Option (String × String)
two_parts (role ∷ address ∷ []) = some (role, address)
two_parts _ = none

-- github.com/pkg/errors.Wrap
unfoldable pub wrap : String → String → String
wrap words e = concat (words ∷ ": " ∷ e ∷ [])

module _ {W : Type 0} (server : Server W) where
  -- `if err != nil { vaultClient.Close(); ... }`
  closing_on_error : Result String (Unit {0}) → Exec W String (Unit {0})
  closing_on_error (ok u) = pure u
  closing_on_error (err e) = do
    effect server.close
    fail (wrap "failed to start db credential renewer" e)
  closing_on_error (panic s) = lift (panic s)

  start_renewer : Exec W String (Unit {0})
  unfolding closing_on_error
  start_renewer w = let (r, w') = server.new_renewer w in closing_on_error r w'

  -- The source that is returned.
  data_source : Bool → String → String → Dict Value → Exec W String String
  data_source postgresql source address secret = do
    username ← lift (as_string (at "username" secret))
    password ← lift (as_string (at "password" secret))
    pure (
        if postgresql
        then concat ("postgresql://" ∷ source ∷ [])
        else concat (username ∷ ":" ∷ password ∷ "@" ∷ address ∷ []))

  with_secret : Bool → String → String → String → Option (Dict Value) → Exec W String String
  unfolding start_renewer data_source
  with_secret postgresql source endpoint address none =
      fail (concat ("failed to find '" ∷ endpoint ∷ "' secret in vault" ∷ []))
  with_secret postgresql source endpoint address (some secret) = do
    start_renewer
    effect server.renew
    data_source postgresql source address secret

  with_parts : Bool → String → Option (String × String) → Exec W String String
  unfolding with_secret
  with_parts postgresql source none = fail "invalid database source"
  with_parts postgresql source (some (role, address)) = do
    let endpoint = concat ("database/creds/" ∷ role ∷ [])
    map_err (wrap "failed to establish vault connection") (server.new_client role)
    secret ← map_err (wrap "failed to read db credentials") (server.read endpoint)
    with_secret postgresql source endpoint address secret

  -- `dialect` is not looked at.
  unfoldable pub dynamic_secret_data_source : String → String → Exec W String String
  unfolding with_parts trim_prefix two_parts
  dynamic_secret_data_source dialect full =
      let postgresql = starts_with full "postgresql://" in
      let source = trim_prefix full "postgresql://" in
      with_parts postgresql source (two_parts (split "@" source))
