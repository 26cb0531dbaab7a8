-- ===== src/Vault/Configure.antt =====
-- Configure of pkg/vault/vault.go: with the root token of the key store it enables and configures the
-- auth methods, the policies and the secret engines of the configuration. An error is its text.
pub mod Values
pub mod Api
pub mod Auths
pub mod Policies
pub mod Engines
pub mod Token
mod Tests
pub mod Mounts
pub mod Handover
use bank_vaults.Prelude.{
  String, [], ◌∷◌, Exec, effect, map_err, ◌>>=◌, ◌>>◌, for_each, deferred, concat,
}
use bank_vaults.Kv.{message}
use bank_vaults.Vault.{Vault}
use bank_vaults.Vault.Keys.{root_token_key}
use Api.{Admin, Host}
use Auths.{prefixed, configure_auth}
use Policies.{configure_policies}
use Engines.{configure_secret_engines}

module _ {W : Type 0} (admin : Admin W) (host : Host W) where
  -- What runs with the root token.
  unfoldable pub configure_all : Exec W String (Unit {0})
  unfolding configure_auth configure_policies configure_secret_engines
  configure_all = do
    existing ← map_err (prefixed "error listing auth backends vault") admin.list_auth
    methods ← map_err (prefixed "error unmarshalling vault auth methods config") host.auth
    for_each (configure_auth admin host existing) methods
    map_err (prefixed "error configuring policies for vault") (configure_policies admin host)
    map_err (prefixed "error configuring secret engines for vault")
        (configure_secret_engines admin host)

  -- The token is cleared however the call ends, once it has been set.
  unfoldable pub configure : Vault W → Exec W String (Unit {0})
  unfolding configure_all
  configure v = do
    root_token ←
        map_err (λ e. concat ("unable to get key '" ∷ root_token_key ∷ "': " ∷ message e ∷ []))
          (v.key_store.get root_token_key)
    effect (v.cl.set_token root_token)
    deferred (v.cl.set_token "") configure_all
