-- ===== src/Vault/Configure/Policies.antt =====
-- configurePolicies of pkg/vault/vault.go.
pub mod Merged
use bank_vaults.Prelude.{
  String, none, some, Dict, lookup, [], ◌∷◌, Exec, map_err, ◌>>=◌, for_each, concat,
}
use bank_vaults.Vault.Configure.Api.{Admin, Host}
use bank_vaults.Vault.Configure.Auths.{prefixed}

-- m[k] of a map[string]string
pub text_at : String → Dict String → String
text_at key m = elim (lookup key m) [ none ↦ "" | some t ↦ t ]

module _ {W : Type 0} (admin : Admin W) where
  pub put_policy : Dict String → Exec W String (Unit {0})
  unfolding text_at
  put_policy policy =
      map_err
        (prefixed (concat ("error putting " ∷ text_at "name" policy ∷ " policy into vault" ∷ [])))
        (admin.put_policy (text_at "name" policy) (text_at "rules" policy))

  unfoldable pub configure_policies : Host W → Exec W String (Unit {0})
  unfolding put_policy
  configure_policies host = do
    policies ← map_err (prefixed "error unmarshalling vault policy config") host.policies
    for_each put_policy policies
