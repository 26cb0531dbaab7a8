-- ===== src/Vault/Configure/Token.antt =====
-- The token of the client after Configure of pkg/vault/vault.go.
use bank_vaults.Prelude.{
  String, Exec, Result, ok, err, panic, wrapped, effect, deferred, ◌>>=◌, continue, ◌≡◌, ◌∙◌, [],
  ◌∷◌, concat, ◌>>◌,
}
use bank_vaults.Kv.{Error, message}
use bank_vaults.Vault.{Vault}
use bank_vaults.Vault.Keys.{root_token_key}
use bank_vaults.Vault.Configure.Api.{Admin, Host}
use bank_vaults.Vault.Configure.{configure_all, configure}

module _ {W : Type 0} (admin : Admin W) (host : Host W) (v : Vault W) (token : W → String)
    (sets : (t : String) (w : W) → token (v.cl.set_token t w) ≡ t)
    (reads : (k : String) (w : W) → token (v.key_store.get k w).1 ≡ token w) where
  -- With a client whose token is the one set last and a store that leaves it alone: `Configure`
  -- leaves a client that had no token without one, whatever its result, a panic included.
  pub configure_clears_token : (w : W) → token w ≡ "" → token (configure admin host v w).1 ≡ ""
  unfolding configure deferred ◌>>=◌
  configure_clears_token w none_set = cleared (v.key_store.get root_token_key w).0
    where
      w' : W
      w' = (v.key_store.get root_token_key w).1

      use_token : String → Exec W String (Unit {0})
      use_token t =
          effect (v.cl.set_token t) >> deferred (v.cl.set_token "") (configure_all admin host)

      cleared :
          (r : Result Error String)
          → token
              (continue
                (wrapped
                  (λ e. concat ("unable to get key '" ∷ root_token_key ∷ "': " ∷ message e ∷ []))
                  r)
                use_token
                w').1
            ≡ ""
      cleared (ok t) = sets "" _
      cleared (err e) = reads root_token_key w ∙ none_set
      cleared (panic s) = reads root_token_key w ∙ none_set
