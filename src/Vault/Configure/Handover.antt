-- ===== src/Vault/Configure/Handover.antt =====
-- `Init` and `Configure` of pkg/vault/vault.go, one after the other.
use bank_vaults.Prelude.{String, true, false, ℕ, Option, some, ok, ◌≡◌, refl, deferred, ◌>>=◌}
use bank_vaults.Kv.Spec.{Faithful, Reliable}
use bank_vaults.Vault.{Vault}
use bank_vaults.Vault.Api.{InitResponse}
use bank_vaults.Vault.Keys.{root_token_key}
use bank_vaults.Vault.Init.{init}
use bank_vaults.Vault.Init.Keeps.{Quiet}
use bank_vaults.Vault.Init.Stores.{Answered, init_stores}
use bank_vaults.Vault.Configure.Api.{Admin, Host}
use bank_vaults.Vault.Configure.{configure_all, configure}

module _ {W : Type 0} (admin : Admin W) (host : Host W) (v : Vault W) (sleep : W → W)
    (view : W → String → Option String) (faithful : Faithful v.key_store view)
    (reliable : Reliable v.key_store view) (quiet : Quiet v sleep view) where
  -- `Configure` with a token in the store: it runs with this token, which it then clears.
  configure_with :
      (w : W) (t : String)
      → view w root_token_key ≡ some t
      → configure admin host v w
        ≡ deferred
            (v.cl.set_token "")
            (configure_all admin host)
            (v.cl.set_token t (v.key_store.get root_token_key w).1)
  unfolding configure ◌>>=◌
  configure_with w t h = rw (reliable.reads root_token_key t w h) refl

  -- Over a store that keeps its contract and whose reads do not fail: if `Init` of a server that is
  -- not initialized returns without an error and the root token is to be stored, then `Configure`
  -- after it runs with the root token of the server's response to `Init` and then clears it. This is
  -- so for a requested root token too, for which Init has revoked the token of the response.
  pub init_then_configure :
      (fuel : ℕ) (w w' : W)
      → (v.cl.init_status w).0 ≡ ok false
      → v.config.store_root_token ≡ true
      → init v sleep fuel w ≡ some (ok tt, w')
      → (resp : InitResponse) × Answered v sleep view faithful quiet resp
        × (configure admin host v w'
            ≡ deferred
                (v.cl.set_token "")
                (configure_all admin host)
                (v.cl.set_token resp.root_token (v.key_store.get root_token_key w').1))
  init_then_configure fuel w w' fresh stored done =
      let (resp, answered, _, root) =
        init_stores v sleep view faithful quiet fuel w w' fresh done in
      (resp, answered, configure_with w' resp.root_token (root stored))
