-- ===== src/Vault/Init/Handover.antt =====
-- `Init` and `Unseal` of pkg/vault/vault.go, one after the other.
use bank_vaults.Prelude.{
  String, Bool, true, false, ℕ, ◌<◌, Option, some, ok, List, [], ◌≡◌, ◌≢◌, get_elem?,
}
use bank_vaults.Kv.Spec.{Faithful, Reliable}
use bank_vaults.Vault.{Vault}
use bank_vaults.Vault.Api.{InitRequest, InitResponse}
use bank_vaults.Vault.Init.{init}
use bank_vaults.Vault.Init.Keeps.{Quiet}
use bank_vaults.Vault.Init.Stores.{init_stores}
use bank_vaults.Vault.Unseal.{unseal}
use bank_vaults.Vault.Unseal.Progress.{Protocol, Separate, Unseals, unseal_succeeds}

-- What a server's answer to an init request promises: at least `threshold` keys, which are
-- different shares of its key.
pub record Promises (resp : InitResponse) (IsShare : String → Type 0) (threshold : ℕ)
    (share : ℕ → String) : Type 0 where
  pub keys : (j : ℕ) → j < threshold → get_elem? resp.keys j ≡ some (share j)
  pub shares : (j : ℕ) → j < threshold → IsShare (share j)
  pub differ : (i j : ℕ) → j < i → i < threshold → share i ≢ share j

module _ {W : Type 0} (v : Vault W) (sleep : W → W) (view : W → String → Option String)
    (faithful : Faithful v.key_store view) (reliable : Reliable v.key_store view)
    (quiet : Quiet v sleep view) (IsShare : String → Type 0) (threshold : ℕ) (is_sealed : W → Bool)
    (entered : W → List String) (protocol : Protocol v.cl IsShare threshold is_sealed entered)
    (separate : Separate v view is_sealed entered) where
  -- Over a store that keeps its contract and does not fail, and a server that follows the unseal
  -- protocol: if `Init` of a server that is not initialized returns without an error, the server's
  -- answers promise `threshold` different shares, and the server is then sealed with no share
  -- entered, then `Unseal` succeeds within `threshold` rounds and leaves the server unsealed.
  pub init_then_unseal :
      (fuel : ℕ) (w w' : W) (share : InitResponse → ℕ → String)
      → 0 < threshold
      → ((r : InitRequest) (w0 : W) (resp : InitResponse)
          → (v.cl.init r w0).0 ≡ ok resp
          → Promises resp IsShare threshold (share resp))
      → (v.cl.init_status w).0 ≡ ok false
      → init v sleep fuel w ≡ some (ok tt, w')
      → is_sealed w' ≡ true
      → entered w' ≡ []
      → Unseals is_sealed (unseal v threshold w')
  init_then_unseal fuel w w' share positive promised fresh done locked none_entered =
      let (resp, (w0, answered), stored, _) =
        init_stores v sleep view faithful quiet fuel w w' fresh done in
      let p : Promises resp IsShare threshold (share resp) = promised _ w0 resp answered in
      unseal_succeeds v view reliable IsShare threshold is_sealed entered protocol separate
        (share resp) p.shares p.differ w' positive locked none_entered
        (λ j h. stored j (share resp j) (p.keys j h))
