-- ===== src/Cli/Unseal/Rounds.antt =====
-- The rounds of the loop of cmd/bank-vaults/unseal.go: what one achieves.
use bank_vaults.Prelude.{
  String, Bool, true, false, ℕ, ◌<◌, Option, some, List, [], ok, if◌then◌else◌, ◌≡◌, ◌≢◌, refl,
}
use bank_vaults.Kv.Spec.{Reliable}
use bank_vaults.Vault.{Vault, sealed}
use bank_vaults.Vault.Api.{SealStatus}
use bank_vaults.Vault.Keys.{unseal_key_for_id}
use bank_vaults.Vault.Unseal.Progress.{Protocol, Separate, unseal_succeeds}
use bank_vaults.Cli.Unseal.{exits, goes_on, exit_if_necessary, unsealed, checked, check, round}

module _ {W : Type 0} (v : Vault W) (sleep : W → W) (view : W → String → Option String)
    (reliable : Reliable v.key_store view) (IsShare : String → Type 0) (threshold : ℕ)
    (is_sealed : W → Bool) (entered : W → List String)
    (protocol : Protocol v.cl IsShare threshold is_sealed entered)
    (separate : Separate v view is_sealed entered) (share : ℕ → String)
    (shares : (j : ℕ) → j < threshold → IsShare (share j))
    (differ : (i j : ℕ) → j < i → i < threshold → share i ≢ share j) where
  -- If the server follows the unseal protocol and reports that it is sealed, no share is entered,
  -- reads of the store do not fail, and it holds different shares of the key under the first
  -- `threshold` names, then a round without `Init` leaves the server unsealed; it goes on, or with
  -- `--once` exits with 0.
  pub round_unseals :
      (run_once : Bool) (w : W) (resp : SealStatus)
      → 0 < threshold
      → v.cl.seal_status w ≡ (ok resp, w)
      → resp.sealed ≡ true
      → is_sealed w ≡ true
      → entered w ≡ []
      → ((j : ℕ) → j < threshold → view w (unseal_key_for_id j) ≡ some (share j))
      → (w' : W) × (round v sleep threshold run_once false w
          ≡ some (if run_once then exits 0 else goes_on false, w'))
        × (is_sealed w' ≡ false)
  unfolding round check sealed checked unsealed exit_if_necessary
  round_unseals run_once w resp positive reported closed locked none_entered kept =
      let (w', done, opened) =
        unseal_succeeds v view reliable IsShare threshold is_sealed entered protocol separate share
          shares differ w positive locked none_entered kept in
      (w', rw (reported, closed, done) refl, opened)
