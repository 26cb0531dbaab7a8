-- ===== src/Vault/Unseal.antt =====
-- `Unseal` of pkg/vault/vault.go: keys are read from the key store and sent to the server, from key
-- 0 on, until it answers that it is unsealed. The loop takes fuel; `none` means that it ran out.
pub mod Termination
pub mod Progress
use bank_vaults.Prelude.{
  ℕ, zero, suc, Option, none, some, Exec, Result, ok, err, panic, map_err, ◌>>=◌, if◌then◌else◌, [],
  ◌∷◌, concat, leb,
}
use bank_vaults.Kv.{Error, plain, message}
use bank_vaults.Vault.{Vault}
use bank_vaults.Vault.Api.{SealStatus}
use bank_vaults.Vault.Keys.{unseal_key_for_id}

module _ {W : Type 0} (v : Vault W) where
  -- One round up to the server's response.
  pub attempt : ℕ → Exec W Error SealStatus
  attempt i = do
    k ←
        map_err
          (λ e.
            plain (concat ("unable to get key '" ∷ unseal_key_for_id i ∷ "': " ∷ message e ∷ [])))
          (v.key_store.get (unseal_key_for_id i))
    map_err (λ e. plain (concat ("fail to send unseal request to vault: " ∷ e ∷ [])))
        (v.cl.unseal k)

  -- What the round does with it: return, or go on with the rest of the loop.
  pub settle :
      Result Error SealStatus
      → W
      → Option (Result Error (Unit {0}) × W)
      → Option (Result Error (Unit {0}) × W)
  settle (ok resp) w rest =
      if resp.sealed
      then (if leb resp.progress 0
          then some (err (plain "failed to unseal vault. progress reset to 0"), w)
          else rest)
      else some (ok tt, w)
  settle (err e) w rest = some (err e, w)
  settle (panic s) w rest = some (panic s, w)

  -- The loop from round `i` on.
  pub unseal_from : ℕ → ℕ → W → Option (Result Error (Unit {0}) × W)
  unfolding settle attempt
  unseal_from zero i w = none
  unseal_from (suc fuel) i w =
      let (r, w') = attempt i w in let rest = unseal_from fuel (suc i) w' in settle r w' rest

  unfoldable pub unseal : ℕ → W → Option (Result Error (Unit {0}) × W)
  unfolding unseal_from
  unseal fuel w = unseal_from fuel 0 w
