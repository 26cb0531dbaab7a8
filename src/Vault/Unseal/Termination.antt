-- ===== src/Vault/Unseal/Termination.antt =====
-- How many rounds the loop of `Unseal` (pkg/vault/vault.go) takes.
use bank_vaults.Prelude.{
  String, ℕ, zero, suc, ◌+◌, Option, none, Result, ok, err, panic, ◌>>=◌, ◌≡◌, ◌≢◌, refl, arith,
  subst, continue-eq-ok, wrapped-eq-ok,
}
use native.Mathlib.Nat.{zero-add, add-zero}
use bank_vaults.Kv.{Error}
use bank_vaults.Kv.Spec.{Faithful}
use bank_vaults.Vault.{Vault}
use bank_vaults.Vault.Api.{SealStatus}
use bank_vaults.Vault.Keys.{unseal_key_for_id}
use bank_vaults.Vault.Unseal.{attempt, settle, unseal_from, unseal}

module _ {W : Type 0} (v : Vault W) (view : W → String → Option String)
    (faithful : Faithful v.key_store view)
    (unseal_keeps : (k j : String) (w : W) → view (v.cl.unseal k w).1 j ≡ view w j) where
  attempt_keeps : (i : ℕ) (j : String) (w : W) → view (attempt v i w).1 j ≡ view w j
  unfolding attempt ◌>>=◌
  attempt_keeps i j w = grind (arith, faithful.get_keeps, unseal_keeps)

  -- A round for a key that the store does not have ends the loop.
  attempt_absent :
      (i : ℕ) (w : W) (resp : SealStatus)
      → view w (unseal_key_for_id i) ≡ none
      → (attempt v i w).0 ≢ ok resp
  unfolding attempt ◌>>=◌
  attempt_absent i w resp absent h =
      let (k, read, _) = continue-eq-ok _ _ _ h in
      ground (arith, absent, faithful.got (unseal_key_for_id i) k w (wrapped-eq-ok _ _ read))

  settle_goes_on :
      (r : Result Error SealStatus) (w : W) (rest : Option (Result Error (Unit {0}) × W))
      → rest ≢ none
      → settle v r w rest ≢ none
  unfolding settle
  settle_goes_on (ok resp) w rest h e = ground arith
  settle_goes_on (err x) w rest h e = cc
  settle_goes_on (panic x) w rest h e = cc

  settle_stops :
      (r : Result Error SealStatus) (w : W) (rest : Option (Result Error (Unit {0}) × W))
      → ((resp : SealStatus) → r ≢ ok resp)
      → settle v r w rest ≢ none
  unfolding settle
  settle_stops (ok resp) w rest h e = h resp refl
  settle_stops (err x) w rest h e = cc
  settle_stops (panic x) w rest h e = cc

  unseal_from-ne-none :
      (d i : ℕ) (w : W)
      → view w (unseal_key_for_id (d + i)) ≡ none
      → unseal_from v (suc d) i w ≢ none
  unfolding unseal_from
  unseal_from-ne-none zero i w absent =
      settle_stops (attempt v i w).0 (attempt v i w).1 _
        λ resp. attempt_absent i w resp (rw (zero-add i) at absent)
  unseal_from-ne-none (suc d) i w absent =
      settle_goes_on (attempt v i w).0 (attempt v i w).1 _
        (unseal_from-ne-none d (suc i) (attempt v i w).1 later)
    where
      later : view (attempt v i w).1 (unseal_key_for_id (d + suc i)) ≡ none
      later =
          rw (attempt_keeps i _ w)
            (subst (λ n. view w (unseal_key_for_id n) ≡ none) (omega arith) absent)

  -- Over a key store that keeps its contract, and a server that leaves it alone, `Unseal` returns:
  -- if the store has no key with the index `n`, then `n + 1` rounds are enough, whatever the server
  -- answers.
  pub unseal_terminates :
      (n : ℕ) (w : W) → view w (unseal_key_for_id n) ≡ none → unseal v (suc n) w ≢ none
  unfolding unseal
  unseal_terminates n w absent = unseal_from-ne-none n 0 w (rw (add-zero n) absent)
