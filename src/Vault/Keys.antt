-- ===== src/Vault/Keys.antt =====
-- The names of vault.go in the key store: unsealKeyForID, rootTokenKey, testKey.
use text.Mathlib.TextLemmas.{append_cancel_left, append-nil}
use bank_vaults.Prelude.{
  String, ℕ, ◌≡◌, ◌≢◌, ◌∙◌, sym, [], ◌∷◌, concat, decimal, decimal_inj, arith, ap, eq_iff,
}
use Prim.Native.String.{slice}
use text.Mathlib.TextPositions.{slice-append_left}

unfoldable pub unseal_key_for_id : ℕ → String
unseal_key_for_id i = concat ("vault-unseal-" ∷ decimal i ∷ [])

unfoldable pub root_token_key : String
root_token_key = "vault-root"

unfoldable pub test_key : String
test_key = "vault-test"

-- Different unseal keys have different names.
pub unseal_key_for_id_inj : (i j : ℕ) → unseal_key_for_id i ≡ unseal_key_for_id j → i ≡ j
unfolding unseal_key_for_id
unseal_key_for_id_inj i j e = decimal_inj i j (
    sym (append-nil (decimal i))
    ∙ append_cancel_left "vault-unseal-" _ _ e
    ∙ append-nil (decimal j))

pub unseal_key_for_id-ne-root_token_key : (i : ℕ) → unseal_key_for_id i ≢ root_token_key
unfolding unseal_key_for_id root_token_key
unseal_key_for_id-ne-root_token_key i e = ground (arith, eq_iff "vault-unseal-" "vault-root", same)
  where
    same : "vault-unseal-" ≡ slice "vault-root" 0 13
    same = sym (slice-append_left "vault-unseal-" _) ∙ ap (λ (t : String). slice t 0 13) e
