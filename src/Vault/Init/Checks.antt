-- ===== src/Vault/Init/Checks.antt =====
-- What `Init` checks in the key store before it initializes the server.
use mathlib.Core.Logic.{◌↔◌}
use mathlib.Core.Option.{none-ne-some}
use bank_vaults.Prelude.{
  String, Option, none, some, ok, err, pure, ◌>>=◌, List, [], ◌∷◌, ◌≡◌, ◌≢◌, refl, sym, ap, ◌∙◌,
  inl, inr, arith, All, Option-cases,
}
use bank_vaults.Kv.{plain}
use bank_vaults.Kv.Spec.{Reliable}
use bank_vaults.Vault.{Vault}
use bank_vaults.Vault.Init.{not_found_answer, check_answered, check_keys}

module _ {W : Type 0} (v : Vault W) where
  -- If every read of the store fails with an error that is no NotFoundError, then the check of the
  -- keys passes, whatever they are: `Init` goes on without having seen one of them.
  pub check_keys_skips_errors :
      ((k : String) (w : W) → (m : String) × ((v.key_store.get k w).0 ≡ err (plain m)))
      → (keys : List String) (w : W) → (check_keys v keys w).0 ≡ ok tt
  unfolding check_keys ◌>>=◌
  check_keys_skips_errors fails [] w = refl
  check_keys_skips_errors fails (key ∷ keys) w =
      rw ((fails key w).1, check_answered)
        (check_keys_skips_errors fails keys (v.key_store.get key w).1)

module _ {W : Type 0} (v : Vault W) (view : W → String → Option String)
    (reliable : Reliable v.key_store view)
    (get_keeps : (k j : String) (w : W) → view (v.key_store.get k w).1 j ≡ view w j) where
  check_key_present :
      (key x : String) (keys : List String) (w : W)
      → view w key ≡ some x
      → (check_keys v (key ∷ keys) w).0 ≢ ok tt
  unfolding check_keys check_answered ◌>>=◌
  check_key_present key x keys w h e = ground (arith, reliable.reads key x w h)

  check_key_absent :
      (key : String) (keys : List String) (w : W)
      → view w key ≡ none
      → check_keys v (key ∷ keys) w ≡ check_keys v keys (v.key_store.get key w).1
  unfolding check_keys check_answered ◌>>=◌
  check_key_absent key keys w h = rw ((reliable.reports key w h).1, not_found_answer)

  -- Over a store whose reads do not fail and change nothing, the check passes exactly if none of the
  -- keys is there.
  pub check_keys_iff :
      (keys : List String) (w0 w : W)
      → ((j : String) → view w j ≡ view w0 j)
      → ((check_keys v keys w).0 ≡ ok tt) ↔ All (λ k. view w0 k ≡ none) keys
  check_keys_iff [] w0 w same = ((λ _. tt), λ _. unfold check_keys pure in refl)
  check_keys_iff (key ∷ keys) w0 w same = elim (Option-cases (view w0 key)) [
    | inr (x, e) ↦ (
      (λ h. absurd (check_key_present key x keys w (same key ∙ e) h)),
      λ all. absurd (none-ne-some x (sym all.0 ∙ e)),
    )
    | inl e ↦
        let step = check_key_absent key keys w (same key ∙ e) in
        let rest =
          check_keys_iff keys w0 (v.key_store.get key w).1 (λ j. get_keeps key j w ∙ same j) in
        (
          (λ h. (e, rest.0 (ap (λ r. r.0) (sym step) ∙ h))),
          λ all. ap (λ r. r.0) step ∙ rest.1 all.1,
        )
  ]
