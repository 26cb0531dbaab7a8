-- ===== src/Vault/Init/Stores.antt =====
-- The keys that the key store has after `Init` of pkg/vault/vault.go.
use bank_vaults.Prelude.{
  String, Bool, true, false, ℕ, zero, suc, ◌+◌, Option, none, some, Exec, Result, ok_inj, ok, err,
  panic, pure, lift, map_err, ◌>>=◌, ◌>>◌, bind-eq-ok, map_err-eq-ok, Ensures, Ensures-bind,
  Ensures-map_err, wrapped-eq-ok, if◌then◌else◌, List, [], ◌∷◌, ◌≡◌, refl, sym, ap, subst, ◌∙◌,
  arith, get_elem?,
}
use bank_vaults.Kv.{Error}
use bank_vaults.Kv.Spec.{Faithful}
use bank_vaults.Vault.{Vault}
use bank_vaults.Vault.Api.{InitRequest, InitResponse}
use bank_vaults.Vault.Keys.{unseal_key_for_id, root_token_key}
use bank_vaults.Vault.Init.{
  key_store_set, store_keys, initialize, prepare, wait_unsealed, setup_root_token, store_root_token,
  resume, finish, init,
}
use native.Mathlib.Nat.{zero-add, add-zero}
use bank_vaults.Vault.Init.Keeps.{Quiet, store_keys-Holds, finish-Holds}

module _ {W : Type 0} (v : Vault W) (sleep : W → W) (view : W → String → Option String)
    (faithful : Faithful v.key_store view) (quiet : Quiet v sleep view) where
  key_store_set_ok :
      (key val : String) (w : W)
      → (key_store_set v key val w).0 ≡ ok tt
      → view (key_store_set v key val w).1 key ≡ some val
  unfolding key_store_set ◌>>=◌
  key_store_set_ok key val w h = grind (arith, faithful.stored)

  store_keys_ok :
      (i : ℕ) (ks : List String) (w : W)
      → (store_keys v i ks w).0 ≡ ok tt
      → (n : ℕ) (k : String) → get_elem? ks n ≡ some k
      → view (store_keys v i ks w).1 (unseal_key_for_id (n + i)) ≡ some k
  unfolding store_keys map_err
  store_keys_ok i [] w h n k e = cc
  store_keys_ok i (x ∷ ks) w h zero k e =
      let (_, wrote, _, same) = bind-eq-ok _ _ w h in
      let now : view (key_store_set v (unseal_key_for_id i) x w).1 (unseal_key_for_id i) ≡ some x =
        key_store_set_ok (unseal_key_for_id i) x w
          (map_err-eq-ok _ (key_store_set v (unseal_key_for_id i) x) w wrote) in
      rw (zero-add i, same)
        ((store_keys-Holds v sleep view faithful quiet (unseal_key_for_id i) k (suc i) ks).at _
          (now ∙ e))
  store_keys_ok i (x ∷ ks) w h (suc n) k e =
      let (_, _, rest, same) = bind-eq-ok _ _ w h in
      rw same (
        subst
          (λ m.
            view (store_keys v (suc i) ks (key_store_set v (unseal_key_for_id i) x w).1).1
              (unseal_key_for_id m)
            ≡ some k)
          {x = n + suc i} (omega arith) (store_keys_ok (suc i) ks _ rest n k e))

  abbrev request : InitRequest
  request = record {
    secret_shares = v.config.secret_shares;
    secret_threshold = v.config.secret_threshold;
  }

  -- The server has answered `Init`'s request with `resp`.
  abbrev pub Answered : InitResponse → Type 0
  Answered resp = (w : W) × ((v.cl.init request w).0 ≡ ok resp)

  -- The unseal keys of the response are in the store under their names.
  abbrev KeysStored : InitResponse → W → Type 0
  KeysStored resp w =
      (n : ℕ) (k : String) → get_elem? resp.keys n ≡ some k → view w (unseal_key_for_id n) ≡ some k

  abbrev Done : InitResponse → W → Type 0
  Done resp w = Answered resp × KeysStored resp w

  always : {A : Type 0} {m : Exec W Error A} → Ensures (λ _. Unit {0}) m (λ _ _. Unit {0})
  always = record { at = λ w a _ _. tt }

  initialize_ok : Ensures (λ _. Unit {0}) (initialize v) Done
  unfolding initialize pure
  initialize_ok = Ensures-bind {R = λ _ _. Unit {0}} _ _ always λ _.
      Ensures-bind {R = λ _ _. Unit {0}} _ _ always λ _.
        Ensures-bind {R = λ resp _. Answered resp} _ _
          (Ensures-map_err _ _ (record { at = λ w resp _ e. (w, e) }))
          λ resp.
            Ensures-bind {R = λ _ w. Done resp w} _ _
              (record {
                at = λ w _ answered e. (
                  answered,
                  λ n k found.
                      subst
                        (λ m. view (store_keys v 0 resp.keys w).1 (unseal_key_for_id m) ≡ some k)
                        (add-zero n) (store_keys_ok 0 resp.keys w e n k found),
                );
              })
              λ _. record { at = λ w r done e. ground (arith, done) }

  -- What `prepare` returns for a server that is not initialized.
  abbrev Prepared : Option InitResponse → W → Type 0
  Prepared none w = ⊥
  Prepared (some resp) w = Done resp w

  prepare_ok :
      (w : W) → (v.cl.init_status w).0 ≡ ok false → Ensures (λ w'. w' ≡ w) (prepare v) Prepared
  unfolding prepare pure
  prepare_ok w h =
      Ensures-bind {R = λ b _. b ≡ false} _ _
        (Ensures-map_err _ _ (record {
          at = λ w' b same e. ok_inj (sym e ∙ ap (λ z. (v.cl.init_status z).0) same ∙ h);
        }))
        branch
    where
      branch :
          (b : Bool)
          → Ensures
              (λ _. b ≡ false)
              (if b then pure none else (do resp ← initialize v; pure (some resp)))
              Prepared
      branch true = record { at = λ w o e _. cc }
      branch false =
          Ensures-bind {R = λ resp w. Done resp w} _ _
            (record { at = λ w resp _ e. initialize_ok.at w resp tt e })
            λ resp. record {
              at =
                  λ w o done e. subst (λ (o' : Option InitResponse). Prepared o' w) (ok_inj e) done;
            }

  root_stored :
      (resp : InitResponse) (t : String) (w : W)
      → v.config.store_root_token ≡ true
      → (store_root_token v resp t w).0 ≡ ok tt
      → view (store_root_token v resp t w).1 root_token_key ≡ some resp.root_token
  unfolding store_root_token map_err
  root_stored resp t w h e = grind (arith, key_store_set_ok, wrapped-eq-ok)

  after_wait_ok :
      (r : Result Error (Unit {0})) (resp : InitResponse) (t : String)
      → v.config.store_root_token ≡ true
      → Ensures
          (λ _. Unit {0})
          (do lift r; setup_root_token v resp; store_root_token v resp t)
          (λ _ w. view w root_token_key ≡ some resp.root_token)
  after_wait_ok r resp t h = Ensures-bind {R = λ _ _. Unit {0}} _ _ always λ _.
      Ensures-bind {R = λ _ _. Unit {0}} _ _ always
        λ _. record { at = λ w _ _ e. root_stored resp t w h e }

  resume_ok :
      (resp : InitResponse) (o : Option (Result Error (Unit {0}) × W)) (w' : W)
      → v.config.store_root_token ≡ true
      → resume v resp o ≡ some (ok tt, w')
      → view w' root_token_key ≡ some resp.root_token
  unfolding resume
  resume_ok resp none w' h e = cc
  resume_ok resp (some (r, w)) w' h e =
      ground (arith, (after_wait_ok r resp v.config.init_root_token h).at w tt tt)

  finish_ok :
      (fuel : ℕ) (resp : InitResponse) (w w' : W)
      → v.config.store_root_token ≡ true
      → finish v sleep fuel (ok (some resp)) w ≡ some (ok tt, w')
      → view w' root_token_key ≡ some resp.root_token
  unfolding finish
  finish_ok fuel resp w w' h e =
      ground (
        arith,
        root_stored resp resp.root_token w,
        resume_ok resp (wait_unsealed v sleep fuel w) w',
      )

  -- Over a store that keeps its contract, `Init` of a server that is not initialized, if it
  -- returns without an error: the server answered the request for the configured shares, and at
  -- the end every unseal key of its response is in the store under its index, and so is the
  -- response's root token, if the token is to be stored.
  pub init_stores :
      (fuel : ℕ) (w w' : W)
      → (v.cl.init_status w).0 ≡ ok false
      → init v sleep fuel w ≡ some (ok tt, w')
      → (resp : InitResponse) × Answered resp
        × KeysStored resp w'
        × (v.config.store_root_token ≡ true → view w' root_token_key ≡ some resp.root_token)
  unfolding init
  init_stores fuel w w' h e = go (prepare v w).0 (λ o. (prepare_ok w h).at w o refl) e
    where
      w1 : W
      w1 = (prepare v w).1

      go :
          (p : Result Error (Option InitResponse))
          → ((o : Option InitResponse) → p ≡ ok o → Prepared o w1)
          → finish v sleep fuel p w1 ≡ some (ok tt, w')
          → (resp : InitResponse) × Answered resp
            × KeysStored resp w'
            × (v.config.store_root_token ≡ true → view w' root_token_key ≡ some resp.root_token)
      go (ok none) done e = absurd (done none refl)
      go (ok (some resp)) done e =
          let d = done (some resp) refl in
          (
            resp,
            d.0,
            (λ n k found.
                finish-Holds v sleep view faithful quiet (unseal_key_for_id n) k fuel
                  (ok (some resp)) w1 w' (ok tt) (d.1 n k found) e),
            λ wanted. finish_ok fuel resp w1 w' wanted e,
          )
      go (err x) done e = absurd (cc)
      go (panic x) done e = absurd (cc)
