-- ===== src/Vault/Init/Keeps.antt =====
-- The keys that the key store has before `Init` of pkg/vault/vault.go.
use bank_vaults.Prelude.{
  String, Bool, true, false, Bool-cases, ℕ, zero, suc, ◌==◌, Option, none, some, Result, ok, err,
  panic, lift, ◌>>=◌, ◌>>◌, continue, Keeps, keeps_rules, Keeps-bind, List, [], ◌∷◌, ◌≡◌, refl, ◌∙◌,
  inl, inr, arith, eq_iff,
}
use bank_vaults.Kv.{Error, not_found, plain}
use bank_vaults.Kv.Spec.{Faithful}
use bank_vaults.Vault.{Vault, sealed}
use bank_vaults.Vault.Api.{InitRequest, InitResponse, TokenCreateRequest}
use bank_vaults.Vault.Init.{
  not_found_answer, key_store_not_found, set_answered, key_store_set, check_answered, check_keys,
  store_keys, initialize, prepare, wait_unsealed, setup_root_token, store_root_token, resume,
  finish, init,
}

-- The calls that `Init` makes on the server, and what happens while it sleeps, leave the store alone.
pub record Quiet {W : Type 0} (v : Vault W) (sleep : W → W) (view : W → String → Option String)
    : Type 0 where
  pub seal_status : (w : W) (j : String) → view (v.cl.seal_status w).1 j ≡ view w j
  pub init_status : (w : W) (j : String) → view (v.cl.init_status w).1 j ≡ view w j
  pub init : (r : InitRequest) (w : W) (j : String) → view (v.cl.init r w).1 j ≡ view w j
  pub set_token : (t : String) (w : W) (j : String) → view (v.cl.set_token t w) j ≡ view w j
  pub create_orphan :
      (r : TokenCreateRequest) (w : W) (j : String) → view (v.cl.create_orphan r w).1 j ≡ view w j
  pub revoke_self : (t : String) (w : W) (j : String) → view (v.cl.revoke_self t w).1 j ≡ view w j
  pub slept : (w : W) (j : String) → view (sleep w) j ≡ view w j

module _ {W : Type 0} (v : Vault W) (sleep : W → W) (view : W → String → Option String)
    (faithful : Faithful v.key_store view) (quiet : Quiet v sleep view) (j x : String) where
  -- The key `j` holds `x`.
  abbrev pub Holds : W → Type 0
  Holds w = view w j ≡ some x

  key_store_not_found-Holds : (key : String) → Keeps Holds (key_store_not_found v key)
  unfolding key_store_not_found
  key_store_not_found-Holds key = record { at = λ w h. faithful.get_keeps key j w ∙ h }

  -- A write goes to a key that the store has just reported as missing.
  pub key_store_set-Holds : (key val : String) → Keeps Holds (key_store_set v key val)
  unfolding key_store_set ◌>>=◌
  key_store_set-Holds key val = record {
    at = λ w h. go w (faithful.get_keeps key j w ∙ h) (v.key_store.get key w).0 refl;
  }
    where
      go :
          (w : W)
          → Holds (v.key_store.get key w).1
          → (r : Result Error String) → (v.key_store.get key w).0 ≡ r
          → Holds
              (continue
                (not_found_answer r)
                (λ answer. set_answered v key val answer)
                (v.key_store.get key w).1).1
      go w h (ok val') e = h
      go w h (err (plain m)) e = h
      go w h (panic s) e = h
      go w h (err (not_found m)) e = elim (Bool-cases (key == j)) [
        | inl same ↦
            ground (arith, h, eq_iff key j, faithful.get_keeps key j w, faithful.missing key m w e)
        | inr differ ↦
            faithful.set_keeps key val j (v.key_store.get key w).1
              (λ p. ground (arith, (eq_iff key j).1 p))
            ∙ h
      ]

  check_answered-Holds :
      (key : String) (answer : Bool × Option Error) → Keeps Holds (check_answered v key answer)
  unfolding check_answered
  check_answered-Holds key (true, some e) = search keeps_rules
  check_answered-Holds key (true, none) = search keeps_rules
  check_answered-Holds key (false, some e) = search keeps_rules
  check_answered-Holds key (false, none) = search keeps_rules

  check_keys-Holds : (keys : List String) → Keeps Holds (check_keys v keys)
  unfolding check_keys
  check_keys-Holds [] = search keeps_rules
  check_keys-Holds (key ∷ keys) =
      Keeps-bind _ _ (key_store_not_found-Holds key)
        λ answer. Keeps-bind _ _ (check_answered-Holds key answer) λ _. check_keys-Holds keys

  pub store_keys-Holds : (i : ℕ) (ks : List String) → Keeps Holds (store_keys v i ks)
  unfolding store_keys
  store_keys-Holds i [] = search keeps_rules
  store_keys-Holds i (k ∷ ks) =
      Keeps-bind _ _ (search (keeps_rules, key_store_set-Holds)) (λ _. store_keys-Holds (suc i) ks)

  init-Holds : (r : InitRequest) → Keeps Holds (v.cl.init r)
  init-Holds r = record { at = λ w h. quiet.init r w j ∙ h }

  test-Holds : (key : String) → Keeps Holds (v.key_store.test key)
  test-Holds key = record { at = λ w h. faithful.test_keeps key j w ∙ h }

  init_status-Holds : Keeps Holds v.cl.init_status
  init_status-Holds = record { at = λ w h. quiet.init_status w j ∙ h }

  ruleset call_rules = (
    keeps_rules, check_keys-Holds, store_keys-Holds, key_store_set-Holds, init-Holds, test-Holds,
    init_status-Holds,
  )

  pub initialize-Holds : Keeps Holds (initialize v)
  unfolding initialize
  initialize-Holds = search call_rules depth 9

  prepare-Holds : Keeps Holds (prepare v)
  unfolding prepare
  prepare-Holds = search (call_rules, initialize-Holds) depth 9

  set_token-Holds : (t : String) (w : W) → Holds w → Holds (v.cl.set_token t w)
  set_token-Holds t w h = quiet.set_token t w j ∙ h

  create_orphan-Holds : (r : TokenCreateRequest) → Keeps Holds (v.cl.create_orphan r)
  create_orphan-Holds r = record { at = λ w h. quiet.create_orphan r w j ∙ h }

  revoke_self-Holds : (t : String) → Keeps Holds (v.cl.revoke_self t)
  revoke_self-Holds t = record { at = λ w h. quiet.revoke_self t w j ∙ h }

  setup_root_token-Holds : (resp : InitResponse) → Keeps Holds (setup_root_token v resp)
  unfolding setup_root_token
  setup_root_token-Holds resp =
      search (keeps_rules, set_token-Holds, create_orphan-Holds, revoke_self-Holds) depth 9

  store_root_token-Holds :
      (resp : InitResponse) (t : String) → Keeps Holds (store_root_token v resp t)
  unfolding store_root_token
  store_root_token-Holds resp t = search (keeps_rules, key_store_set-Holds)

  wait_unsealed-Holds :
      (fuel : ℕ) (w w' : W) (r : Result Error (Unit {0}))
      → Holds w
      → wait_unsealed v sleep fuel w ≡ some (r, w')
      → Holds w'
  unfolding wait_unsealed
  wait_unsealed-Holds zero w w' r h e = cc
  wait_unsealed-Holds (suc fuel) w w' r h e =
      let w1 = (sealed v w).1 in
      let h1 : Holds w1 = quiet.seal_status w j ∙ h in
      let h2 : Holds (sleep w1) = quiet.slept w1 j ∙ h1 in
      ground (arith, h1, wait_unsealed-Holds fuel (sleep w1) w' r h2)

  -- What follows the wait.
  after_wait-Holds :
      (r : Result Error (Unit {0})) (resp : InitResponse) (t : String)
      → Keeps Holds (do lift r; setup_root_token v resp; store_root_token v resp t)
  after_wait-Holds r resp t =
      search (keeps_rules, setup_root_token-Holds, store_root_token-Holds) depth 9

  resume-Holds :
      (resp : InitResponse) (o : Option (Result Error (Unit {0}) × W)) (w' : W)
      (r : Result Error (Unit {0}))
      → ((w1 : W) (r1 : Result Error (Unit {0})) → o ≡ some (r1, w1) → Holds w1)
      → resume v resp o ≡ some (r, w')
      → Holds w'
  unfolding resume
  resume-Holds resp none w' r h e = cc
  resume-Holds resp (some (r1, w1)) w' r h e =
      ground (arith, (after_wait-Holds r1 resp v.config.init_root_token).at w1 (h w1 r1 refl))

  pub finish-Holds :
      (fuel : ℕ) (p : Result Error (Option InitResponse)) (w w' : W) (r : Result Error (Unit {0}))
      → Holds w
      → finish v sleep fuel p w ≡ some (r, w')
      → Holds w'
  unfolding finish
  finish-Holds fuel (ok none) w w' r h e = ground arith
  finish-Holds fuel (ok (some resp)) w w' r h e = ground (
    arith,
    (store_root_token-Holds resp resp.root_token).at w h,
    resume-Holds resp (wait_unsealed v sleep fuel w) w' r
        (λ w1 r1. wait_unsealed-Holds fuel w w1 r1 h),
  )
  finish-Holds fuel (err x) w w' r h e = ground arith
  finish-Holds fuel (panic x) w w' r h e = ground arith

  -- If the store keeps its contract and the server leaves it alone, then a key that is in the store
  -- before `Init` has the same value after it, whatever `Init` returns.
  pub init_never_overwrites :
      (fuel : ℕ) (w w' : W) (r : Result Error (Unit {0}))
      → view w j ≡ some x
      → init v sleep fuel w ≡ some (r, w')
      → view w' j ≡ some x
  unfolding init
  init_never_overwrites fuel w w' r h e =
      finish-Holds fuel (prepare v w).0 (prepare v w).1 w' r (prepare-Holds.at w h) e
