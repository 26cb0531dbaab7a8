-- ===== src/Vault/Init.antt =====
-- `Init` of pkg/vault/vault.go: it initializes a server that is not, stores the unseal keys, sets up
-- a given root token and stores a root token. The loop that waits for the server to be unsealed
-- takes fuel; `none` means that it ran out. `sleep` is what else happens while time.Sleep runs.
pub mod Keeps
pub mod Stores
pub mod Checks
pub mod Handover
use bank_vaults.Prelude.{
  String, Bool, true, false, ℕ, zero, suc, rounds_to, Option, none, some, Exec, Result, ok, err,
  panic, pure, fail, effect, lift, map_err, ◌>>=◌, ◌>>◌, ◌==◌, if◌then◌else◌, List, [], ◌∷◌, concat,
}
use bank_vaults.Kv.{Error, not_found, plain, message}
use bank_vaults.Vault.{Vault, sealed}
use bank_vaults.Vault.Api.{InitResponse}
use bank_vaults.Vault.Keys.{unseal_key_for_id, root_token_key, test_key}

-- The pair `(bool, error)` that `keyStoreNotFound` returns.
not_found_answer : Result Error String → Result Error (Bool × Option Error)
not_found_answer (ok val) = ok (false, none)
not_found_answer (err (not_found m)) = ok (true, none)
not_found_answer (err (plain m)) = ok (false, some (plain m))
not_found_answer (panic s) = panic s

-- The names from `unsealKeyForID(i)` on, `n` of them.
pub unseal_keys_from : ℕ → ℕ → List String
unseal_keys_from zero i = []
unseal_keys_from (suc n) i = unseal_key_for_id i ∷ unseal_keys_from n (suc i)

module _ {W : Type 0} (v : Vault W) where
  pub key_store_not_found : String → Exec W Error (Bool × Option Error)
  unfolding not_found_answer
  key_store_not_found key w = let (r, w') = v.key_store.get key w in (not_found_answer r, w')

  set_answered : String → String → Bool × Option Error → Exec W Error (Unit {0})
  set_answered key val (true, e) = v.key_store.set key val
  set_answered key val (false, none) =
      fail (plain (concat ("error setting key '" ∷ key ∷ "': it already exists" ∷ [])))
  set_answered key val (false, some e) =
      fail (plain (concat ("error setting key '" ∷ key ∷ "': " ∷ message e ∷ [])))

  pub key_store_set : String → String → Exec W Error (Unit {0})
  unfolding key_store_not_found set_answered
  key_store_set key val = do answer ← key_store_not_found key; set_answered key val answer

  -- One round of the loop over the keys before the server is initialized.
  check_answered : String → Bool × Option Error → Exec W Error (Unit {0})
  check_answered key (true, some e) =
      fail
        (plain (concat ("error before init: checking key '" ∷ key ∷ "' failed: " ∷ message e ∷ [])))
  check_answered key (true, none) = pure tt
  check_answered key (false, some e) = pure tt
  check_answered key (false, none) =
      fail
        (plain (concat ("error before init: keystore value for '" ∷ key ∷ "' already exists" ∷ [])))

  unfoldable pub check_keys : List String → Exec W Error (Unit {0})
  unfolding key_store_not_found check_answered
  check_keys [] = pure tt
  check_keys (key ∷ keys) = do
    answer ← key_store_not_found key
    check_answered key answer
    check_keys keys

  -- The loop over the response's keys, from index `i` on.
  pub store_keys : ℕ → List String → Exec W Error (Unit {0})
  unfolding key_store_set
  store_keys i [] = pure tt
  store_keys i (k ∷ ks) = do
    map_err
        (λ e.
          plain
            (concat ("error storing unseal key '" ∷ unseal_key_for_id i ∷ "': " ∷ message e ∷ [])))
        (key_store_set (unseal_key_for_id i) k)
    store_keys (suc i) ks

  unfoldable pub initialize : Exec W Error InitResponse
  unfolding store_keys check_keys unseal_keys_from
  initialize = do
    map_err (λ e. plain (concat ("error testing keystore before init: " ∷ message e ∷ [])))
        (v.key_store.test test_key)
    check_keys (root_token_key ∷ unseal_keys_from (rounds_to v.config.secret_shares) 0)
    resp ←
        map_err (λ e. plain (concat ("error initializing vault: " ∷ e ∷ [])))
          (v.cl.init (record {
            secret_shares = v.config.secret_shares;
            secret_threshold = v.config.secret_threshold;
          }))
    store_keys 0 resp.keys
    pure resp

  -- Up to the root token: the server's response, or `none` where it is initialized already.
  pub prepare : Exec W Error (Option InitResponse)
  prepare = do
    initialized ←
        map_err (λ e. plain (concat ("error testing if vault is initialized: " ∷ e ∷ [])))
          v.cl.init_status
    if initialized then pure none else (do resp ← initialize; pure (some resp))

  -- The loop leaves as soon as `Sealed` answers false, with or without an error.
  pub wait_unsealed : (W → W) → ℕ → W → Option (Result Error (Unit {0}) × W)
  unfolding sealed
  wait_unsealed sleep zero w = none
  wait_unsealed sleep (suc fuel) w =
      let (r, w') = sealed v w in
      let rest = wait_unsealed sleep fuel (sleep w') in
      elim r [
        | ok (still, e) ↦ if still then rest else some (ok tt, w')
        | err e ↦ some (err e, w')
        | panic s ↦ some (panic s, w')
      ]

  pub setup_root_token : InitResponse → Exec W Error (Unit {0})
  setup_root_token resp = do
    effect (v.cl.set_token resp.root_token)
    map_err
        (λ e. plain (
          concat (
            "unable to setup requested root token, (temporary root token: '" ∷ resp.root_token
            ∷ "'): " ∷ e ∷ [])))
        (v.cl.create_orphan (record {
          id = v.config.init_root_token;
          policies = "root" ∷ [];
          display_name = "root-token";
          no_parent = true;
        }))
    map_err (λ e. plain (concat ("unable to revoke temporary root token: " ∷ e ∷ [])))
        (v.cl.revoke_self resp.root_token)

  -- The value that is stored is the response's token; `root_token` only stands in the error's text.
  pub store_root_token : InitResponse → String → Exec W Error (Unit {0})
  unfolding key_store_set
  store_root_token resp root_token =
      if v.config.store_root_token
      then map_err
          (λ e. plain (
            concat (
              "error storing root token '" ∷ root_token ∷ "' in key'" ∷ root_token_key ∷ "'" ∷ [])))
          (key_store_set root_token_key resp.root_token)
      else pure tt

  -- What follows the wait.
  pub resume :
      InitResponse → Option (Result Error (Unit {0}) × W) → Option (Result Error (Unit {0}) × W)
  unfolding setup_root_token store_root_token
  resume resp none = none
  resume resp (some (r, w)) =
      some ((do lift r; setup_root_token resp; store_root_token resp v.config.init_root_token) w)

  pub finish :
      (W → W) → ℕ → Result Error (Option InitResponse) → W → Option (Result Error (Unit {0}) × W)
  unfolding wait_unsealed store_root_token resume
  finish sleep fuel (ok none) w = some (ok tt, w)
  finish sleep fuel (ok (some resp)) w =
      let waited = wait_unsealed sleep fuel w in
      if v.config.init_root_token == ""
      then some (store_root_token resp resp.root_token w)
      else resume resp waited
  finish sleep fuel (err e) w = some (err e, w)
  finish sleep fuel (panic s) w = some (panic s, w)

  unfoldable pub init : (W → W) → ℕ → W → Option (Result Error (Unit {0}) × W)
  unfolding prepare finish
  init sleep fuel w = let (r, w') = prepare w in finish sleep fuel r w'
