-- ===== src/Vault/Tests.antt =====
-- A sample server with two key shares and a key store in memory, and the theorems of pkg/vault there.
mod Configuring
use bank_vaults.Prelude.{
  String, Bool, true, false, ℕ, zero, suc, ◌<◌, ltb, pos, Option, none, some, Exec, ok, err, List,
  [], ◌∷◌, ◌≡◌, ◌≢◌, refl, sym, ap, ok_inj, arith, Dict, lookup, insert, length, eq_iff, ◌⊎◌, inl,
  inr, if◌then◌else◌, All, decimal, ◌>>=◌, get_elem?,
}
use mathlib.Core.Logic.{◌↔◌}
use bank_vaults.Kv.{plain}
use bank_vaults.Kv.Spec.{Faithful, Reliable}
use bank_vaults.Kv.Memory
use bank_vaults.Kv.Memory.{memory, memory_view, memory-Faithful, memory-Reliable}
use bank_vaults.Vault.{Vault, sealed}
use bank_vaults.Vault.Api.{Client, SealStatus, InitRequest, InitResponse}
use bank_vaults.Vault.Keys.{unseal_key_for_id, root_token_key, test_key}
use bank_vaults.Vault.Unseal.{unseal}
use bank_vaults.Vault.Unseal.Termination.{unseal_terminates}
use bank_vaults.Vault.Unseal.Progress.{Protocol, Separate, Unseals, unseal_succeeds}
use bank_vaults.Vault.Init.{init, initialize, check_keys}
use bank_vaults.Vault.Init.Keeps.{Quiet, init_never_overwrites}
use bank_vaults.Vault.Init.Stores.{init_stores}
use bank_vaults.Vault.Init.Checks.{check_keys_skips_errors, check_keys_iff}
use bank_vaults.Vault.Init.Handover.{Promises, init_then_unseal}
use bank_vaults.Cli.Unseal.{exits, goes_on, round}
use bank_vaults.Cli.Unseal.Rounds.{round_unseals}

record Server : Type 0 where
  held : Dict String
  initialized : Bool
  locked : Bool
  entered : List String
  token : String

abbrev reply : Server → SealStatus
reply w = record { sealed = w.locked; progress = length w.entered }

abbrev response : InitResponse
response = record { keys = "share-a" ∷ "share-b" ∷ []; root_token = "temporary" }

abbrev enter : String → Exec Server String SealStatus
enter k w =
    if ltb (suc (length w.entered)) 2
    then (
      ok (record { sealed = true; progress = suc (length w.entered) }),
      record w { entered = k ∷ w.entered },
    )
    else (ok (record { sealed = false; progress = 0 }), record w { locked = false; entered = [] })

abbrev client : Client Server
client = record {
  seal_status = λ w. (ok (reply w), w);
  unseal = enter;
  init_status = λ w. (ok w.initialized, w);
  init = λ r w. (ok response, record w { initialized = true });
  set_token = λ t w. record w { token = t };
  create_orphan = λ r w. (ok tt, w);
  revoke_self = λ t w. (ok tt, w);
}

abbrev store : Dict String → Server → Server
store d w = record w { held = d }

abbrev sample : Vault Server
sample = record {
  key_store = memory (λ w. w.held) store;
  cl = client;
  config = record {
    secret_shares = pos 2;
    secret_threshold = pos 2;
    init_root_token = "";
    store_root_token = true;
  };
}

abbrev sleep : Server → Server
sleep w = w

abbrev view : Server → String → Option String
view = memory_view (λ w. w.held) store

faithful : Faithful sample.key_store view
faithful = memory-Faithful (λ w. w.held) store (λ d w. refl)

reliable : Reliable sample.key_store view
reliable = memory-Reliable (λ w. w.held) store

enter_held : (k : String) (w : Server) → (enter k w).1.held ≡ w.held
enter_held k w = ground arith

abbrev quiet : Quiet sample sleep view
quiet = record {
  seal_status = λ w j. refl;
  init_status = λ w j. refl;
  init = λ r w j. refl;
  set_token = λ t w j. refl;
  create_orphan = λ r w j. refl;
  revoke_self = λ t w j. refl;
  slept = λ w j. refl;
}

abbrev IsShare : String → Type 0
IsShare k = (k ≡ "share-a") ⊎ (k ≡ "share-b")

protocol : Protocol client IsShare 2 (λ w. w.locked) (λ w. w.entered)
protocol = record {
  accepts = λ k w locked share new h. ground arith;
  collects = λ k w locked share new h. ground arith;
  completes = λ k w locked share new h. ground arith;
  opens = λ k w locked share new h. ground arith;
}

separate : Separate sample view (λ w. w.locked) (λ w. w.entered)
separate = record {
  get_sealed = λ k w. refl;
  get_entered = λ k w. refl;
  get_view = λ k j w. refl;
  unseal_view = λ k j w. ap (lookup j) (enter_held k w);
}

abbrev new_server : Server
new_server = record {
  held = ("other", "kept") ∷ [];
  initialized = false;
  locked = true;
  entered = [];
  token = "";
}

-- What `Init` leaves of it.
abbrev initialized_server : Server
initialized_server = record {
  held =
      ("other", "kept")
      ∷ ("vault-unseal-0", "share-a")
      ∷ ("vault-unseal-1", "share-b")
      ∷ ("vault-root", "temporary")
      ∷ [];
  initialized = true;
  locked = true;
  entered = [];
  token = "";
}

init_runs : init sample sleep 0 new_server ≡ some (ok tt, initialized_server)
unfolding init initialize unseal_key_for_id root_token_key test_key ◌>>=◌ Memory.get lookup insert
    decimal
init_runs = refl

abbrev share : ℕ → String
share zero = "share-a"
share (suc n) = "share-b"

differ : (i j : ℕ) → j < i → i < 2 → share i ≢ share j
differ zero j h k = absurd (omega arith)
differ (suc zero) zero h k = ground (arith, eq_iff "share-b" "share-a")
differ (suc zero) (suc j) h k = absurd (omega arith)
differ (suc (suc i)) j h k = absurd (omega arith)

shares : (j : ℕ) → j < 2 → IsShare (share j)
shares zero h = inl refl
shares (suc j) h = inr refl

keys_held : (j : ℕ) → j < 2 → view initialized_server (unseal_key_for_id j) ≡ some (share j)
unfolding unseal_key_for_id lookup decimal
keys_held zero h = refl
keys_held (suc zero) h = refl
keys_held (suc (suc j)) h = absurd (omega arith)

unseal_terminates_example : unseal sample 3 initialized_server ≢ none
unfolding unseal_key_for_id lookup decimal
unseal_terminates_example =
    unseal_terminates sample view faithful (λ k j w. ap (lookup j) (enter_held k w)) 2
      initialized_server refl

unseal_succeeds_example : Unseals (λ w. w.locked) (unseal sample 2 initialized_server)
unseal_succeeds_example =
    unseal_succeeds sample view reliable IsShare 2 (λ w. w.locked) (λ w. w.entered) protocol
      separate share shares differ initialized_server (omega arith) refl refl keys_held

init_never_overwrites_example : view initialized_server "other" ≡ some "kept"
unfolding lookup
init_never_overwrites_example =
    init_never_overwrites sample sleep view faithful quiet "other" "kept" 0 new_server
      initialized_server (ok tt) refl init_runs

init_stores_example :
    (resp : InitResponse) × ((w : Server) × ((client.init
          (record { secret_shares = pos 2; secret_threshold = pos 2 })
          w).0
        ≡ ok resp))
    × ((n : ℕ) (k : String)
        → get_elem? resp.keys n ≡ some k
        → view initialized_server (unseal_key_for_id n) ≡ some k)
    × (true ≡ true → view initialized_server root_token_key ≡ some resp.root_token)
init_stores_example =
    init_stores sample sleep view faithful quiet 0 new_server initialized_server refl init_runs

promises :
    (r : InitRequest) (w0 : Server) (resp : InitResponse)
    → (client.init r w0).0 ≡ ok resp
    → Promises resp IsShare 2 share
promises r w0 resp h = record {
  keys = λ j lt. key j lt resp (sym (ok_inj h));
  shares = shares;
  differ = differ;
}
  where
    key :
        (j : ℕ)
        → j < 2
        → (resp : InitResponse) → resp ≡ response
        → get_elem? resp.keys j ≡ some (share j)
    key zero lt resp e = rw e
    key (suc zero) lt resp e = rw e
    key (suc (suc j)) lt resp e = absurd (omega arith)

init_then_unseal_example : Unseals (λ w. w.locked) (unseal sample 2 initialized_server)
init_then_unseal_example =
    init_then_unseal sample sleep view faithful reliable quiet IsShare 2 (λ w. w.locked)
      (λ w. w.entered) protocol separate 0 new_server initialized_server (λ _. share) (omega arith)
      promises refl init_runs refl refl

check_keys_iff_example :
    ((check_keys sample ("vault-root" ∷ []) new_server).0 ≡ ok tt)
    ↔ All (λ k. view new_server k ≡ none) ("vault-root" ∷ [])
check_keys_iff_example =
    check_keys_iff sample view reliable (λ k j w. refl) ("vault-root" ∷ []) new_server new_server
      (λ j. refl)

-- The same with a store that cannot be reached.
abbrev unreachable : Vault Server
unreachable = record sample {
  key_store = record {
    set = λ k v w. (err (plain "timeout"), w);
    get = λ k w. (err (plain "timeout"), w);
    test = λ k w. (ok tt, w);
  };
}

check_keys_skips_errors_example : (check_keys unreachable ("vault-root" ∷ []) new_server).0 ≡ ok tt
check_keys_skips_errors_example =
    check_keys_skips_errors unreachable (λ k w. ("timeout", refl)) ("vault-root" ∷ []) new_server

round_unseals_example :
    (w' : Server) × (round sample sleep 2 true false initialized_server ≡ some (exits 0, w'))
    × (w'.locked ≡ false)
round_unseals_example =
    round_unseals sample sleep view reliable IsShare 2 (λ w. w.locked) (λ w. w.entered) protocol
      separate share shares differ true initialized_server (reply initialized_server) (omega arith)
      refl refl refl refl keys_held
