-- ===== src/Vault/Configure/Tests.antt =====
-- A sample server and a sample configuration, and the theorems about Configure of pkg/vault there.
use bank_vaults.Prelude.{
  map, String, true, false, ℕ, zero, suc, ◌-◌, ◌<◌, ltb, pos, some, Exec, ok, err, List, [], ◌∷◌,
  ◌++◌, ◌≡◌, ◌≢◌, refl, sym, ok_inj, Dict, lookup, ◌>>=◌, deferred, insert, lookup-insert, for_each,
  concat, eq_iff, arith, All, if◌then◌else◌, ◌==◌,
}
use bank_vaults.Kv.Memory
use bank_vaults.Kv.Memory.{memory}
use bank_vaults.Cli.Configure.{Event, Watch, relevant, configure_event, configure_command}
use bank_vaults.Cli.Configure.Waiting.{
  Waits, is_sealed, round, waits_then_configures, Tokenless, configure_command-Tokenless,
}
use bank_vaults.Vault.{Vault, sealed}
use bank_vaults.Vault.Api.{Client}
use bank_vaults.Vault.Keys.{root_token_key}
use bank_vaults.Vault.Configure.Values.{
  Value, text, array, mapping, object, item, stop, entry, last, end, shown, entry_at, as_string, at,
  as_list, as_mapping,
}
use bank_vaults.Vault.Configure.Api.{Admin, Host, AuthMount, MountOutput}
use bank_vaults.Vault.Configure.Mounts.{Leaves}
use bank_vaults.Vault.Configure.Mounts.Enabled.{Missing, configure_enables-Missing}
use bank_vaults.Vault.Configure.Mounts.Engaged.{configure_keeps_engines}
use bank_vaults.Vault.Configure.Policies.{configure_policies}
use bank_vaults.Vault.Configure.Policies.Merged.{Holds, configure_policies_merges}
use bank_vaults.Vault.Configure.Engines.{write_option}
use bank_vaults.Vault.Configure.Engines.Written.{engine_writes_all}
use bank_vaults.Vault.Configure.Token.{configure_clears_token}
use bank_vaults.Vault.Configure.{configure}

record Server : Type 0 where
  held : Dict String
  token : String
  auths : Dict AuthMount
  enabled : List (String × String)
  mounts : Dict MountOutput
  policies : Dict String
  written : List String
  ticks : ℕ  -- until the server is unsealed

abbrev client : Client Server
client = record {
  seal_status = λ w. (ok (record { sealed = ltb 0 w.ticks; progress = 0 }), w);
  unseal = λ k w. (ok (record { sealed = false; progress = 0 }), w);
  init_status = λ w. (ok true, w);
  init = λ r w. (err "initialized already", w);
  set_token = λ t w. record w { token = t };
  create_orphan = λ r w. (ok tt, w);
  revoke_self = λ t w. (ok tt, w);
}

-- The server refuses to overwrite one path.
abbrev write : String → Dict Value → Exec Server String (Unit {0})
write path m w = (
  if path == "pki/root/a" then err "use delete them before reconfiguring" else ok tt,
  record w { written = w.written ++ (path ∷ []) },
)

abbrev admin : Admin Server
admin = record {
  list_auth = λ w. (ok w.auths, w);
  enable_auth = λ path o w. (
    ok tt,
    record w {
      enabled = (path, o.type_of) ∷ w.enabled;
      auths = insert (concat (path ∷ "/" ∷ [])) (record { type_of = o.type_of }) w.auths;
    },
  );
  put_policy = λ name rules w. (ok tt, record w { policies = insert name rules w.policies });
  list_mounts = λ w. (ok w.mounts, w);
  mount = λ path i w. (
    ok tt,
    record w {
      mounts = insert (concat (path ∷ "/" ∷ [])) (record { type_of = i.type_of }) w.mounts;
    },
  );
  tune_mount = λ path i w. (ok tt, w);
  write = write;
}

abbrev named : String → Value
named name = mapping (entry (text "name") (text name) last)

abbrev pki : Dict Value
pki = ("root", array (item (named "a") (item (named "b") stop))) ∷ []

abbrev some_policies : List (Dict String)
some_policies =
    (("name", "readers") ∷ ("rules", "old") ∷ [])
    ∷ (("name", "readers") ∷ ("rules", "new") ∷ [])
    ∷ []

-- cast.ToStringMap of the one value that is looked at, and of the others
abbrev to_string_map : Value → Dict Value
to_string_map v = elim v [ object m ↦ pki | _ ↦ [] ]

abbrev host : Host Server
host = record {
  auth = λ w. (
    ok (
        (("type", text "github") ∷ ("path", text "gh") ∷ [])
        ∷ (("type", text "approle") ∷ [])
        ∷ []),
    w,
  );
  policies = λ w. (ok some_policies, w);
  secrets = λ w. (
    ok (
        (("type", text "pki") ∷ ("configuration", object end) ∷ [])
        ∷ (("type", text "kv") ∷ [])
        ∷ []),
    w,
  );
  read_file = λ name w. (err "no such file", w);
  getenv = λ name w. "";
  to_string_map = to_string_map;
  to_string_map_string = λ v. [];
}

abbrev sample : Vault Server
sample = record {
  key_store = memory (λ w. w.held) (λ d w. record w { held = d });
  cl = client;
  config = record {
    secret_shares = pos 2;
    secret_threshold = pos 2;
    init_root_token = "";
    store_root_token = true;
  };
}

abbrev start : Server
start = record {
  held = ("vault-root", "s.root") ∷ [];
  token = "";
  auths = ("gh/", record { type_of = "github" }) ∷ [];
  enabled = [];
  mounts = ("kv/", record { type_of = "kv" }) ∷ [];
  policies = [];
  written = [];
  ticks = 0;
}

abbrev sleep : Server → Server
sleep w = record w { ticks = w.ticks - 1 }

-- It enables approle only, and writes both certificates although the first is refused.
run_enables :
    let w = (configure admin host sample start).1 in
    (w.enabled ≡ ("approle", "approle") ∷ [])
    × (w.written ≡ "auth/github/config" ∷ "pki/root/a" ∷ "pki/root/b" ∷ [])
unfolding configure ◌>>=◌ Memory.get lookup root_token_key deferred for_each shown insert entry_at
    as_string at as_list as_mapping
run_enables = (refl, refl)

configure_clears_token_example : (configure admin host sample start).1.token ≡ ""
configure_clears_token_example =
    configure_clears_token admin host sample (λ w. w.token) (λ t w. refl) (λ k w. refl) start refl

enabled_Leaves : Leaves admin host sample (λ w. w.enabled)
enabled_Leaves = record {
  get = λ k w. refl;
  set_token = λ t w. refl;
  list_auth = λ w. refl;
  put_policy = λ n r w. refl;
  list_mounts = λ w. refl;
  tune = λ p i w. refl;
  write = λ p m w. refl;
  auth = λ w. refl;
  policies = λ w. refl;
  secrets = λ w. refl;
  read_file = λ n w. refl;
}

mounts_Leaves : Leaves admin host sample (λ w. w.mounts)
mounts_Leaves = record {
  get = λ k w. refl;
  set_token = λ t w. refl;
  list_auth = λ w. refl;
  put_policy = λ n r w. refl;
  list_mounts = λ w. refl;
  tune = λ p i w. refl;
  write = λ p m w. refl;
  auth = λ w. refl;
  policies = λ w. refl;
  secrets = λ w. refl;
  read_file = λ n w. refl;
}

configure_enables-Missing_example :
    All (Missing start.auths) (configure admin host sample start).1.enabled
configure_enables-Missing_example =
    configure_enables-Missing admin host sample (λ w. w.enabled) enabled_Leaves (λ p i w. refl)
      (λ p k w. refl) (λ w. w.auths) (λ w e h. sym (ok_inj h)) (λ k w. refl) (λ t w. refl) start
      refl

lookup-mount :
    (path key : String) (m : MountOutput) (d : Dict MountOutput)
    → concat (path ∷ "/" ∷ []) ≢ key
    → lookup key (insert (concat (path ∷ "/" ∷ [])) m d) ≡ lookup key d
lookup-mount path key m d differ =
    rw (lookup-insert (concat (path ∷ "/" ∷ [])) key m d)
      (ground (arith, eq_iff (concat (path ∷ "/" ∷ [])) key))

configure_keeps_engines_example :
    lookup "kv/" (configure admin host sample start).1.mounts ≡ some (record { type_of = "kv" })
unfolding lookup
configure_keeps_engines_example =
    configure_keeps_engines admin host sample (λ w. w.mounts) mounts_Leaves
      (λ w l h. sym (ok_inj h)) (λ path key i w differ. lookup-mount path key _ w.mounts differ)
      (λ p o w. refl) start "kv/" (record { type_of = "kv" }) refl

policies_Holds : Holds admin host (λ w k. lookup k w.policies)
policies_Holds = record {
  put = λ name rules other w h. lookup-insert name other rules w.policies;
  read = λ w other. refl;
}

configure_policies_ok : (configure_policies admin host start).0 ≡ ok tt
unfolding configure_policies ◌>>=◌ for_each lookup insert
configure_policies_ok = refl

configure_policies_merges_example :
    lookup "readers" (configure_policies admin host start).1.policies ≡ some "new"
unfolding configure_policies lookup
configure_policies_merges_example =
    configure_policies_merges admin host (λ w k. lookup k w.policies) policies_Holds start
      some_policies "readers" refl configure_policies_ok

pki_written : (for_each (write_option admin host "pki") pki start).0 ≡ ok tt
unfolding write_option for_each ◌>>=◌ shown entry_at as_list as_mapping
pki_written = refl

engine_writes_all_example :
    (for_each (write_option admin host "pki") pki start).1.written
    ≡ "pki/root/a" ∷ "pki/root/b" ∷ []
unfolding shown entry_at
engine_writes_all_example =
    engine_writes_all admin host (λ w. w.written) (λ path m w. refl) "pki" pki start pki_written

-- The server is unsealed in the third round.
abbrev sealed_twice : Server
sealed_twice = record start { ticks = 2 }

sealed_before :
    (i : ℕ) → i < 2 → Waits (sealed sample (round admin host sample sleep i sealed_twice)).0
unfolding sealed
sealed_before zero h = is_sealed
sealed_before (suc zero) h = is_sealed
sealed_before (suc (suc i)) h = absurd (omega (arith, h))

waits_then_configures_example :
    configure_event admin host sample sleep 3 sealed_twice
    ≡ some (configure admin host sample start)
unfolding sealed
waits_then_configures_example =
    waits_then_configures admin host sample sleep 2 sealed_twice sealed_before refl

asks_keep : (w : Server) → (sealed sample w).1.token ≡ w.token
unfolding sealed
asks_keep w = refl

-- The file changes once, and another file too.
abbrev watch : Watch
watch = record { clean = λ p. p; base = λ p. p; vault_config_file = "vault-config.yml" }

abbrev changes : List Event
changes =
    record { name = "vault-config.yml"; op = 2 }
    ∷ record { name = "other.yml"; op = 2 }
    ∷ record { name = "vault-config.yml"; op = 4 }
    ∷ []

passes_on : map (λ e. relevant watch e) changes ≡ true ∷ false ∷ false ∷ []
unfolding relevant
passes_on = refl

configure_command-Tokenless_example :
    Tokenless admin host sample sleep
      (λ w. w.token)
      (λ t w. refl)
      (λ k w. refl)
      asks_keep
      (λ w. refl)
      (configure_command admin host sample sleep watch
        (λ w. (ok tt, w))
        (λ e w. (ok tt, w))
        3
        changes
        sealed_twice)
configure_command-Tokenless_example =
    configure_command-Tokenless admin host sample sleep (λ w. w.token) (λ t w. refl) (λ k w. refl)
      asks_keep (λ w. refl) watch (λ w. (ok tt, w)) (λ e w. (ok tt, w)) 3 changes sealed_twice
      (λ u. refl) (λ e u. refl) refl
