-- ===== src/Cli/Configure.antt =====
-- cmd/bank-vaults/configure.go: the command that configures the server again whenever the
-- configuration file changes. The loop that waits for the server to be unsealed takes fuel; `none`
-- means that it ran out. `sleep` is what else happens while time.Sleep runs; logging is left out.
-- The events of fsnotify, path/filepath, the template and viper.ReadConfig are parameters, and the
-- order in which the watcher and the loop take turns is the order of the list of events.
pub mod Waiting
use bank_vaults.Prelude.{
  String, Bool, true, false, ℕ, zero, suc, ◌/◌, ◌%◌, Option, none, some, List, [], ◌∷◌, Exec,
  Result, ok, err, panic, ◌==◌, ◌&&◌, ◌||◌, if◌then◌else◌,
}
use bank_vaults.Kv.{Error}
use bank_vaults.Vault.{Vault, sealed}
use bank_vaults.Vault.Configure.Api.{Admin, Host}
use bank_vaults.Vault.Configure.{configure}

-- fsnotify.Event, with its operations as a bit mask
pub record Event : Type 0 where
  pub name : String
  pub op : ℕ

-- filepath.Clean and filepath.Base, and the file named by the flag
pub record Watch : Type 0 where
  pub clean : String → String
  pub base : String → String
  pub vault_config_file : String

-- fsnotify.Create and fsnotify.Write
create_bit : ℕ → Bool
create_bit op = elim (op % 2) [ zero ↦ false | suc n ↦ true ]

write_bit : ℕ → Bool
write_bit op = elim (op / 2 % 2) [ zero ↦ false | suc n ↦ true ]

-- The events that the watcher passes on.
unfoldable pub relevant : Watch → Event → Bool
unfolding create_bit write_bit
relevant watch e =
    (watch.clean e.name == watch.clean watch.vault_config_file || watch.base e.name == "..data")
    && (write_bit e.op || create_bit e.op)

module _ {W : Type 0} (admin : Admin W) (host : Host W) (v : Vault W) (sleep : W → W) where
  -- What `Sealed` answered: the command waits as long as there is an error or the server is sealed. An
  -- error of `Configure` is logged; a panic ends the process.
  attend :
      Option (Result String (Unit {0}) × W)
      → Result Error (Bool × Option Error)
      → W
      → Option (Result String (Unit {0}) × W)
  attend rest (ok (s, some e)) w = rest
  attend rest (ok (true, none)) w = rest
  attend rest (ok (false, none)) w = some (configure admin host v w)
  attend rest (err e) w = rest
  attend rest (panic s) w = some (panic s, w)

  -- The loop for one event.
  unfoldable pub configure_event : ℕ → W → Option (Result String (Unit {0}) × W)
  unfolding sealed attend
  configure_event zero w = none
  configure_event (suc fuel) w =
      let (r, w') = sealed v w in attend (configure_event fuel (sleep w')) r w'

  -- What follows an event: the next one, unless the process has ended.
  followed :
      (W → Option (Result String (Unit {0}) × W))
      → Option (Result String (Unit {0}) × W)
      → Option (Result String (Unit {0}) × W)
  followed rest (some (ok u, w)) = rest w
  followed rest (some (err e, w)) = rest w
  followed rest r = r

  -- What follows the load of the configuration.
  loaded :
      (W → Option (Result String (Unit {0}) × W))
      → (W → Option (Result String (Unit {0}) × W))
      → Result String (Unit {0}) × W
      → Option (Result String (Unit {0}) × W)
  unfolding followed
  loaded handle rest (ok u, w) = followed rest (handle w)
  loaded handle rest (err x, w) = some (err x, w)
  loaded handle rest (panic s, w) = some (panic s, w)

  -- The loop over the events that the watcher passes on, each of which has its own fuel. `load` is
  -- ReadInConfig, whose error is logged, and parseConfiguration, which exits where the file cannot be
  -- used.
  unfoldable pub configure_events :
      Watch
      → (Event → Exec W String (Unit {0}))
      → ℕ
      → List Event
      → W
      → Option (Result String (Unit {0}) × W)
  unfolding configure_event loaded relevant
  configure_events watch load fuel [] w = some (ok tt, w)
  configure_events watch load fuel (e ∷ es) w =
      let rest = configure_events watch load fuel es in
      if relevant watch e then loaded (configure_event fuel) rest (load e w) else rest w

  -- The configuration is parsed before the first event, which is the command's own.
  unfoldable pub configure_command :
      Watch
      → Exec W String (Unit {0})
      → (Event → Exec W String (Unit {0}))
      → ℕ
      → List Event
      → W
      → Option (Result String (Unit {0}) × W)
  unfolding configure_events
  configure_command watch parse load fuel es w =
      loaded (configure_event fuel) (configure_events watch load fuel es) (parse w)
