-- ===== src/Cli/Reload/Tests.antt =====
-- Sample runs of the configure command and its watcher.
use bank_vaults.Prelude.{true, false, none, some, [], ◌≡◌, refl}
use bank_vaults.Cli.Configure.{Watch, Event, relevant}
use bank_vaults.Cli.Reload.{
  rendered, selecting, announcing, receiving, State, start, edited, Step, Run, here, later, Quiet,
}
use bank_vaults.Cli.Reload.Fresh.{no_change_lost}
use bank_vaults.Cli.Reload.Looping.{looping, early_event_blocks}
use bank_vaults.Cli.Reload.Settling.{change_is_configured}

abbrev watch : Watch
watch = record { clean = λ p. p; base = λ p. p; vault_config_file = "/etc/vault-config.yml" }

-- A write of the file.
abbrev written : Event
written = record { name = "/etc/vault-config.yml"; op = 2 }

-- The command has configured the server once.
abbrev configured_once : State
configured_once = record (start 0) {
  viper = rendered 0;
  watcher = selecting;
  main = receiving;
  configured = some (rendered 0);
}

configured_run : Run watch (start 0) configured_once
configured_run =
    later
      (later
        (later
          (later
            (later (later (later here (Step.add_directory refl)) (Step.parse refl))
              (Step.store 0 refl))
            (Step.announce refl refl))
          (Step.receive refl refl))
        (Step.configure refl))
      (Step.finish refl)

-- The file has changed, and the server has been configured again.
abbrev configured_again : State
configured_again = record configured_once {
  file = 1;
  viper = rendered 1;
  configured = some (rendered 1);
}

again_run : Run watch (edited watch written configured_once) configured_again
unfolding relevant
again_run =
    later
      (later
        (later
          (later
            (later
              (later (later (later here (Step.take written [] refl refl refl)) (Step.read_in refl))
                (Step.parse_again refl))
              (Step.store_again 1 refl))
            (Step.send refl refl))
          (Step.receive refl refl))
        (Step.configure refl))
      (Step.finish refl)

abbrev quiet_again : Quiet watch configured_again
quiet_again = record { selecting = refl; no_event = refl; empty = refl; receiving = refl }

no_change_lost_example : configured_again.configured ≡ some (rendered 1)
unfolding relevant
no_change_lost_example =
    no_change_lost watch 0 written configured_run refl (λ h. cc) refl again_run quiet_again

-- From the change on.
change_is_configured_example :
    (u : State) × Run watch (edited watch written configured_once) u
    × Quiet watch u
    × (u.file ≡ 1)
    × (u.configured ≡ some (rendered 1))
unfolding relevant
change_is_configured_example =
    change_is_configured watch 0 written configured_run refl (λ h. cc) refl here

-- A change before the command has put its own event into the channel.
abbrev blocked : State
blocked = record (start 0) {
  file = 1;
  viper = rendered 1;
  full = true;
  watcher = selecting;
  main = announcing;
}

blocked_run : Run watch (start 0) blocked
unfolding relevant
blocked_run =
    later
      (later
        (later
          (later
            (later
              (later
                (later (later (later here (Step.add_directory refl)) (Step.parse refl))
                  (Step.store 0 refl))
                (Step.edit written (λ h. cc) refl))
              (Step.take written [] refl refl refl))
            (Step.read_in refl))
          (Step.parse_again refl))
        (Step.store_again 1 refl))
      (Step.send refl refl)

early_event_blocks_example : (blocked.configured ≡ none) × (looping blocked.main ≡ false)
early_event_blocks_example = early_event_blocks watch 0 blocked_run refl refl here

-- A change between the first parse and watcher.Add is lost: nothing is left to do, and the server has
-- the configuration of before.
abbrev outdated : State
outdated = record configured_once { file = 1 }

start_loses_change :
    Run watch (start 0) outdated × Quiet watch outdated × (outdated.configured ≡ some (rendered 0))
start_loses_change = (
  later
      (later
        (later
          (later
            (later
              (later (later (later here (Step.parse refl)) (Step.edit_unwatched refl))
                (Step.add_directory refl))
              (Step.store 0 refl))
            (Step.announce refl refl))
          (Step.receive refl refl))
        (Step.configure refl))
      (Step.finish refl),
  record { selecting = refl; no_event = refl; empty = refl; receiving = refl },
  refl,
)
