-- ===== src/Cli/Reload.antt =====
-- cmd/bank-vaults/configure.go: the goroutine that watches the configuration file, and the command
-- that it tells to configure the server again. They share viper, the file and a channel of
-- capacity 1, and each access to these is a step; the steps are interleaved in any order. The file's
-- contents are the number of changes made to it. A step that ends the process is left out, since
-- none follows it, and so is logging.
pub mod Fresh
pub mod Looping
pub mod Settling
mod Tests
use bank_vaults.Prelude.{
  Bool, true, false, ℕ, suc, Option, none, some, List, [], ◌∷◌, ◌++◌, ◌||◌, ◌≡◌, ◌≢◌,
}
use bank_vaults.Cli.Configure.{Watch, Event, relevant}

-- What viper holds: nothing, the file as it is written, or the text that its template makes.
pub data Config : Type 0 where
  empty : Config
  raw : ℕ → Config
  rendered : ℕ → Config

-- Where the watching goroutine stands. `parsed_again n` has the text of the file's contents `n`,
-- which it has yet to hand to viper.
pub data Watcher : Type 0 where
  starting : Watcher  -- before watcher.Add
  selecting : Watcher
  reading_in : Watcher  -- before viper.ReadInConfig
  parsing_again : Watcher
  parsed_again : ℕ → Watcher
  sending : Watcher  -- c <- event

-- Where the command stands.
pub data Main : Type 0 where
  parsing : Main
  parsed : ℕ → Main
  announcing : Main  -- c <- fsnotify.Event{Name: "Initial"}
  receiving : Main  -- for e := range c
  attending : Main  -- it waits for the server to be unsealed
  configuring : Main

-- `events` are those that fsnotify holds for the goroutine. `full` is whether the channel has an
-- event, and `configured` what viper held when Configure was last begun.
pub record State : Type 0 where
  pub file : ℕ
  pub events : List Event
  pub viper : Config
  pub full : Bool
  pub watcher : Watcher
  pub main : Main
  pub configured : Option Config

-- As the command starts the goroutine.
abbrev pub start : ℕ → State
start file = record {
  file = file;
  events = [];
  viper = empty;
  full = false;
  watcher = starting;
  main = parsing;
  configured = none;
}

module _ (watch : Watch) where
  -- The file is changed while the directory is watched, which fsnotify reports.
  abbrev pub edited : Event → State → State
  edited e s = record s { file = suc s.file; events = s.events ++ e ∷ [] }

  pub data Step (s : State) : State → Type 0 where
    edit_unwatched : s.watcher ≡ starting → Step s (record s { file = suc s.file })
    edit : (e : Event) → s.watcher ≢ starting → relevant watch e ≡ true → Step s (edited e s)
    report : (e : Event) → s.watcher ≢ starting → Step s (record s { events = s.events ++ e ∷ [] })
    add_directory : s.watcher ≡ starting → Step s (record s { watcher = selecting })
    skip :
        (e : Event) (es : List Event)
        → s.watcher ≡ selecting
        → s.events ≡ e ∷ es
        → relevant watch e ≡ false
        → Step s (record s { events = es })
    take :
        (e : Event) (es : List Event)
        → s.watcher ≡ selecting
        → s.events ≡ e ∷ es
        → relevant watch e ≡ true
        → Step s (record s { events = es; watcher = reading_in })
    read_in :
        s.watcher ≡ reading_in → Step s (record s { watcher = parsing_again; viper = raw s.file })
    read_fails : s.watcher ≡ reading_in → Step s (record s { watcher = parsing_again })
    parse_again : s.watcher ≡ parsing_again → Step s (record s { watcher = parsed_again s.file })
    store_again :
        (n : ℕ)
        → s.watcher ≡ parsed_again n
        → Step s (record s { watcher = sending; viper = rendered n })
    send :
        s.watcher ≡ sending
        → s.full ≡ false
        → Step s (record s { watcher = selecting; full = true })
    parse : s.main ≡ parsing → Step s (record s { main = parsed s.file })
    store :
        (n : ℕ) → s.main ≡ parsed n → Step s (record s { main = announcing; viper = rendered n })
    announce :
        s.main ≡ announcing → s.full ≡ false → Step s (record s { main = receiving; full = true })
    receive :
        s.main ≡ receiving → s.full ≡ true → Step s (record s { main = attending; full = false })
    wait : s.main ≡ attending → Step s s
    configure :
        s.main ≡ attending → Step s (record s { main = configuring; configured = some s.viper })
    finish : s.main ≡ configuring → Step s (record s { main = receiving })

  -- The states that can be reached from a state.
  pub data Run (s : State) : State → Type 0 where
    here : Run s s
    later : {t u : State} → Run s t → Step t u → Run s u

-- The command's own start is over.
abbrev pub booted : Main → Bool
booted parsing = false
booted (parsed n) = false
booted _ = true

-- Whether an event is held that the goroutine acts on.
abbrev pub any_relevant : Watch → List Event → Bool
any_relevant watch [] = false
any_relevant watch (e ∷ es) = relevant watch e || any_relevant watch es

-- There is nothing left to do: no event is on its way, and the command waits for one.
pub record Quiet (watch : Watch) (s : State) : Type 0 where
  pub selecting : s.watcher ≡ selecting
  pub no_event : any_relevant watch s.events ≡ false
  pub empty : s.full ≡ false
  pub receiving : s.main ≡ receiving
