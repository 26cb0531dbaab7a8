-- ===== src/Cli/Reload/Settling.antt =====
-- The configure command and its watcher (cmd/bank-vaults/configure.go) do what they have left to do:
-- from every state in which the loop has begun a run without a further change ends in a quiet one.
use bank_vaults.Prelude.{
  Bool, true, false, Bool-cases, ℕ, Option, some, List, [], ◌∷◌, ◌≡◌, ◌≢◌, inl, inr, refl,
}
use bank_vaults.Cli.Configure.{Watch, Event, relevant}
use bank_vaults.Cli.Reload.{
  Config, raw, rendered, Watcher, starting, selecting, reading_in, parsing_again, parsed_again,
  sending, Main, parsing, parsed, announcing, receiving, attending, configuring, State, start,
  edited, Step, Run, here, later, Quiet,
}
use bank_vaults.Cli.Reload.Fresh.{no_change_lost}
use bank_vaults.Cli.Reload.Looping.{looping, looping-booted, Run-looping, Run-watching}

abbrev at : ℕ → List Event → Config → Bool → Watcher → Main → Option Config → State
at file events viper full watcher main configured = record {
  file = file;
  events = events;
  viper = viper;
  full = full;
  watcher = watcher;
  main = main;
  configured = configured;
}

module _ (watch : Watch) where
  sooner : {s t u : State} → Step watch s t → Run watch t u → Run watch s u
  sooner st here = later here st
  sooner st (later r last) = later (sooner st r) last

  Run-append : {s t u : State} → Run watch s t → Run watch t u → Run watch s u
  Run-append r here = r
  Run-append r (later q last) = later (Run-append r q) last

  -- The loop takes the event out of the channel and comes back to it.
  run_receive :
      (file : ℕ) (es : List Event) (v : Config) (w : Watcher) (c : Option Config)
      → Run watch (at file es v true w receiving c) (at file es v false w receiving (some v))
  run_receive file es v w c =
      sooner (Step.receive refl refl)
        (sooner (Step.configure refl) (sooner (Step.finish refl) here))

  drains :
      (file : ℕ) (es : List Event) (v : Config) (w : Watcher) (c : Option Config) (full : Bool)
      (m : Main)
      → looping m ≡ true
      → (d : Option Config) × Run watch (at file es v full w m c) (at file es v false w receiving d)
  drains file es v w c false receiving l = (c, here)
  drains file es v w c false configuring l = (c, sooner (Step.finish refl) here)
  drains file es v w c false attending l =
      (some v, sooner (Step.configure refl) (sooner (Step.finish refl) here))
  drains file es v w c true receiving l = (some v, run_receive file es v w c)
  drains file es v w c true configuring l =
      (some v, sooner (Step.finish refl) (run_receive file es v w c))
  drains file es v w c true attending l = (
    some v,
    sooner (Step.configure refl) (sooner (Step.finish refl) (run_receive file es v w (some v))),
  )
  drains file es v w c full parsing l = absurd (cc)
  drains file es v w c full (parsed n) l = absurd (cc)
  drains file es v w c full announcing l = absurd (cc)

  -- The goroutine finishes the event that it has taken, and the loop its own.
  run_send :
      (file : ℕ) (es : List Event) (v : Config) (c : Option Config)
      → Run watch
          (at file es v false sending receiving c)
          (at file es v false selecting receiving (some v))
  run_send file es v c = sooner (Step.send refl refl) (run_receive file es v selecting c)

  run_parse :
      (file : ℕ) (es : List Event) (v : Config) (c : Option Config)
      → Run watch
          (at file es v false parsing_again receiving c)
          (at file es (rendered file) false selecting receiving (some (rendered file)))
  run_parse file es v c =
      sooner (Step.parse_again refl)
        (sooner (Step.store_again file refl) (run_send file es (rendered file) c))

  serves :
      (file : ℕ) (es : List Event) (v : Config) (w : Watcher) (c : Option Config)
      → w ≢ starting
      → (u : Config) × (d : Option Config) × Run watch
          (at file es v false w receiving c)
          (at file es u false selecting receiving d)
  serves file es v starting c watching = absurd (watching refl)
  serves file es v selecting c watching = (v, c, here)
  serves file es v sending c watching = (v, some v, run_send file es v c)
  serves file es v (parsed_again n) c watching = (
    rendered n,
    some (rendered n),
    sooner (Step.store_again n refl) (run_send file es (rendered n) c),
  )
  serves file es v parsing_again c watching =
      (rendered file, some (rendered file), run_parse file es v c)
  serves file es v reading_in c watching = (
    rendered file,
    some (rendered file),
    sooner (Step.read_in refl) (run_parse file es (raw file) c),
  )

  serves_all :
      (file : ℕ) (es : List Event) (v : Config) (c : Option Config)
      → (u : Config) × (d : Option Config) × Run watch
          (at file es v false selecting receiving c)
          (at file [] u false selecting receiving d)
  serves_all file [] v c = (v, c, here)
  serves_all file (e ∷ es) v c = elim (Bool-cases (relevant watch e)) [
    | inl acted ↦
        let (u1, d1, r1) = serves file es v reading_in c (λ h. cc) in
        let (u2, d2, r2) = serves_all file es u1 d1 in
        (u2, d2, sooner (Step.take e es refl refl acted) (Run-append r1 r2))
    | inr ignored ↦
        let (u, d, r) = serves_all file es v c in
        (u, d, sooner (Step.skip e es refl refl ignored) r)
  ]

  -- A quiet state follows, with the file as it is.
  abbrev pub Settles : State → Type 0
  Settles s = (t : State) × Run watch s t × Quiet watch t × (t.file ≡ s.file)

  settles : (s : State) → looping s.main ≡ true → s.watcher ≢ starting → Settles s
  settles s l watching =
      let (c1, r1) = drains s.file s.events s.viper s.watcher s.configured s.full s.main l in
      let (v2, c2, r2) = serves s.file s.events s.viper s.watcher c1 watching in
      let (v3, c3, r3) = serves_all s.file s.events v2 c2 in
      (
        at s.file [] v3 false selecting receiving c3,
        Run-append r1 (Run-append r2 r3),
        record { selecting = refl; no_event = refl; empty = refl; receiving = refl },
        refl,
      )

  -- Once the command is in its loop and the directory is watched, a change of the configuration
  -- file is configured: from every state after the change a run that changes the file no more
  -- leads to a state with nothing left to do, and Configure was last begun there when viper had
  -- the rendered file as it is.
  pub change_is_configured :
      {s t : State} (file : ℕ) (e : Event)
      → Run watch (start file) s
      → looping s.main ≡ true
      → s.watcher ≢ starting
      → relevant watch e ≡ true
      → Run watch (edited watch e s) t
      → (u : State) × Run watch t u
        × Quiet watch u
        × (u.file ≡ t.file)
        × (u.configured ≡ some (rendered t.file))
  change_is_configured {s} {t} file e before l watching relevant_e after =
      let (u, r, quiet, same) =
        settles t (Run-looping watch after l) (Run-watching watch after watching) in
      let fresh =
        no_change_lost watch file e before (looping-booted s.main l) watching relevant_e
          (Run-append after r) quiet in
      (u, r, quiet, same, rw same at fresh)
