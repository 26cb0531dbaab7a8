-- ===== src/Cli/Reload/Fresh.antt =====
-- No change of the configuration file is lost once the command of configure.go has started.
use bank_vaults.Prelude.{
  Bool, true, false, ◌||◌, ℕ, some, List, [], ◌∷◌, ◌++◌, ◌≡◌, ◌≢◌, ◌⊎◌, inl, inr, refl, ap, arith,
}
use bank_vaults.Cli.Configure.{Watch, Event, relevant}
use bank_vaults.Cli.Reload.{
  Config, rendered, Watcher, starting, selecting, reading_in, parsing_again, parsed_again, sending,
  Main, receiving, configuring, State, start, edited, Step, Run, here, later, booted, any_relevant,
  Quiet,
}

-- The goroutine has yet to read the file, or viper has it as it is.
abbrev Current : ℕ → Config → Watcher → Type 0
Current file viper starting = ⊥
Current file viper selecting = viper ≡ rendered file
Current file viper reading_in = Unit
Current file viper parsing_again = Unit
Current file viper (parsed_again n) = n ≡ file
Current file viper sending = viper ≡ rendered file

-- The goroutine will send an event.
abbrev sends : Watcher → Bool
sends parsing_again = true
sends (parsed_again n) = true
sends sending = true
sends _ = false

-- The command will begin Configure.
abbrev will_configure : Main → Bool
will_configure receiving = false
will_configure configuring = false
will_configure _ = true

module _ (watch : Watch) where
  any_relevant-append :
      (es : List Event) (e : Event)
      → any_relevant watch (es ++ e ∷ []) ≡ (any_relevant watch es || relevant watch e)
  any_relevant-append [] e = ground arith
  any_relevant-append (x ∷ es) e = ground (arith, any_relevant-append es e)

  -- What holds after a change that is made once the start is over.
  record Noticed (s : State) : Type 0 where
    watching : s.watcher ≢ starting
    is_booted : booted s.main ≡ true
    noticed : (any_relevant watch s.events ≡ true) ⊎ Current s.file s.viper s.watcher

  Step-Noticed : {s t : State} → Noticed s → Step watch s t → Noticed t
  Step-Noticed inv (Step.edit_unwatched w) = absurd (inv.watching w)
  Step-Noticed {s} inv (Step.edit e w relevant_e) = record {
    watching = inv.watching;
    is_booted = inv.is_booted;
    noticed = inl (ground (arith, any_relevant-append s.events e));
  }
  Step-Noticed {s} inv (Step.report e w) = record {
    watching = inv.watching;
    is_booted = inv.is_booted;
    noticed = elim inv.noticed [
      | inl held ↦ inl (ground (arith, any_relevant-append s.events e))
      | inr current ↦ inr current
    ];
  }
  Step-Noticed inv (Step.add_directory w) = absurd (inv.watching w)
  Step-Noticed {s} inv (Step.skip e es w held irrelevant) = record {
    watching = inv.watching;
    is_booted = inv.is_booted;
    noticed = elim inv.noticed [
      | inl some_held ↦ inl (rw (held, irrelevant) at some_held)
      | inr current ↦ inr current
    ];
  }
  Step-Noticed inv (Step.take e es w held relevant_e) = record {
    watching = λ h. cc;
    is_booted = inv.is_booted;
    noticed = inr tt;
  }
  Step-Noticed inv (Step.read_in w) = record {
    watching = λ h. cc;
    is_booted = inv.is_booted;
    noticed = inr tt;
  }
  Step-Noticed inv (Step.read_fails w) = record {
    watching = λ h. cc;
    is_booted = inv.is_booted;
    noticed = inr tt;
  }
  Step-Noticed inv (Step.parse_again w) = record {
    watching = λ h. cc;
    is_booted = inv.is_booted;
    noticed = inr refl;
  }
  Step-Noticed {s} inv (Step.store_again n w) = record {
    watching = λ h. cc;
    is_booted = inv.is_booted;
    noticed = elim inv.noticed [
      | inl held ↦ inl held
      | inr current ↦ let same : n ≡ s.file = rw w at current in inr (ap rendered same)
    ];
  }
  Step-Noticed {s} inv (Step.send w free) = record {
    watching = λ h. cc;
    is_booted = inv.is_booted;
    noticed = elim inv.noticed [ inl held ↦ inl held | inr current ↦ inr (rw w at current) ];
  }
  Step-Noticed inv (Step.parse m) = absurd (let b = inv.is_booted in cc)
  Step-Noticed inv (Step.store n m) = absurd (let b = inv.is_booted in cc)
  Step-Noticed inv (Step.announce m free) = record {
    watching = inv.watching;
    is_booted = refl;
    noticed = inv.noticed;
  }
  Step-Noticed inv (Step.receive m there) = record {
    watching = inv.watching;
    is_booted = refl;
    noticed = inv.noticed;
  }
  Step-Noticed inv (Step.wait m) = inv
  Step-Noticed inv (Step.configure m) = record {
    watching = inv.watching;
    is_booted = refl;
    noticed = inv.noticed;
  }
  Step-Noticed inv (Step.finish m) = record {
    watching = inv.watching;
    is_booted = refl;
    noticed = inv.noticed;
  }

  Run-Noticed : {s t : State} → Noticed s → Run watch s t → Noticed t
  Run-Noticed inv here = inv
  Run-Noticed inv (later r st) = Step-Noticed (Run-Noticed inv r) st

  -- Configure was begun with what viper has, or it will be begun again.
  abbrev Due : State → Type 0
  Due s =
      (s.configured ≡ some s.viper) ⊎ ((s.full || will_configure s.main || sends s.watcher) ≡ true)

  Step-Due : {s t : State} → Due s → Step watch s t → Due t
  Step-Due due (Step.edit_unwatched w) = due
  Step-Due due (Step.edit e w r) = due
  Step-Due due (Step.report e w) = due
  Step-Due due (Step.add_directory w) = ground arith
  Step-Due due (Step.skip e es w h r) = due
  Step-Due due (Step.take e es w h r) = ground arith
  Step-Due due (Step.read_in w) = inr (ground arith)
  Step-Due due (Step.read_fails w) = inr (ground arith)
  Step-Due due (Step.parse_again w) = inr (ground arith)
  Step-Due due (Step.store_again n w) = inr (ground arith)
  Step-Due due (Step.send w f) = inr refl
  Step-Due due (Step.parse m) = inr (ground arith)
  Step-Due due (Step.store n m) = inr (ground arith)
  Step-Due due (Step.announce m f) = inr refl
  Step-Due due (Step.receive m f) = inr refl
  Step-Due due (Step.wait m) = due
  Step-Due due (Step.configure m) = inl refl
  Step-Due due (Step.finish m) = ground arith

  Run-Due : {s t : State} → Due s → Run watch s t → Due t
  Run-Due due here = due
  Run-Due due (later r st) = Step-Due (Run-Due due r) st

  configured_when_quiet :
      {t : State} → Quiet watch t → Noticed t → Due t → t.configured ≡ some (rendered t.file)
  configured_when_quiet {t} quiet inv due = elim inv.noticed [
    | inl held ↦ absurd (let none_held = quiet.no_event in cc)
    | inr current ↦
        let fresh : t.viper ≡ rendered t.file = rw quiet.selecting at current in
        elim due [
          | inl begun ↦ ground arith
          | inr again ↦
              let never : false ≡ true =
                rw (quiet.empty, quiet.receiving, quiet.selecting) at again in
              cc
        ]
  ]

  -- If the configuration file is changed once the command's start is over and the directory is
  -- watched, then in every later state in which there is nothing left to do, Configure was last
  -- begun when viper had the rendered file as it is in that state, whatever the interleaving and
  -- however often the file was changed in between.
  pub no_change_lost :
      {s t : State} (file : ℕ) (e : Event)
      → Run watch (start file) s
      → booted s.main ≡ true
      → s.watcher ≢ starting
      → relevant watch e ≡ true
      → Run watch (edited watch e s) t
      → Quiet watch t
      → t.configured ≡ some (rendered t.file)
  no_change_lost {s} {t} file e before is_booted watching relevant_e after quiet =
      let inv =
        Run-Noticed
          (record {
            watching = watching;
            is_booted = is_booted;
            noticed = inl (ground (arith, any_relevant-append s.events e));
          })
          after in
      let due = Run-Due (Run-Due {s = start file} (inr refl) before) after in
      configured_when_quiet quiet inv due
