-- ===== src/Cli/Reload/Looping.antt =====
-- What the steps of the configure command (cmd/bank-vaults/configure.go) and its watcher keep.
use bank_vaults.Prelude.{Bool, true, false, ℕ, none, ◌≡◌, ◌≢◌, ◌⊎◌, inl, inr, refl}
use bank_vaults.Cli.Configure.{Watch}
use bank_vaults.Cli.Reload.{
  starting, Main, parsing, parsed, announcing, receiving, attending, configuring, State, start,
  Step, Run, here, later, booted,
}

-- The command is in its loop.
abbrev pub looping : Main → Bool
looping receiving = true
looping attending = true
looping configuring = true
looping _ = false

pub looping-booted : (m : Main) → looping m ≡ true → booted m ≡ true
looping-booted parsing l = l
looping-booted (parsed n) l = l
looping-booted announcing l = refl
looping-booted receiving l = refl
looping-booted attending l = refl
looping-booted configuring l = refl

module _ (watch : Watch) where
  Step-looping : {s t : State} → Step watch s t → looping s.main ≡ true → looping t.main ≡ true
  Step-looping (Step.edit_unwatched w) l = l
  Step-looping (Step.edit e w r) l = l
  Step-looping (Step.report e w) l = l
  Step-looping (Step.add_directory w) l = l
  Step-looping (Step.skip e es w h r) l = l
  Step-looping (Step.take e es w h r) l = l
  Step-looping (Step.read_in w) l = l
  Step-looping (Step.read_fails w) l = l
  Step-looping (Step.parse_again w) l = l
  Step-looping (Step.store_again n w) l = l
  Step-looping (Step.send w f) l = l
  Step-looping (Step.parse m) l = absurd (cc)
  Step-looping (Step.store n m) l = absurd (cc)
  Step-looping (Step.announce m f) l = refl
  Step-looping (Step.receive m f) l = refl
  Step-looping (Step.wait m) l = l
  Step-looping (Step.configure m) l = refl
  Step-looping (Step.finish m) l = refl

  pub Run-looping : {s t : State} → Run watch s t → looping s.main ≡ true → looping t.main ≡ true
  Run-looping here l = l
  Run-looping (later r st) l = Step-looping st (Run-looping r l)

  Step-watching : {s t : State} → Step watch s t → s.watcher ≢ starting → t.watcher ≢ starting
  Step-watching (Step.edit_unwatched w) h = h
  Step-watching (Step.edit e w r) h = h
  Step-watching (Step.report e w) h = h
  Step-watching (Step.add_directory w) h = λ k. cc
  Step-watching (Step.skip e es w k r) h = h
  Step-watching (Step.take e es w k r) h = λ k. cc
  Step-watching (Step.read_in w) h = λ k. cc
  Step-watching (Step.read_fails w) h = λ k. cc
  Step-watching (Step.parse_again w) h = λ k. cc
  Step-watching (Step.store_again n w) h = λ k. cc
  Step-watching (Step.send w f) h = λ k. cc
  Step-watching (Step.parse m) h = h
  Step-watching (Step.store n m) h = h
  Step-watching (Step.announce m f) h = h
  Step-watching (Step.receive m f) h = h
  Step-watching (Step.wait m) h = h
  Step-watching (Step.configure m) h = h
  Step-watching (Step.finish m) h = h

  pub Run-watching : {s t : State} → Run watch s t → s.watcher ≢ starting → t.watcher ≢ starting
  Run-watching here h = h
  Run-watching (later r st) h = Step-watching st (Run-watching r h)

  -- Only the loop begins Configure.
  abbrev Untouched : State → Type 0
  Untouched s = (s.configured ≡ none) ⊎ (looping s.main ≡ true)

  Step-Untouched : {s t : State} → Step watch s t → Untouched s → Untouched t
  Step-Untouched (Step.edit_unwatched w) u = u
  Step-Untouched (Step.edit e w r) u = u
  Step-Untouched (Step.report e w) u = u
  Step-Untouched (Step.add_directory w) u = u
  Step-Untouched (Step.skip e es w h r) u = u
  Step-Untouched (Step.take e es w h r) u = u
  Step-Untouched (Step.read_in w) u = u
  Step-Untouched (Step.read_fails w) u = u
  Step-Untouched (Step.parse_again w) u = u
  Step-Untouched (Step.store_again n w) u = u
  Step-Untouched (Step.send w f) u = u
  Step-Untouched (Step.parse m) u = elim u [ inl c ↦ inl c | inr l ↦ absurd (cc) ]
  Step-Untouched (Step.store n m) u = elim u [ inl c ↦ inl c | inr l ↦ absurd (cc) ]
  Step-Untouched (Step.announce m f) u = inr refl
  Step-Untouched (Step.receive m f) u = inr refl
  Step-Untouched (Step.wait m) u = u
  Step-Untouched (Step.configure m) u = inr refl
  Step-Untouched (Step.finish m) u = inr refl

  Run-Untouched : {s t : State} → Run watch s t → Untouched s → Untouched t
  Run-Untouched here u = u
  Run-Untouched (later r st) u = Step-Untouched st (Run-Untouched r u)

  -- The channel has an event, and the command is yet to put its own into it.
  record Blocked (s : State) : Type 0 where
    outside : looping s.main ≡ false
    full : s.full ≡ true

  Step-Blocked : {s t : State} → Step watch s t → Blocked s → Blocked t
  Step-Blocked (Step.edit_unwatched w) b = record { outside = b.outside; full = b.full }
  Step-Blocked (Step.edit e w r) b = record { outside = b.outside; full = b.full }
  Step-Blocked (Step.report e w) b = record { outside = b.outside; full = b.full }
  Step-Blocked (Step.add_directory w) b = record { outside = b.outside; full = b.full }
  Step-Blocked (Step.skip e es w h r) b = record { outside = b.outside; full = b.full }
  Step-Blocked (Step.take e es w h r) b = record { outside = b.outside; full = b.full }
  Step-Blocked (Step.read_in w) b = record { outside = b.outside; full = b.full }
  Step-Blocked (Step.read_fails w) b = record { outside = b.outside; full = b.full }
  Step-Blocked (Step.parse_again w) b = record { outside = b.outside; full = b.full }
  Step-Blocked (Step.store_again n w) b = record { outside = b.outside; full = b.full }
  Step-Blocked (Step.send w f) b = record { outside = b.outside; full = refl }
  Step-Blocked (Step.parse m) b = record { outside = refl; full = b.full }
  Step-Blocked (Step.store n m) b = record { outside = refl; full = b.full }
  Step-Blocked (Step.announce m f) b = absurd (let there = b.full in cc)
  Step-Blocked (Step.receive m f) b = absurd (let out = b.outside in cc)
  Step-Blocked (Step.wait m) b = b
  Step-Blocked (Step.configure m) b = absurd (let out = b.outside in cc)
  Step-Blocked (Step.finish m) b = absurd (let out = b.outside in cc)

  Run-Blocked : {s t : State} → Run watch s t → Blocked s → Blocked t
  Run-Blocked here b = b
  Run-Blocked (later r st) b = Step-Blocked st (Run-Blocked r b)

  -- If the goroutine's event is in the channel before the command has come to its loop, then
  -- the command never begins Configure and never comes to its loop: its own event finds the
  -- channel full, and only the loop would empty it.
  pub early_event_blocks :
      {s t : State} (file : ℕ)
      → Run watch (start file) s
      → looping s.main ≡ false
      → s.full ≡ true
      → Run watch s t
      → (t.configured ≡ none) × (looping t.main ≡ false)
  early_event_blocks file before outside full after =
      let blocked = Run-Blocked after (record { outside = outside; full = full }) in
      let out = blocked.outside in
      elim (Run-Untouched after (Run-Untouched before (inl refl))) [
        | inl never ↦ (never, out)
        | inr inside ↦ absurd (cc)
      ]
