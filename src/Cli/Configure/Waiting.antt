-- ===== src/Cli/Configure/Waiting.antt =====
-- When cmd/bank-vaults/configure.go configures the server.
use bank_vaults.Prelude.{
  if◌then◌else◌, String, Bool, true, false, ℕ, zero, suc, ◌<◌, Option, none, some, Result, ok, err,
  panic, List, [], ◌∷◌, ◌≡◌, refl, ◌∙◌, arith, Exec,
}
use bank_vaults.Kv.{Error}
use bank_vaults.Vault.{Vault, sealed}
use bank_vaults.Vault.Configure.Api.{Admin, Host}
use bank_vaults.Vault.Configure.{configure}
use bank_vaults.Vault.Configure.Token.{configure_clears_token}
use bank_vaults.Cli.Configure.{
  Event, Watch, relevant, attend, configure_event, followed, loaded, configure_events,
  configure_command,
}

-- An answer of `Sealed` that makes the command wait.
pub data Waits : Result Error (Bool × Option Error) → Type 0 where
  failed : (s : Bool) (e : Error) → Waits (ok (s, some e))
  is_sealed : Waits (ok (true, none))

module _ {W : Type 0} (admin : Admin W) (host : Host W) (v : Vault W) (sleep : W → W) where
  -- The world before round `i` of the wait.
  abbrev pub round : ℕ → W → W
  round zero w = w
  round (suc i) w = round i (sleep (sealed v w).1)

  attend-Waits :
      (rest : Option (Result String (Unit {0}) × W)) {r : Result Error (Bool × Option Error)}
      (w : W)
      → Waits r
      → attend admin host v sleep rest r w ≡ rest
  unfolding attend
  attend-Waits rest w (failed s e) = refl
  attend-Waits rest w is_sealed = refl

  -- If the first `n` answers of `Sealed` are errors or `true` and the next one is `false`, then the
  -- command configures the server once, after the `n` waits, and goes on with what `Configure` leaves:
  -- `n + 1` rounds are enough.
  pub waits_then_configures :
      (n : ℕ) (w : W)
      → ((i : ℕ) → i < n → Waits (sealed v (round i w)).0)
      → (sealed v (round n w)).0 ≡ ok (false, none)
      → configure_event admin host v sleep (suc n) w
        ≡ some (configure admin host v (sealed v (round n w)).1)
  unfolding configure_event attend
  waits_then_configures zero w waiting ready = rw ready refl
  waits_then_configures (suc n) w waiting ready =
      attend-Waits _ (sealed v w).1 (waiting 0 (omega arith))
      ∙ waits_then_configures n (sleep (sealed v w).1) (λ i h. waiting (suc i) (omega arith)) ready

  module _ (token : W → String) (sets : (t : String) (w : W) → token (v.cl.set_token t w) ≡ t)
      (reads : (k : String) (w : W) → token (v.key_store.get k w).1 ≡ token w)
      (asks : (w : W) → token (sealed v w).1 ≡ token w)
      (sleeps : (w : W) → token (sleep w) ≡ token w) where
    -- No token in the world that the run leaves.
    abbrev pub Tokenless : Option (Result String (Unit {0}) × W) → Type 0
    Tokenless none = Unit {0}
    Tokenless (some (r, w)) = token w ≡ ""

    attend-Tokenless :
        (rest : Option (Result String (Unit {0}) × W)) (r : Result Error (Bool × Option Error))
        (w : W)
        → token w ≡ ""
        → Tokenless rest
        → Tokenless (attend admin host v sleep rest r w)
    unfolding attend
    attend-Tokenless rest (ok (s, some e)) w h k = k
    attend-Tokenless rest (ok (true, none)) w h k = k
    attend-Tokenless rest (ok (false, none)) w h k =
        configure_clears_token admin host v token sets reads w h
    attend-Tokenless rest (err e) w h k = k
    attend-Tokenless rest (panic s) w h k = h

    event-Tokenless :
        (fuel : ℕ) (w : W) → token w ≡ "" → Tokenless (configure_event admin host v sleep fuel w)
    unfolding configure_event
    event-Tokenless zero w h = tt
    event-Tokenless (suc fuel) w h =
        let h' : token (sealed v w).1 ≡ "" = asks w ∙ h in
        attend-Tokenless _ (sealed v w).0 (sealed v w).1 h' (event-Tokenless fuel _ (sleeps _ ∙ h'))

    followed-Tokenless :
        (rest : W → Option (Result String (Unit {0}) × W))
        (o : Option (Result String (Unit {0}) × W))
        → ((w : W) → token w ≡ "" → Tokenless (rest w))
        → Tokenless o
        → Tokenless (followed admin host v sleep rest o)
    unfolding followed
    followed-Tokenless rest none k h = tt
    followed-Tokenless rest (some (ok u, w)) k h = k w h
    followed-Tokenless rest (some (err e, w)) k h = k w h
    followed-Tokenless rest (some (panic s, w)) k h = h

    loaded-Tokenless :
        (handle rest : W → Option (Result String (Unit {0}) × W)) (r : Result String (Unit {0}))
        (w : W)
        → ((w : W) → token w ≡ "" → Tokenless (handle w))
        → ((w : W) → token w ≡ "" → Tokenless (rest w))
        → token w ≡ ""
        → Tokenless (loaded admin host v sleep handle rest (r, w))
    unfolding loaded
    loaded-Tokenless handle rest (ok u) w hh hr h = followed-Tokenless rest (handle w) hr (hh w h)
    loaded-Tokenless handle rest (err e) w hh hr h = h
    loaded-Tokenless handle rest (panic s) w hh hr h = h

    if-Tokenless :
        (c : Bool) (o p : Option (Result String (Unit {0}) × W))
        → Tokenless o
        → Tokenless p
        → Tokenless (if c then o else p)
    if-Tokenless true o p h k = h
    if-Tokenless false o p h k = k

    events-Tokenless :
        (watch : Watch) (load : Event → Exec W String (Unit {0})) (fuel : ℕ) (es : List Event)
        (w : W)
        → ((e : Event) (u : W) → token (load e u).1 ≡ token u)
        → token w ≡ ""
        → Tokenless (configure_events admin host v sleep watch load fuel es w)
    unfolding configure_events
    events-Tokenless watch load fuel [] w loads h = h
    events-Tokenless watch load fuel (e ∷ es) w loads h =
        if-Tokenless (relevant watch e) _ _
          (loaded-Tokenless _ _ (load e w).0 (load e w).1 (event-Tokenless fuel)
            (λ u. events-Tokenless watch load fuel es u loads) (loads e w ∙ h))
          (events-Tokenless watch load fuel es w loads h)

    -- If the server's status, reads of the key store, the load of the configuration and what happens
    -- during a sleep leave the client's token alone, then the command leaves the client without a
    -- token after its first configuration and any number of changes of the file, also where Configure
    -- failed or panicked.
    pub configure_command-Tokenless :
        (watch : Watch) (parse : Exec W String (Unit {0})) (load : Event → Exec W String (Unit {0}))
        (fuel : ℕ) (es : List Event) (w : W)
        → ((u : W) → token (parse u).1 ≡ token u)
        → ((e : Event) (u : W) → token (load e u).1 ≡ token u)
        → token w ≡ ""
        → Tokenless (configure_command admin host v sleep watch parse load fuel es w)
    unfolding configure_command
    configure_command-Tokenless watch parse load fuel es w parses loads h =
        loaded-Tokenless _ _ (parse w).0 (parse w).1 (event-Tokenless fuel)
          (λ u. events-Tokenless watch load fuel es u loads) (parses w ∙ h)
