-- ===== src/Renewal.antt =====
-- vault/vault.go: the client that gets a token with the service account of a pod and renews it in a
-- goroutine. The goroutine, the caller of NewClient and the users of the client are interleaved in
-- any order; each access to what they share is a step. Logging is left out. The secrets and the
-- renewers of hashicorp/vault/api are parameters: a login may answer anything, and a renewer may end
-- at any time; a renewer is the number of those made before it.
pub mod Start
pub mod Closing
pub mod Announcing
mod Tests
use bank_vaults.Prelude.{String, Bool, true, false, ℕ, suc, Option, none, some, ◌≡◌, refl}

-- The parts of a secret that are read.
pub record Secret : Type 0 where
  pub client_token : String
  pub lease_id : String

-- Where the goroutine stands, with the variables that are live there.
pub data Pc : Type 0 where
  checking : Pc  -- the head of the loop
  logging_in : Pc
  logged_in : Secret → Pc
  token_set : Secret → Pc
  announced : Pc  -- before NewRenewer
  renewer_made : ℕ → Pc
  published : ℕ → Pc  -- before `go tokenRenewer.Renew()`
  waiting : ℕ → Pc  -- runRenewChecker
  over : Pc
  crashed : Pc  -- no secret, or one without Auth: the process ends

-- Where NewClientWithConfig stands.
pub data Caller : Type 0 where
  awaiting : Caller  -- <-initialTokenArrived
  returned : Caller

-- Client, with the channel initialTokenArrived, the variable initialTokenSent, and the renewers that
-- were made, started and told to stop.
pub record State : Type 0 where
  pub pc : Pc
  pub caller : Caller
  pub token : String
  pub token_renewer : Option ℕ
  pub closed : Bool
  pub arrived : Option String
  pub sent : Bool
  pub made : ℕ
  pub started : ℕ → Bool
  pub stopped : ℕ → Bool

abbrev pub alive : Pc → Bool
alive crashed = false
alive _ = true

-- A family changed at one index.
abbrev pub put : ℕ → (ℕ → Bool) → ℕ → Bool
put n f m = elim (Prim.Native.Nat.compare m n) [ Prim.Native.Nat.Ordering.eq ↦ true | _ ↦ f m ]

-- The client as NewClientWithConfig starts the goroutine.
abbrev pub start : State
start = record {
  pc = checking;
  caller = awaiting;
  token = "";
  token_renewer = none;
  closed = false;
  arrived = none;
  sent = false;
  made = 0;
  started = λ _. false;
  stopped = λ _. false;
}

-- Close, under the lock.
abbrev pub close_renewer : Option ℕ → State → State
close_renewer none s = s
close_renewer (some n) s = record s { closed = true; stopped = put n s.stopped }

abbrev pub close : State → State
close s = close_renewer s.token_renewer s

-- To show something of a closed client, show it for a client without a renewer and with one.
pub close-cases :
    (P : State → Type 0) (s : State)
    → (s.token_renewer ≡ none → P s)
    → ((n : ℕ)
        → s.token_renewer ≡ some n
        → P (record s { closed = true; stopped = put n s.stopped }))
    → P (close s)
close-cases P s h k = go s.token_renewer refl
  where
    go : (o : Option ℕ) → s.token_renewer ≡ o → P (close_renewer o s)
    go none e = h e
    go (some n) e = k n e

pub data Step (s : State) : State → Type 0 where
  leave : s.pc ≡ checking → s.closed ≡ true → Step s (record s { pc = over })
  go_on : s.pc ≡ checking → s.closed ≡ false → Step s (record s { pc = logging_in })
  login_fails : s.pc ≡ logging_in → Step s (record s { pc = checking })
  login_crashes : s.pc ≡ logging_in → Step s (record s { pc = crashed })
  login : (x : Secret) → s.pc ≡ logging_in → Step s (record s { pc = logged_in x })
  set_token :
      (x : Secret)
      → s.pc ≡ logged_in x
      → Step s (record s { pc = token_set x; token = x.client_token })
  announce :
      (x : Secret)
      → s.pc ≡ token_set x
      → s.sent ≡ false
      → s.arrived ≡ none
      → Step s (record s { pc = announced; arrived = some x.lease_id; sent = true })
  skip_announcing :
      (x : Secret) → s.pc ≡ token_set x → s.sent ≡ true → Step s (record s { pc = announced })
  renewer_fails : s.pc ≡ announced → Step s (record s { pc = checking })
  make_renewer :
      s.pc ≡ announced → Step s (record s { pc = renewer_made s.made; made = suc s.made })
  publish :
      (n : ℕ)
      → s.pc ≡ renewer_made n
      → Step s (record s { pc = published n; token_renewer = some n })
  run :
      (n : ℕ) → s.pc ≡ published n → Step s (record s { pc = waiting n; started = put n s.started })
  renewed : (n : ℕ) → s.pc ≡ waiting n → Step s s
  done : (n : ℕ) → s.pc ≡ waiting n → Step s (record s { pc = checking })
  receive :
      (id : String)
      → s.caller ≡ awaiting
      → s.arrived ≡ some id
      → alive s.pc ≡ true
      → Step s (record s { caller = returned; arrived = none })
  -- A user has the client from when NewClient has returned.
  closing : s.caller ≡ returned → alive s.pc ≡ true → Step s (close s)

-- The runs from a state.
pub data Run (s : State) : State → Type 0 where
  here : Run s s
  later : {t u : State} → Run s t → Step t u → Run s u
