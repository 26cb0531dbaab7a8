-- ===== src/Cli/Unseal.antt =====
-- cmd/bank-vaults/unseal.go: the loop that initializes and unseals the server again and again. The
-- fuel is that of Init's wait and of Unseal; logging is left out, and `logrus.Fatalf` exits with 1.
pub mod Rounds
use bank_vaults.Prelude.{
  String, Bool, true, false, ℕ, zero, suc, Option, none, some, Result, ok, err, panic,
  if◌then◌else◌,
}
use bank_vaults.Kv.{Error}
use bank_vaults.Vault.{Vault, sealed}
use bank_vaults.Vault.Init.{init}
use bank_vaults.Vault.Unseal.{unseal}

-- How a round ends: the process exits with a code or a panic, or sleeps and goes on, with the
-- `proceedInit` of the next round.
pub data Round : Type 0 where
  exits : ℕ → Round
  crashes : String → Round
  goes_on : Bool → Round

-- exitIfNecessary, and the return that follows it
pub exit_if_necessary : Bool → ℕ → Bool → Round
exit_if_necessary run_once code proceed_init = if run_once then exits code else goes_on proceed_init

module _ {W : Type 0} (v : Vault W) (sleep : W → W) (fuel : ℕ) (run_once : Bool) where
  pub unsealed : Bool → Option (Result Error (Unit {0}) × W) → Option (Round × W)
  unfolding exit_if_necessary
  unsealed proceed_init none = none
  unsealed proceed_init (some (ok u, w)) = some (exit_if_necessary run_once 0 proceed_init, w)
  unsealed proceed_init (some (err e, w)) = some (exit_if_necessary run_once 1 proceed_init, w)
  unsealed proceed_init (some (panic s, w)) = some (crashes s, w)

  -- What `Sealed` answered; it has no result `err`, since its error is in the pair.
  pub checked : Bool → Result Error (Bool × Option Error) → W → Option (Round × W)
  unfolding unsealed exit_if_necessary
  checked proceed_init (ok (s, some e)) w = some (exit_if_necessary run_once 1 proceed_init, w)
  checked proceed_init (ok (true, none)) w = unsealed proceed_init (unseal v fuel w)
  checked proceed_init (ok (false, none)) w = some (exit_if_necessary run_once 0 proceed_init, w)
  checked proceed_init (err e) w = some (exit_if_necessary run_once 1 proceed_init, w)
  checked proceed_init (panic s) w = some (crashes s, w)

  pub check : Bool → W → Option (Round × W)
  unfolding checked
  check proceed_init w = let (r, w') = sealed v w in checked proceed_init r w'

  pub initialized : Option (Result Error (Unit {0}) × W) → Option (Round × W)
  unfolding check
  initialized none = none
  initialized (some (ok u, w)) = check false w
  initialized (some (err e, w)) = some (exits 1, w)
  initialized (some (panic s, w)) = some (crashes s, w)

  -- One round of the loop.
  unfoldable pub round : Bool → W → Option (Round × W)
  unfolding initialized check
  round true w = initialized (init v sleep fuel w)
  round false w = check false w

  -- `n` rounds at most, with the sleep of a period between them.
  continued : (Bool → W → Option (Round × W)) → Option (Round × W) → Option (Round × W)
  continued rest (some (goes_on proceed_init, w)) = rest proceed_init (sleep w)
  continued rest r = r

  unfoldable pub rounds : ℕ → Bool → W → Option (Round × W)
  unfolding continued round
  rounds zero proceed_init w = some (goes_on proceed_init, w)
  rounds (suc n) proceed_init w = continued (λ p w'. rounds n p w') (round proceed_init w)
