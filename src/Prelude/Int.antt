-- ===== src/Prelude/Int.antt =====
-- Go's `int`, as an integer; `negsuc n` is -(n + 1).
use Prim.Native.Nat.{ℕ, suc}
use mathlib.Core.Bool.{Bool, true, false}
use bank_vaults.Prelude.Tests.{ltb}

pub data ℤ : Type 0 where
  pos : ℕ → ℤ
  negsuc : ℕ → ℤ

-- a < b
abbrev pub ltb_ℤ : ℤ → ℤ → Bool
ltb_ℤ (pos a) (pos b) = ltb a b
ltb_ℤ (pos a) (negsuc b) = false
ltb_ℤ (negsuc a) (pos b) = true
ltb_ℤ (negsuc a) (negsuc b) = ltb b a

-- The rounds of `for i := 0; i <= n; i++`.
abbrev pub rounds_to : ℤ → ℕ
rounds_to (pos n) = suc n
rounds_to (negsuc n) = 0
