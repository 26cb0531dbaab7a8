-- ===== src/Cli.antt =====
-- cmd/bank-vaults: the command that runs `Init` and `Unseal` on the store that its flags choose.
pub mod Flags
pub mod Stores
pub mod Unseal
pub mod Setup
pub mod Init
pub mod Configure
pub mod Reload
