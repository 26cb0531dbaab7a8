-- ===== src/Operator.antt =====
-- operator/: the Kubernetes operator that runs Vault servers.
pub mod Unsealing
pub mod Objects
pub mod Spec
pub mod Fabricate
pub mod Handle
mod Tests
