-- ===== src/Operator/Handle/Secrets.antt =====
-- The secrets that are there before Handle of operator/pkg/stub/handler.go.
use bank_vaults.Prelude.{String, Bool, true, Option, some, Dict, Keeps-same, ◌≡◌}
use bank_vaults.Operator.Objects.{Object}
use bank_vaults.Operator.Spec.{VaultCr}
use bank_vaults.Operator.Fabricate.{Library}
use bank_vaults.Operator.Handle.{Cluster, handle}
use bank_vaults.Operator.Handle.Owned.{updatable, handle_creates_owned}

-- A cluster with the secrets `secrets`, by namespace and name: a create leaves an object that is there
-- as it is, an update of a stateful set or a config map touches no secret, and so do the other calls.
pub record Guarded {W Any : Type 0} (api : Cluster W Any)
    (secrets : W → String → String → Option (Dict String)) : Type 0 where
  pub creates :
      (obj : Object) (namespace name : String) (d : Dict String) (w : W)
      → secrets w namespace name ≡ some d
      → secrets (api.create obj w).1 namespace name ≡ some d
  pub updates :
      (obj : Object) (w : W) → updatable obj ≡ true → secrets (api.update obj w).1 ≡ secrets w
  pub updates_vault : (u : VaultCr Any) (w : W) → secrets (api.update_vault u w).1 ≡ secrets w
  pub gets_set : (ns n : String) (w : W) → secrets (api.get_stateful_set ns n w).1 ≡ secrets w
  pub gets_map : (ns n : String) (w : W) → secrets (api.get_config_map ns n w).1 ≡ secrets w
  pub lists : (ns : String) (l : Dict String) (w : W) → secrets (api.list_pods ns l w).1 ≡ secrets w
  pub generates : (h d : String) (w : W) → secrets (api.generate_tls h d w).1 ≡ secrets w

-- On such a cluster, a secret that is there before an event has the same data after it, whatever
-- Handle returns: the certificates of a Vault and of its etcd cluster, which every event generates
-- again, stay those that were stored first.
pub handle_keeps_secrets :
    {W Any : Type 0} (api : Cluster W Any) (lib : Library Any) (v : VaultCr Any)
    (secrets : W → String → String → Option (Dict String))
    → Guarded api secrets
    → (deleted : Bool) (namespace name : String) (d : Dict String) (w : W)
    → secrets w namespace name ≡ some d
    → secrets (handle api lib deleted v w).1 namespace name ≡ some d
handle_keeps_secrets api lib v secrets guarded deleted namespace name d w held =
    let Q : (String → String → Option (Dict String)) → Type 0 = λ s. s namespace name ≡ some d in
    handle_creates_owned api lib v (λ u. Q (secrets u))
      (record {
        creates = λ obj _. record { at = λ u h. guarded.creates obj namespace name d u h };
        updates = λ obj c. Keeps-same secrets Q (api.update obj) (λ u. guarded.updates obj u c);
        updates_vault = λ u. Keeps-same secrets Q (api.update_vault u) (guarded.updates_vault u);
        gets_set = λ ns n. Keeps-same secrets Q (api.get_stateful_set ns n) (guarded.gets_set ns n);
        gets_map = λ ns n. Keeps-same secrets Q (api.get_config_map ns n) (guarded.gets_map ns n);
        lists = λ ns l. Keeps-same secrets Q (api.list_pods ns l) (guarded.lists ns l);
        generates = λ h t _. Keeps-same secrets Q (api.generate_tls h t) (guarded.generates h t);
      })
      deleted w held
