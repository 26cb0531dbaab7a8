-- ===== src/Operator/Handle/Replicas.antt =====
-- What Handle of operator/pkg/stub/handler.go does with a custom resource of several replicas.
use bank_vaults.Prelude.{
  String, true, false, pos, ltb_ℤ, ok, lift, map_err, map_err-lift-eq-ok, ◌>>=◌, bind-eq-ok, ◌≡◌,
  ◌≢◌, sym, ◌∙◌, ok_inj, subst,
}
use bank_vaults.Operator.Objects.{Object}
use bank_vaults.Operator.Spec.{VaultCr, get_storage_type, has_ha_storage}
use bank_vaults.Operator.Fabricate.{Library}
use bank_vaults.Operator.Fabricate.Etcd.{stateful_set_for_vault}
use bank_vaults.Operator.Handle.{Cluster, failed, ensure_stateful_set, reconcile, handle}

module _ {W Any : Type 0} (api : Cluster W Any) (lib : Library Any) (v : VaultCr Any)
    (several : ltb_ℤ (pos 1) v.spec.size ≡ true) where
  refused :
      (t : String) (obj : Object)
      → has_ha_storage lib.cast v.spec t ≡ false
      → (stateful_set_for_vault lib v t).0 ≢ ok obj
  unfolding stateful_set_for_vault
  refused t obj no_ha h = cc

  ensure_stateful_set-ne-ok :
      (t : String) (w : W) (u : VaultCr Any)
      → has_ha_storage lib.cast v.spec t ≡ false
      → (ensure_stateful_set api lib v t w).0 ≢ ok u
  unfolding ensure_stateful_set
  ensure_stateful_set-ne-ok t w u no_ha h =
      let (obj, made, _, _) =
        bind-eq-ok
          (map_err (failed "fabricate StatefulSet") (lift (stateful_set_for_vault lib v t).0)) _ w
          h in
      refused t obj no_ha (map_err-lift-eq-ok _ _ w made)

  reconcile-ne-ok :
      (t : String) (w : W)
      → has_ha_storage lib.cast v.spec t ≡ false
      → (reconcile api lib v t w).0 ≢ ok tt
  unfolding reconcile
  reconcile-ne-ok t w no_ha h =
      let (_, _, h1, _) = bind-eq-ok _ _ w h in
      let (_, _, h2, _) = bind-eq-ok _ _ _ h1 in
      let (_, _, h3, _) = bind-eq-ok _ _ _ h2 in
      let (u, ensured, _, _) = bind-eq-ok _ _ _ h3 in ensure_stateful_set-ne-ok t _ u no_ha ensured

  -- If more than one replica is asked for and the storage is not one with high availability
  -- enabled, then Handle does not return without an error, whatever the cluster answers.
  pub handle_refuses_replicas :
      (t : String) (w : W)
      → get_storage_type lib.cast v.spec ≡ ok t
      → has_ha_storage lib.cast v.spec t ≡ false
      → (handle api lib false v w).0 ≢ ok tt
  unfolding handle ◌>>=◌
  handle_refuses_replicas t w storage no_ha h =
      let (t', found, rest, _) = bind-eq-ok (lift (get_storage_type lib.cast v.spec)) _ w h in
      reconcile-ne-ok t' _
        (subst (λ s. has_ha_storage lib.cast v.spec s ≡ false) (ok_inj (sym storage ∙ found)) no_ha)
        rest
