-- ===== src/Operator/Handle/Same.antt =====
-- What Handle of operator/pkg/stub/handler.go leaves of the custom resource that it is given, when its
-- stateful set and its status have been seen to.
use bank_vaults.Prelude.{
  String, Result, ok, err, panic, lift, bind-eq-ok, subst, map_err, ◌>>=◌, ◌≡◌, ◌∙◌, arith, ok_inj,
}
use bank_vaults.Operator.Objects.{ObjectMeta, WorkloadSpec, Object}
use bank_vaults.Operator.Spec.{VaultCr, external_config_json}
use bank_vaults.Operator.Fabricate.{Library, as_owner}
use bank_vaults.Operator.Fabricate.Etcd.{stateful_set_for_vault}
use bank_vaults.Operator.Fabricate.Etcd.Belongs.{stateful_set_for_vault-keeps}
use bank_vaults.Operator.Handle.{
  Cluster, failed, text, ApiError, already_exists, absent, other, found_set, replace,
  ensure_stateful_set, update_status,
}

-- A CR of the same name, owner and external configuration.
abbrev pub Same : {Any : Type 0} → Library Any → VaultCr Any → VaultCr Any → Type 0
Same lib v u =
    (as_owner lib u ≡ as_owner lib v)
    × (u.namespace ≡ v.namespace)
    × (external_config_json lib.cast u.spec ≡ external_config_json lib.cast v.spec)

module _ {W Any : Type 0} (api : Cluster W Any) (lib : Library Any) (v : VaultCr Any) where
  pub found_set-Same :
      (u : VaultCr Any) (t : String) (obj : Object)
      (r : Result ApiError (ObjectMeta × WorkloadSpec)) (w : W) (u' : VaultCr Any)
      → Same lib v u
      → (found_set api lib u t obj r w).0 ≡ ok u'
      → Same lib v u'
  unfolding found_set ◌>>=◌
  found_set-Same u t obj (ok (meta, spec)) w u' (owner, namespace, config) h =
      let (again, _, rest, _) =
        bind-eq-ok
          (map_err (failed "fabricate StatefulSet") (lift (stateful_set_for_vault lib u t).0)) _ w
          h in
      let (_, _, last, _) = bind-eq-ok (replace api lib u t meta again) _ _ rest in
      let (o, n, c) = stateful_set_for_vault-keeps lib u t in
      subst (Same lib v) (ok_inj last) (o ∙ owner, n ∙ namespace, c ∙ config)
  found_set-Same u t obj (err (absent m)) w u' s h =
      let (_, _, last, _) =
        bind-eq-ok (map_err (λ e. failed "create StatefulSet" (text e)) (api.create obj)) _ w h in
      subst (Same lib v) (ok_inj last) s
  found_set-Same u t obj (err (already_exists m)) w u' s h = cc
  found_set-Same u t obj (err (other m)) w u' s h = cc
  found_set-Same u t obj (panic x) w u' s h = cc

  pub ensure_stateful_set-Same :
      (t : String) (w : W) (u : VaultCr Any)
      → (ensure_stateful_set api lib v t w).0 ≡ ok u
      → Same lib v u
  unfolding ensure_stateful_set
  ensure_stateful_set-Same t w u h =
      let (obj, _, rest, _) =
        bind-eq-ok
          (map_err (failed "fabricate StatefulSet") (lift (stateful_set_for_vault lib v t).0)) _ w
          h in
      found_set-Same _ t obj _ _ u (stateful_set_for_vault-keeps lib v t) rest

  pub update_status-Same :
      (u : VaultCr Any) (w : W) (u' : VaultCr Any)
      → Same lib v u
      → (update_status api lib u w).0 ≡ ok u'
      → Same lib v u'
  unfolding update_status as_owner ◌>>=◌
  update_status-Same u w u' s h = ground arith
