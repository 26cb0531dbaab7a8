-- ===== src/Operator/Handle/Owned.antt =====
-- The objects that Handle of operator/pkg/stub/handler.go creates, and whose they are.
use bank_vaults.Prelude.{
  String, Bool, true, false, Option, none, some, [], ◌∷◌, Result, ok, err, panic, pure,
  map_err-lift-eq-ok, Dict, ◌≡◌, refl, ap, ◌∙◌, Keeps, keeps_rules, concat, join, ◌⊎◌, inl, inr,
  Keeps-bind, Keeps-bind_ok, Keeps-pure, Keeps-fail, Keeps-panics, Keeps-map_err, Keeps-lift,
}
use bank_vaults.Operator.Objects.{
  ObjectMeta, WorkloadSpec, Object, secret, stateful_set, etcd_cluster, service, deployment,
  config_map,
}
use bank_vaults.Operator.Spec.{VaultCr}
use bank_vaults.Operator.Fabricate.{Library, etcd_hosts, secret_for_etcd, secret_for_vault}
use bank_vaults.Operator.Fabricate.Configurer.{
  deployment_for_configurer, service_for_vault, config_map_for_configurer,
}
use bank_vaults.Operator.Fabricate.Etcd.Belongs.{
  BelongsTo, etcd_for_vault-BelongsTo, stateful_set_for_vault-BelongsTo,
}
use bank_vaults.Operator.Handle.Same.{Same, update_status-Same, ensure_stateful_set-Same}
use bank_vaults.Operator.Handle.{
  Cluster, ApiError, already_exists, absent, other, create, prepare_etcd, found_set, replace,
  ensure_stateful_set, update_status, synchronize, configure, reconcile, handle,
}

-- What Handle updates.
abbrev pub updatable : Object → Bool
updatable (stateful_set m x) = true
updatable (config_map m x) = true
updatable _ = false

-- The hosts for which Handle asks GenerateTLS: those of the Vault, or of an etcd cluster in its
-- namespace.
pub Requested : {Any : Type 0} → VaultCr Any → String → Type 0
Requested v hosts =
    (hosts ≡ concat (v.name ∷ "." ∷ v.namespace ∷ ",127.0.0.1" ∷ []))
    ⊎ ((m : ObjectMeta) × (m.namespace ≡ v.namespace) × (hosts ≡ join "," (etcd_hosts m)))

-- `P` is an invariant of the cluster's API as long as what is created belongs to the CR, what is updated
-- is a stateful set, a config map or a CR, and certificates are for the hosts of the CR.
pub record Watched {W Any : Type 0} (api : Cluster W Any) (lib : Library Any) (v : VaultCr Any)
    (P : W → Type 0) : Type 0 where
  pub creates : (obj : Object) → BelongsTo lib v obj → Keeps P (api.create obj)
  pub updates : (obj : Object) → updatable obj ≡ true → Keeps P (api.update obj)
  pub updates_vault : (u : VaultCr Any) → Keeps P (api.update_vault u)
  pub gets_set : (namespace name : String) → Keeps P (api.get_stateful_set namespace name)
  pub gets_map : (namespace name : String) → Keeps P (api.get_config_map namespace name)
  pub lists : (namespace : String) (labels : Dict String) → Keeps P (api.list_pods namespace labels)
  pub generates :
      (hosts validity : String) → Requested v hosts → Keeps P (api.generate_tls hosts validity)

module _ {W Any : Type 0} (api : Cluster W Any) (lib : Library Any) (v : VaultCr Any)
    (P : W → Type 0) (watched : Watched api lib v P) where
  BelongsTo-Same :
      (u : VaultCr Any) (obj : Object) → Same lib v u → BelongsTo lib u obj → BelongsTo lib v obj
  BelongsTo-Same u obj (owner, namespace, _) (o, n) = (o ∙ ap (λ x. x ∷ []) owner, n ∙ namespace)

  create-Keeps :
      (what : String) (obj : Object) → BelongsTo lib v obj → Keeps P (create api lib what obj)
  unfolding create
  create-Keeps what obj b = record { at = (watched.creates obj b).at }

  prepare_etcd-Keeps : (t : String) → Keeps P (prepare_etcd api lib v t)
  unfolding prepare_etcd secret_for_etcd Requested
  prepare_etcd-Keeps t = Keeps-bind_ok _ _ (Keeps-map_err _ _ (Keeps-lift _)) λ w cluster e.
      let b = etcd_for_vault-BelongsTo lib v t cluster (map_err-lift-eq-ok _ _ w e) in
      Keeps-bind _ _ (Keeps-map_err _ _ (watched.generates _ _ (inr (_, b.1, refl))))
        λ chain. Keeps-bind _ _ (create-Keeps _ _ (refl, b.1)) λ _. create-Keeps _ _ b

  replace-Keeps :
      (u : VaultCr Any) (t : String) (meta : ObjectMeta) (obj : Object)
      → Keeps P (replace api lib u t meta obj)
  unfolding replace
  replace-Keeps u t meta (stateful_set m spec) = Keeps-map_err _ _ (watched.updates _ refl)
  replace-Keeps u t meta (secret m x) = Keeps-panics _
  replace-Keeps u t meta (etcd_cluster m x) = Keeps-panics _
  replace-Keeps u t meta (service m x) = Keeps-panics _
  replace-Keeps u t meta (deployment m x) = Keeps-panics _
  replace-Keeps u t meta (config_map m x) = Keeps-panics _

  found_set-Keeps :
      (u : VaultCr Any) (t : String) (obj : Object)
      (r : Result ApiError (ObjectMeta × WorkloadSpec))
      → BelongsTo lib v obj
      → Keeps P (found_set api lib u t obj r)
  unfolding found_set
  found_set-Keeps u t obj (ok (meta, spec)) b =
      Keeps-bind _ _ (Keeps-map_err _ _ (Keeps-lift _))
        λ again. Keeps-bind _ _ (replace-Keeps u t meta again) λ _. Keeps-pure _
  found_set-Keeps u t obj (err (absent m)) b =
      Keeps-bind _ _ (Keeps-map_err _ _ (watched.creates obj b)) λ _. Keeps-pure _
  found_set-Keeps u t obj (err (already_exists m)) b = Keeps-fail _
  found_set-Keeps u t obj (err (other m)) b = Keeps-fail _
  found_set-Keeps u t obj (panic s) b = Keeps-panics _

  pub ensure_stateful_set-Keeps : (t : String) → Keeps P (ensure_stateful_set api lib v t)
  unfolding ensure_stateful_set
  ensure_stateful_set-Keeps t = Keeps-bind_ok _ _ (Keeps-map_err _ _ (Keeps-lift _)) λ w obj e.
      record {
        at = λ w1 h.
            (found_set-Keeps _ t obj _
                (stateful_set_for_vault-BelongsTo lib v t obj (map_err-lift-eq-ok _ _ w e))).at
              _ ((watched.gets_set _ _).at w1 h);
      }

  update_status-Keeps : (u : VaultCr Any) → Keeps P (update_status api lib u)
  unfolding update_status
  update_status-Keeps u = search (keeps_rules, watched.lists, watched.updates_vault)

  update_map-Keeps :
      (meta : ObjectMeta) (entries : Option (Dict String))
      → Keeps P (api.update (config_map meta entries))
  update_map-Keeps meta entries = watched.updates _ refl

  synchronize-Keeps :
      (config : String) (meta : ObjectMeta) (entries : Option (Dict String))
      → Keeps P (synchronize api lib config meta entries)
  unfolding synchronize
  synchronize-Keeps config meta none = search keeps_rules
  synchronize-Keeps config meta (some entries) = search (keeps_rules, update_map-Keeps)

  configure-Keeps : (u : VaultCr Any) → Same lib v u → Keeps P (configure api lib u)
  unfolding configure service_for_vault deployment_for_configurer config_map_for_configurer
  configure-Keeps u s =
      Keeps-bind _ _ (create-Keeps _ _ (BelongsTo-Same u (service_for_vault lib u) s (refl, refl)))
        λ _.
          Keeps-bind _ _
            (create-Keeps _ _ (BelongsTo-Same u (deployment_for_configurer lib u) s (refl, refl)))
            λ _.
              Keeps-bind _ _
                (create-Keeps _ _
                  (BelongsTo-Same u (config_map_for_configurer lib u) s (refl, refl)))
                λ _.
                  Keeps-bind _ _ (Keeps-map_err _ _ (watched.gets_map _ _))
                    λ (meta, entries). synchronize-Keeps _ meta entries

  reconcile-Keeps : (t : String) → Keeps P (reconcile api lib v t)
  unfolding reconcile secret_for_vault Requested
  reconcile-Keeps t = Keeps-bind _ _ (search (keeps_rules, prepare_etcd-Keeps t)) λ _.
      Keeps-bind _ _ (Keeps-map_err _ _ (watched.generates _ _ (inl refl))) λ chain.
        Keeps-bind _ _ (create-Keeps _ _ (refl, refl)) λ _.
          Keeps-bind_ok _ _ (ensure_stateful_set-Keeps t) λ w v1 e1.
            Keeps-bind_ok _ _ (update_status-Keeps v1) λ w' v2 e2. configure-Keeps v2 (
              update_status-Same api lib v v1 w' v2 (ensure_stateful_set-Same api lib v t w v1 e1)
                e2)

  -- Whatever the event, the answers of the API and the errors on the way are: an invariant that
  -- creating an object of the CR's own (its one owner is the CR, and it stands in its namespace)
  -- keeps, and that updates of stateful sets and config maps, updates of a CR, certificates for the
  -- hosts of the CR and reads keep, holds after Handle if it held before.
  pub handle_creates_owned : (deleted : Bool) (w : W) → P w → P (handle api lib deleted v w).1
  unfolding handle pure
  handle_creates_owned true w h = h
  handle_creates_owned false w h = (Keeps-bind _ _ (Keeps-lift _) (λ t. reconcile-Keeps t)).at w h
