-- ===== src/Operator/Handle/Again.antt =====
-- Handle of operator/pkg/stub/handler.go in a cluster that has all that it makes: it changes nothing.
use bank_vaults.Prelude.{
  String, false, Option, none, some, List, [], ◌∷◌, Result, ok, err, panic, map_err, lift, ◌>>=◌,
  map_err-eq-ok, map_err-lift-eq-ok, ok_inj, Dict, concat, ◌≡◌, refl, sym, ap, subst, ◌∙◌, Keeps,
  Keeps-bind, Keeps-bind_ok, Keeps-if, Keeps-lift, Keeps-pure, Keeps-fail, Keeps-panics,
  kept_by_bind, Keeps-map_err, Keeps-same, keeps_rules, eq_iff,
}
use bank_vaults.Operator.Objects.{ObjectMeta, WorkloadSpec, Object, stateful_set}
use bank_vaults.Operator.Spec.{VaultCr, get_storage_type, external_config_json}
use bank_vaults.Operator.Fabricate.{Library, secret_for_etcd, as_owner, secret_for_vault}
use bank_vaults.Operator.Fabricate.Configurer.{
  deployment_for_configurer, service_for_vault, config_map_for_configurer,
}
use bank_vaults.Operator.Fabricate.Etcd.{etcd_for_vault, stateful_set_for_vault}
use bank_vaults.Operator.Fabricate.Etcd.Belongs.{set_meta, stateful_set_for_vault-SetOf}
use bank_vaults.Operator.Handle.{
  Cluster, failed, text, ApiError, already_exists, absent, other, create, prepare_etcd, found_set,
  replace, ensure_stateful_set, update_status, synchronize, configure, reconcile, handle,
}
use bank_vaults.Operator.Handle.Registry.{stateful_sets, config_maps, Place, place, Registry}
use bank_vaults.Operator.Handle.Same.{Same, ensure_stateful_set-Same, update_status-Same}
use bank_vaults.Operator.Handle.Settled.{Standing, config_of, Configured, Settled}
use bank_vaults.Operator.Fabricate.Etcd.Again.{
  CastLaws, stateful_set_for_vault-again, stateful_set_for_vault-nodes,
}
use bank_vaults.Operator.Handle.Settled.{Standing, config_of, Configured, Settled}
use bank_vaults.Operator.Handle.Established.{configured_same, handle_establishes}

module _ {W Any : Type 0} (api : Cluster W Any) (lib : Library Any)
    (stands : W → Place → Option Object) (reg : Registry api stands) (laws : CastLaws lib.cast)
    (v : VaultCr Any) (t : String) (at : Place → Option Object) (settled : Settled lib v t at) where
  abbrev P : W → Type 0
  P w = stands w ≡ at

  abbrev Q : (Place → Option Object) → Type 0
  Q now = now ≡ at

  create-Keeps :
      (what : String) (obj : Object) → Standing (at (place obj)) → Keeps P (create api lib what obj)
  unfolding create
  create-Keeps what obj (x, there) = record {
    at = λ w e. reg.create_again obj x w (ap (λ now. now (place obj)) e ∙ there) ∙ e;
  }

  prepare_etcd-Keeps : t ≡ "etcd" → Keeps P (prepare_etcd api lib v t)
  unfolding prepare_etcd secret_for_etcd
  prepare_etcd-Keeps is_etcd = Keeps-bind_ok _ _ (Keeps-map_err _ _ (Keeps-lift _)) λ w cluster e.
      let (stood, secret_stood) = settled.etcd is_etcd cluster (map_err-lift-eq-ok _ _ w e) in
      Keeps-bind _ _ (Keeps-map_err _ _ (Keeps-same stands Q _ (reg.generate_keeps _ _)))
        λ chain. Keeps-bind _ _ (create-Keeps _ _ secret_stood) λ _. create-Keeps _ _ stood

  update_set-Keeps :
      (meta : ObjectMeta) (spec : WorkloadSpec)
      → at (place (stateful_set meta spec)) ≡ some (stateful_set meta spec)
      → Keeps P (api.update (stateful_set meta spec))
  update_set-Keeps meta spec there = record {
    at = λ w e.
        reg.update_again _ w (ap (λ now. now (place (stateful_set meta spec))) e ∙ there) ∙ e;
  }

  place_at :
      (meta : ObjectMeta)
      → meta.namespace ≡ v.namespace
      → meta.name ≡ v.name
      → at (record { kind = stateful_sets; namespace = meta.namespace; name = meta.name })
        ≡ at (record { kind = stateful_sets; namespace = v.namespace; name = v.name })
  place_at meta ns n = rw (ns, n) refl

  module _ (spec : WorkloadSpec)
      (made : (stateful_set_for_vault lib v t).0 ≡ ok (stateful_set (set_meta lib v) spec)) where
    abbrev v1 : VaultCr Any
    v1 = (stateful_set_for_vault lib v t).1

    made_again : (stateful_set_for_vault lib v1 t).0 ≡ ok (stateful_set (set_meta lib v) spec)
    made_again = ap (λ p. p.0) (stateful_set_for_vault-again lib laws t v _ made) ∙ made

    -- A set that is found is the one that stands, and is written as it stands.
    found-Keeps :
        (meta : ObjectMeta) (x : WorkloadSpec)
        → meta.namespace ≡ v.namespace
        → meta.name ≡ v.name
        → at (record { kind = stateful_sets; namespace = v.namespace; name = v.name })
          ≡ some (stateful_set meta x)
        → Keeps P (replace api lib v1 t meta (stateful_set (set_meta lib v) spec))
    unfolding replace
    found-Keeps meta x ns n there =
        let (m, _, _, held) = settled.set spec made in
        let same : meta ≡ m = cc in
        Keeps-map_err _ _ (
          update_set-Keeps meta spec
            (place_at meta ns n ∙ held ∙ ap (λ m. some (stateful_set m spec)) (sym same)))

    found_set-Keeps :
        (w0 : W) (r : Result ApiError (ObjectMeta × WorkloadSpec))
        → P w0
        → (api.get_stateful_set v.namespace v.name w0).0 ≡ r
        → Keeps P (found_set api lib v1 t (stateful_set (set_meta lib v) spec) r)
    unfolding found_set
    found_set-Keeps w0 (ok (meta, x)) e got =
        let (ns, n, x', there) = reg.gets_set v.namespace v.name meta x w0 got in
        rw made_again (
          Keeps-bind_ok _ _ (Keeps-map_err _ _ (Keeps-lift _)) λ w again returned.
            let same : stateful_set (set_meta lib v) spec ≡ again =
              ok_inj (map_err-lift-eq-ok _ _ w returned) in
            let now =
              ap
                (λ at. at (record { kind = stateful_sets; namespace = v.namespace; name = v.name }))
                e in
            Keeps-bind _ _
              (subst (λ o. Keeps P (replace api lib v1 t meta o)) same
                (found-Keeps meta x' ns n (sym now ∙ there)))
              λ _. Keeps-pure _)
    found_set-Keeps w0 (err (absent m)) e got =
        let (m', _, _, held) = settled.set spec made in
        absurd (
          let none_there = reg.set_absent v.namespace v.name m w0 got in
          let now =
            ap
              (λ now. now (record { kind = stateful_sets; namespace = v.namespace; name = v.name }))
              e in
          cc)
    found_set-Keeps w0 (err (already_exists m)) e got = Keeps-fail _
    found_set-Keeps w0 (err (other m)) e got = Keeps-fail _
    found_set-Keeps w0 (panic x) e got = Keeps-panics _

  ensure_stateful_set-Keeps : Keeps P (ensure_stateful_set api lib v t)
  unfolding ensure_stateful_set
  ensure_stateful_set-Keeps = Keeps-bind_ok _ _ (Keeps-map_err _ _ (Keeps-lift _)) λ w obj e.
      let made = map_err-lift-eq-ok _ _ w e in
      let (spec, is) = stateful_set_for_vault-SetOf lib v t obj made in
      record {
        at = λ w1 h.
            (subst
                (λ o. Keeps P (
                  found_set api lib (stateful_set_for_vault lib v t).1 t o
                    (api.get_stateful_set v.namespace v.name w1).0))
                (sym is) (found_set-Keeps spec (made ∙ ap ok is) w1 _ h refl)).at
              _ (reg.get_set_keeps _ _ w1 ∙ h);
      }

  update_status-Keeps : (u : VaultCr Any) → Keeps P (update_status api lib u)
  unfolding update_status
  update_status-Keeps u = search (
    keeps_rules,
    λ (ns : String) (l : Dict String).
        Keeps-same stands Q (api.list_pods ns l) (reg.list_keeps ns l),
    λ (u : VaultCr Any). Keeps-same stands Q (api.update_vault u) (reg.update_vault_keeps u),
  )

  synchronize-Keeps :
      (config : String) (meta : ObjectMeta) (entries : Option (Dict String))
      → config_of entries ≡ config
      → Keeps P (synchronize api lib config meta entries)
  unfolding synchronize
  synchronize-Keeps config meta none same = search keeps_rules
  synchronize-Keeps config meta (some entries) same = rw ((eq_iff _ config).1 same) (Keeps-pure tt)

  module _ (namespace name config : String) (has : Configured namespace name config at) where
    from_map-Keeps : Keeps P (do
      (meta, entries) ←
          map_err
            (λ e. failed "get deployment" (text e))
            (api.get_config_map namespace (concat (name ∷ "-configurer" ∷ [])))
      synchronize api lib config meta entries)
    from_map-Keeps = record {
      at = λ w e.
          kept_by_bind P
            (map_err (λ e. failed "get deployment" (text e))
              (api.get_config_map namespace (concat (name ∷ "-configurer" ∷ []))))
            (λ (meta, entries). synchronize api lib config meta entries) w
            (unfold map_err in (reg.get_map_keeps _ _ w ∙ e))
            λ (meta, entries) got.
              let (_, _, there) =
                reg.gets_map namespace (concat (name ∷ "-configurer" ∷ [])) meta entries w (
                  map_err-eq-ok (λ e. failed "get deployment" (text e))
                    (api.get_config_map namespace (concat (name ∷ "-configurer" ∷ []))) w got) in
              let (m, kept, _, _, stood, same) = has.config_map in
              let now =
                ap
                  (λ at. at (record {
                    kind = config_maps;
                    namespace = namespace;
                    name = concat (name ∷ "-configurer" ∷ []);
                  }))
                  e in
              let entries_same : entries ≡ kept = cc in
              (synchronize-Keeps config meta entries (rw entries_same same)).at _
                (unfold map_err in (reg.get_map_keeps _ _ w ∙ e));
    }

  configure-Keeps : (u : VaultCr Any) → Same lib v u → Keeps P (configure api lib u)
  unfolding configure service_for_vault deployment_for_configurer config_map_for_configurer as_owner
  configure-Keeps u (owner, namespace, config) =
      let has : Configured u.namespace u.name (external_config_json lib.cast u.spec) at =
        configured_same lib u v at (sym owner, sym namespace, sym config) settled.configured in
      let (m, kept, _, _, stood, same) = has.config_map in
      Keeps-bind _ _ (create-Keeps _ _ has.service) λ _.
        Keeps-bind _ _ (create-Keeps _ _ has.deployment)
          λ _. Keeps-bind _ _ (create-Keeps _ _ (_, stood)) λ _. from_map-Keeps _ _ _ has

  reconcile-Keeps : Keeps P (reconcile api lib v t)
  unfolding reconcile secret_for_vault
  reconcile-Keeps =
      Keeps-bind _ _
        (Keeps-if _ _ _ (λ e. prepare_etcd-Keeps ((eq_iff t "etcd").0 e)) (λ _. Keeps-pure tt))
        λ _.
          Keeps-bind _ _ (Keeps-map_err _ _ (Keeps-same stands Q _ (reg.generate_keeps _ _)))
            λ chain. Keeps-bind _ _ (create-Keeps _ _ settled.tls) λ _.
              Keeps-bind_ok _ _ ensure_stateful_set-Keeps λ w v1 e1.
                Keeps-bind_ok _ _ (update_status-Keeps v1) λ w' v2 e2. configure-Keeps v2 (
                  update_status-Same api lib v v1 w' v2
                    (ensure_stateful_set-Same api lib v t w v1 e1) e2)

-- What stands does not depend on the status of the CR.
Settled-nodes :
    {Any : Type 0} (lib : Library Any) (v : VaultCr Any) (t : String) (at : Place → Option Object)
    (nodes : List String)
    → Settled lib v t at
    → Settled lib (record v { nodes = nodes }) t at
unfolding etcd_for_vault as_owner
Settled-nodes lib v t at nodes settled = record {
  etcd = settled.etcd;
  tls = settled.tls;
  set = λ spec made. settled.set spec (sym (stateful_set_for_vault-nodes lib v t nodes) ∙ made);
  configured = settled.configured;
}

module _ {W Any : Type 0} (api : Cluster W Any) (lib : Library Any)
    (stands : W → Place → Option Object) (reg : Registry api stands)
    (laws : CastLaws lib.cast) where
  handle-Keeps :
      (v : VaultCr Any) (t : String) (at : Place → Option Object)
      → get_storage_type lib.cast v.spec ≡ ok t
      → Settled lib v t at
      → Keeps (λ w. stands w ≡ at) (handle api lib false v)
  unfolding handle lift
  handle-Keeps v t at storage settled = Keeps-bind_ok _ _ (Keeps-lift _) λ w t' e.
      subst (λ x. Keeps (λ w. stands w ≡ at) (reconcile api lib v x)) (ok_inj (sym storage ∙ e))
        (reconcile-Keeps api lib stands reg laws v t at settled)

  -- On a cluster that behaves as the Kubernetes API documents, Handle converges: after an event that
  -- it has handled without an error, another event for the CR, whatever its status now is, leaves
  -- every object as it is, as long as the same objects stand when it comes: whatever the API
  -- answers then, and whatever Handle returns.
  pub handle_again_changes_nothing :
      (v : VaultCr Any) (t : String) (w : W)
      → get_storage_type lib.cast v.spec ≡ ok t
      → (handle api lib false v w).0 ≡ ok tt
      → (nodes : List String) (later : W) → stands later ≡ stands (handle api lib false v w).1
      → stands (handle api lib false (record v { nodes = nodes }) later).1 ≡ stands later
  handle_again_changes_nothing v t w storage h nodes later same =
      let settled =
        Settled-nodes lib v t _ nodes
          (handle_establishes api lib stands reg laws v t w storage h) in
      (handle-Keeps (record v { nodes = nodes }) t _ storage settled).at later same ∙ sym same
