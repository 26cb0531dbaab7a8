-- ===== src/Operator/Handle/Configured.antt =====
-- What `configure`, the end of Handle of operator/pkg/stub/handler.go, brings about in the cluster.
use bank_vaults.Prelude.{
  String, Option, none, some, wrapped-eq-ok, map_err, ◌>>=◌, bind-eq-ok, map_err-eq-ok, Dict,
  lookup, insert, ◌==◌, ◌≡◌, refl, sym, subst, ◌∙◌, inl, inr, Bool-cases, Ensures, Gives,
  Gives-first, Gives-rest, eq_iff, lookup-insert,
}
use bank_vaults.Operator.Objects.{ObjectMeta, Object, config_map}
use bank_vaults.Operator.Spec.{VaultCr, external_config_json}
use bank_vaults.Operator.Fabricate.{Library}
use bank_vaults.Operator.Fabricate.Configurer.{
  deployment_for_configurer, service_for_vault, config_map_for_configurer,
}
use bank_vaults.Operator.Handle.{Cluster, failed, text, or_empty, synchronize, configure}
use bank_vaults.Operator.Handle.Registry.{config_maps, Place, Registry}
use bank_vaults.Operator.Handle.Settled.{config_of, Configured}
use bank_vaults.Operator.Handle.Calm.{
  create-Gives, from_map, Standing-Calm, one-Calm, two-Calm, place_same, maps_keep,
}

module _ {W Any : Type 0} (api : Cluster W Any) (lib : Library Any)
    (stands : W → Place → Option Object) (reg : Registry api stands) where
  module _ (config : String) (meta : ObjectMeta) where
    abbrev MapStands : Option (Dict String) → W → Type 0
    MapStands entries w =
        stands w (record { kind = config_maps; namespace = meta.namespace; name = meta.name })
        ≡ some (config_map meta entries)

    synchronize-Ensures :
        (entries : Option (Dict String))
        → Ensures
            (MapStands entries)
            (synchronize api lib config meta entries)
            (λ _ w. (after : Option (Dict String)) × MapStands after w × (config_of after ≡ config))
    unfolding synchronize or_empty ◌>>=◌
    synchronize-Ensures none = record {
      at = λ w a held h. elim (Bool-cases (config == "")) [
        | inl e ↦ (none, rw e held, sym ((eq_iff config "").0 e))
        | inr e ↦ absurd cc
      ];
    }
    synchronize-Ensures (some entries) = record {
      at = λ w a held h.
          elim (Bool-cases (or_empty (lookup "vault-config.yml" entries) == config)) [
            | inl e ↦ (some entries, rw e held, (eq_iff _ config).0 e)
            | inr e ↦ (
              some (insert "vault-config.yml" config entries),
              rw e (
                  reg.updates _ w (
                    map_err-eq-ok (λ x. failed "update configurer configmap" (text x))
                      (api.update
                        (config_map meta (some (insert "vault-config.yml" config entries))))
                      w (rw e at h))),
              rw (lookup-insert "vault-config.yml" "vault-config.yml" config entries) refl,
            )
          ];
    }

  -- The config map stands with the configuration.
  abbrev MapSettled : String → String → String → W → Type 0
  MapSettled namespace name config w =
      (meta : ObjectMeta) × (entries : Option (Dict String)) × (meta.namespace ≡ namespace)
      × (meta.name ≡ name)
      × (stands w (record { kind = config_maps; namespace = namespace; name = name })
          ≡ some (config_map meta entries))
      × (config_of entries ≡ config)

  from_map-Gives :
      (namespace name config : String)
      → Gives
          (from_map api lib stands reg namespace name config)
          (λ _. MapSettled namespace name config)
  unfolding ◌>>=◌
  from_map-Gives namespace name config = record {
    at = λ w a _ h.
        let ((meta, entries), got, rest, ends) =
          bind-eq-ok
            (map_err (λ e. failed "get deployment" (text e)) (api.get_config_map namespace name))
            (λ (meta, entries). synchronize api lib config meta entries) w h in
        let (ns, n, there) = reg.gets_map namespace name meta entries w (
          wrapped-eq-ok (λ e. failed "get deployment" (text e))
            (api.get_config_map namespace name w).0 got) in
        let held : MapStands config meta entries (api.get_config_map namespace name w).1 =
          rw (reg.get_map_keeps namespace name w)
            (place_same api lib stands reg config_maps meta ns n w ∙ there) in
        let (after, stood, same) = (synchronize-Ensures config meta entries).at _ a held rest in
        subst (MapSettled namespace name config) (sym ends) (
          meta,
          after,
          ns,
          n,
          sym (place_same api lib stands reg config_maps meta ns n _) ∙ stood,
          same,
        );
  }

  pub configure-Gives :
      (u : VaultCr Any)
      → Gives
          (configure api lib u)
          (λ _ w. Configured u.namespace u.name (external_config_json lib.cast u.spec) (stands w))
  unfolding configure service_for_vault deployment_for_configurer config_map_for_configurer
  configure-Gives u = record {
    at = λ w a h e. record {
      service =
          (Gives-first _ _ (create-Gives api lib stands reg _ (service_for_vault lib u)) (λ _.
              two-Calm api lib stands reg _ (Standing-Calm api lib stands reg _)
                (maps_keep api lib stands reg _ (λ e. cc)) _ _ _ _ _ _ _)).at
            w a h e;
      deployment =
          (Gives-rest _ _ λ _.
              Gives-first _ _ (create-Gives api lib stands reg _ (deployment_for_configurer lib u))
                (λ _.
                  one-Calm api lib stands reg _ (Standing-Calm api lib stands reg _)
                    (maps_keep api lib stands reg _ (λ e. cc)) _ _ _ _ _)).at
            w a h e;
      config_map =
          (Gives-rest _ _ λ _. Gives-rest _ _ λ _. Gives-rest _ _ λ _. from_map-Gives _ _ _).at w a
            h e;
    };
  }
