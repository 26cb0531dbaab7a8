-- ===== src/Operator/Fabricate/Etcd/Belongs.antt =====
-- Owners and namespaces of the objects that etcdForVault and statefulSetForVault of
-- operator/pkg/stub/handler.go fabricate.
use bank_vaults.Prelude.{
  String, not, ◌&&◌, ltb_ℤ, pos, List, [], ◌∷◌, Result, ok, err, panic, ◌==◌, ◌≡◌, refl, sym,
  ok_inj, subst, Bool-cases, inl, inr,
}
use bank_vaults.Operator.Objects.{
  ObjectMeta, WorkloadSpec, EtcdSpec, Object, etcd_cluster, stateful_set, Volume, VolumeMount,
  meta_of,
}
use bank_vaults.Operator.Spec.{VaultCr, has_ha_storage, external_config_json}
use bank_vaults.Operator.Fabricate.{Library, as_owner, assembled}
use bank_vaults.Operator.Fabricate.Etcd.{
  etcd_for_vault, stateful_set_for_vault, cluster_of, with_etcd, with_tls_files,
}

module _ {Any : Type 0} (lib : Library Any) where
  -- The CR is the object's one owner, and they share a namespace, as an owner and what it owns must.
  abbrev pub BelongsTo : VaultCr Any → Object → Type 0
  BelongsTo v obj =
      ((meta_of obj).owner_references ≡ as_owner lib v ∷ [])
      × ((meta_of obj).namespace ≡ v.namespace)

  module _ (v : VaultCr Any) where
    cluster_of-BelongsTo :
        (r : Result String String) (obj : Object) → cluster_of lib v r ≡ ok obj → BelongsTo v obj
    unfolding cluster_of
    cluster_of-BelongsTo (ok name) obj h = subst (BelongsTo v) (ok_inj h) (refl, refl)
    cluster_of-BelongsTo (err e) obj h = cc
    cluster_of-BelongsTo (panic s) obj h = cc

    cluster_of-kind :
        (r : Result String String) (obj : Object)
        → cluster_of lib v r ≡ ok obj
        → (m : ObjectMeta) × (x : EtcdSpec) × (obj ≡ etcd_cluster m x)
    unfolding cluster_of
    cluster_of-kind (ok name) obj h = (_, _, sym (ok_inj h))
    cluster_of-kind (err e) obj h = cc
    cluster_of-kind (panic s) obj h = cc

    pub etcd_for_vault-kind :
        (t : String) (obj : Object)
        → etcd_for_vault lib v t ≡ ok obj
        → (m : ObjectMeta) × (x : EtcdSpec) × (obj ≡ etcd_cluster m x)
    unfolding etcd_for_vault
    etcd_for_vault-kind t obj h = cluster_of-kind _ obj h

    pub etcd_for_vault-BelongsTo :
        (t : String) (obj : Object) → etcd_for_vault lib v t ≡ ok obj → BelongsTo v obj
    unfolding etcd_for_vault
    etcd_for_vault-BelongsTo t obj h = cluster_of-BelongsTo _ obj h

  -- The metadata of the stateful set.
  abbrev pub set_meta : VaultCr Any → ObjectMeta
  set_meta v = record {
    name = v.name;
    namespace = v.namespace;
    labels = [];
    owner_references = as_owner lib v ∷ [];
  }

  -- A stateful set of the CR.
  abbrev pub SetOf : VaultCr Any → Object → Type 0
  SetOf v obj = (spec : WorkloadSpec) × (obj ≡ stateful_set (set_meta v) spec)

  assembled-SetOf :
      (v : VaultCr Any) (volumes : List Volume) (mounts : List VolumeMount)
      (r : Result String String) (obj : Object)
      → assembled lib v volumes mounts r ≡ ok obj
      → SetOf v obj
  unfolding assembled
  assembled-SetOf v volumes mounts (ok json) obj h = (_, sym (ok_inj h))
  assembled-SetOf v volumes mounts (err e) obj h = cc
  assembled-SetOf v volumes mounts (panic s) obj h = cc

  with_etcd-SetOf :
      (v : VaultCr Any) (r : Result String String) (obj : Object)
      → with_etcd lib v r ≡ ok obj
      → SetOf v obj
  unfolding with_etcd
  with_etcd-SetOf v (ok name) obj h = assembled-SetOf v _ _ _ obj h
  with_etcd-SetOf v (err e) obj h = cc
  with_etcd-SetOf v (panic s) obj h = cc

  pub stateful_set_for_vault-SetOf :
      (v : VaultCr Any) (t : String) (obj : Object)
      → (stateful_set_for_vault lib v t).0 ≡ ok obj
      → SetOf v obj
  unfolding stateful_set_for_vault with_tls_files as_owner
  stateful_set_for_vault-SetOf v t obj h =
      elim (Bool-cases (ltb_ℤ (pos 1) v.spec.size && not (has_ha_storage lib.cast v.spec t))) [
        | inl e ↦ absurd cc
        | inr e ↦ elim (Bool-cases (t == "etcd")) [
          | inl k ↦ with_etcd-SetOf (with_tls_files lib t v) _ obj (rw (e, k) at h)
          | inr k ↦ assembled-SetOf v _ _ _ obj (rw (e, k) at h)
        ]
      ]

  pub stateful_set_for_vault-BelongsTo :
      (v : VaultCr Any) (t : String) (obj : Object)
      → (stateful_set_for_vault lib v t).0 ≡ ok obj
      → BelongsTo v obj
  stateful_set_for_vault-BelongsTo v t obj h =
      let (spec, made) = stateful_set_for_vault-SetOf v t obj h in
      subst (BelongsTo v) (sym made) (refl, refl)

  -- The CR that the call leaves differs in its `config` at most.
  pub stateful_set_for_vault-keeps :
      (v : VaultCr Any) (t : String)
      → (as_owner lib (stateful_set_for_vault lib v t).1 ≡ as_owner lib v)
        × ((stateful_set_for_vault lib v t).1.namespace ≡ v.namespace)
        × (external_config_json lib.cast (stateful_set_for_vault lib v t).1.spec
            ≡ external_config_json lib.cast v.spec)
  unfolding stateful_set_for_vault with_tls_files as_owner external_config_json
  stateful_set_for_vault-keeps v t =
      elim (Bool-cases (ltb_ℤ (pos 1) v.spec.size && not (has_ha_storage lib.cast v.spec t))) [
        | inl e ↦ rw e (refl, refl, refl)
        | inr e ↦ elim (Bool-cases (t == "etcd")) [
          | inl k ↦ rw (e, k) (refl, refl, refl)
          | inr k ↦ rw (e, k) (refl, refl, refl)
        ]
      ]
