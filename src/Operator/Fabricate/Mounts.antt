-- ===== src/Operator/Fabricate/Mounts.antt =====
-- Volumes and mounts of the pods that operator/pkg/stub/handler.go fabricates.
use bank_vaults.Prelude.{
  String, Bool, true, false, Bool-cases, not, ◌&&◌, ◌||◌, ltb_ℤ, pos, Option, none, some, List, [],
  ◌∷◌, ◌++◌, Result, ok, err, panic, ◌==◌, ◌≡◌, refl, arith, ok_inj, subst, inl, inr, eq_refl, All,
  All-append,
}
use bank_vaults.Operator.Objects.{
  Object, Volume, VolumeMount, PodTemplate, stateful_set, deployment, secret, etcd_cluster, service,
  config_map,
}
use bank_vaults.Operator.Spec.{VaultCr, has_ha_storage}
use bank_vaults.Operator.Fabricate.{
  Library, vault_container, unseal_container, mount, with_credentials_volume,
  with_credentials_volume_mount, vault_volumes, vault_mounts, stateful_spec, assembled,
}
use bank_vaults.Operator.Fabricate.Configurer.{configurer_spec, deployment_for_configurer}
use bank_vaults.Operator.Fabricate.Etcd.{stateful_set_for_vault, with_etcd, with_tls_files}

-- Some volume has the name.
abbrev pub declared : String → List Volume → Bool
declared name [] = false
declared name (v ∷ vs) = (v.name == name) || declared name vs

abbrev pub Declared : List Volume → List VolumeMount → Type 0
Declared volumes mounts = All (λ m. declared m.name volumes ≡ true) mounts

-- Every mount of every container names a volume of the pod.
abbrev pub Mountable : PodTemplate → Type 0
Mountable pod = All (λ c. Declared pod.volumes c.volume_mounts) pod.containers

declared-append :
    (name : String) (vs ws : List Volume)
    → declared name vs ≡ true
    → declared name (vs ++ ws) ≡ true
declared-append name [] ws h = cc
declared-append name (v ∷ vs) ws h = ground (arith, declared-append name vs ws)

declared-last : (vs : List Volume) (v : Volume) → declared v.name (vs ++ (v ∷ [])) ≡ true
declared-last [] v = ground (arith, eq_refl v.name)
declared-last (w ∷ vs) v = ground (arith, declared-last vs v)

Declared-append :
    (vs ws : List Volume) (ms : List VolumeMount) → Declared vs ms → Declared (vs ++ ws) ms
Declared-append vs ws [] h = tt
Declared-append vs ws (m ∷ ms) (h, k) = (declared-append m.name vs ws h, Declared-append vs ws ms k)

-- One more volume, and a mount of it.
Declared-both :
    (vs : List Volume) (ms : List VolumeMount) (v : Volume) (m : VolumeMount)
    → v.name ≡ m.name
    → Declared vs ms
    → Declared (vs ++ (v ∷ [])) (ms ++ (m ∷ []))
Declared-both vs ms v m e h =
    All-append _ ms (m ∷ []) (Declared-append vs (v ∷ []) ms h)
      (subst (λ n. declared n (vs ++ (v ∷ [])) ≡ true) e (declared-last vs v), tt)

module _ {Any : Type 0} (lib : Library Any) where
  Declared-credentials :
      (v : VaultCr Any) (vs : List Volume) (ms : List VolumeMount)
      → Declared vs ms
      → Declared (with_credentials_volume lib v vs) (with_credentials_volume_mount lib v ms)
  unfolding with_credentials_volume with_credentials_volume_mount
  Declared-credentials v vs ms h = elim (Bool-cases (v.spec.credentials_config.secret_name == "")) [
    | inl e ↦ rw e h
    | inr e ↦ rw e (Declared-both vs ms _ _ refl h)
  ]

  configurer_spec-Mountable : (v : VaultCr Any) → Mountable (configurer_spec lib v).template
  unfolding configurer_spec mount
  configurer_spec-Mountable v = (Declared-credentials v _ _ (refl, (refl, tt)), tt)

  vault_mounts-Declared : (v : VaultCr Any) → Declared (vault_volumes lib v) (vault_mounts lib v)
  unfolding vault_volumes vault_mounts mount
  vault_mounts-Declared v = Declared-credentials v _ _ (refl, (refl, (refl, tt)))

  unseal_mounts-Declared :
      (v : VaultCr Any) (json : String)
      → Declared (vault_volumes lib v) (unseal_container lib v json).volume_mounts
  unfolding vault_volumes unseal_container mount
  unseal_mounts-Declared v json = Declared-credentials v _ _ (refl, tt)

  -- The pod of a workload that Handle fabricates.
  abbrev pub pod_of : Object → Option PodTemplate
  pod_of (stateful_set m s) = some s.template
  pod_of (deployment m s) = some s.template
  pod_of (secret m x) = none
  pod_of (etcd_cluster m x) = none
  pod_of (service m x) = none
  pod_of (config_map m x) = none

  abbrev pub HasMountablePod : Object → Type 0
  HasMountablePod obj = (pod : PodTemplate) × (pod_of obj ≡ some pod) × Mountable pod

  module _ (v : VaultCr Any) where
    assembled-Mountable :
        (vs : List Volume) (ms : List VolumeMount) (r : Result String String) (obj : Object)
        → Declared vs ms
        → ((json : String) → Declared vs (unseal_container lib v json).volume_mounts)
        → assembled lib v vs ms r ≡ ok obj
        → HasMountablePod obj
    unfolding assembled stateful_spec vault_container
    assembled-Mountable vs ms (ok json) obj d u h =
        subst HasMountablePod (ok_inj h) (_, refl, (d, (u json, tt)))
    assembled-Mountable vs ms (err e) obj d u h = cc
    assembled-Mountable vs ms (panic s) obj d u h = cc

    with_etcd-Mountable :
        (r : Result String String) (obj : Object) → with_etcd lib v r ≡ ok obj → HasMountablePod obj
    unfolding with_etcd
    with_etcd-Mountable (ok name) obj h =
        assembled-Mountable _ _ _ obj (Declared-both _ _ _ _ refl (vault_mounts-Declared v))
          (λ json. Declared-append _ _ _ (unseal_mounts-Declared v json)) h
    with_etcd-Mountable (err e) obj h = cc
    with_etcd-Mountable (panic s) obj h = cc

  stateful_set-Mountable :
      (v : VaultCr Any) (t : String) (obj : Object)
      → (stateful_set_for_vault lib v t).0 ≡ ok obj
      → HasMountablePod obj
  unfolding stateful_set_for_vault
  stateful_set-Mountable v t obj h =
      elim (Bool-cases (ltb_ℤ (pos 1) v.spec.size && not (has_ha_storage lib.cast v.spec t))) [
        | inl e ↦ absurd cc
        | inr e ↦ elim (Bool-cases (t == "etcd")) [
          | inl k ↦ with_etcd-Mountable (with_tls_files lib t v) _ obj (rw (e, k) at h)
          | inr k ↦
              assembled-Mountable v _ _ _ obj (vault_mounts-Declared v) (unseal_mounts-Declared v)
                (rw (e, k) at h)
        ]
      ]

  -- The configurer's deployment, and the stateful set wherever one is made, have a pod of which
  -- every container mounts only volumes that the pod declares, with credentials or without, on etcd
  -- storage or another.
  pub pods_mount_their_volumes :
      (v : VaultCr Any)
      → HasMountablePod (deployment_for_configurer lib v)
        × ((t : String) (obj : Object)
            → (stateful_set_for_vault lib v t).0 ≡ ok obj
            → HasMountablePod obj)
  unfolding deployment_for_configurer
  pods_mount_their_volumes v = ((_, refl, configurer_spec-Mountable v), stateful_set-Mountable v)
