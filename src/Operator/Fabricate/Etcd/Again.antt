-- ===== src/Operator/Fabricate/Etcd/Again.antt =====
-- statefulSetForVault of operator/pkg/stub/handler.go, called again with the custom resource that it
-- has changed: the settings of the certificates are there already.
use bank_vaults.Prelude.{
  List, String, true, false, not, ◌&&◌, ltb_ℤ, pos, some, ok, Dict, lookup, insert, insert-there,
  lookup-insert, ◌==◌, ◌≡◌, ◌≢◌, refl, ap, ◌∙◌, Bool-cases, inl, inr, arith, eq_refl,
}
use bank_vaults.Operator.Objects.{Object}
use bank_vaults.Operator.Spec.{Cast, VaultCr, all_storage, get_storage, has_ha_storage}
use bank_vaults.Operator.Fabricate.{Library, vault_volumes, vault_mounts}
use bank_vaults.Operator.Fabricate.Etcd.{
  stateful_set_for_vault, with_tls_files, with_etcd, etcd_name,
}

-- cast.ToStringMap answers the map that it is given.
pub record CastLaws {Any : Type 0} (cast : Cast Any) : Type 0 where
  pub same_map : (m : Dict Any) → cast.to_string_map (some (cast.of_map m)) ≡ m

module _ {Any : Type 0} (lib : Library Any) (laws : CastLaws lib.cast) (t : String)
    (v : VaultCr Any) where
  -- The settings, over the storage's own.
  abbrev settings : Dict Any → Dict Any
  settings m = insert "tls_key_file" (lib.cast.of_string "/etcd/tls/etcd-client.key") (
      insert "tls_cert_file" (lib.cast.of_string "/etcd/tls/etcd-client.crt")
        (insert "tls_ca_file" (lib.cast.of_string "/etcd/tls/etcd-client-ca.crt") m))

  settings_twice : (m : Dict Any) → settings (settings m) ≡ settings m
  settings_twice m =
      let a = lib.cast.of_string "/etcd/tls/etcd-client-ca.crt" in
      let b = lib.cast.of_string "/etcd/tls/etcd-client.crt" in
      let c = lib.cast.of_string "/etcd/tls/etcd-client.key" in
      let has_a : lookup "tls_ca_file" (settings m) ≡ some a = simp lookup-insert in
      let has_b : lookup "tls_cert_file" (settings m) ≡ some b = simp lookup-insert in
      let has_c : lookup "tls_key_file" (settings m) ≡ some c = simp lookup-insert in
      rw (insert-there _ a _ has_a, insert-there _ b _ has_b) (insert-there _ c _ has_c)

  abbrev v' : VaultCr Any
  v' = with_tls_files lib t v

  abbrev storage : Dict Any
  storage = get_storage lib.cast v.spec t

  abbrev stanza : Dict Any
  stanza = insert t (lib.cast.of_map (settings storage)) (all_storage lib.cast v.spec)

  configured : lookup "storage" v'.spec.config ≡ some (lib.cast.of_map stanza)
  unfolding with_tls_files
  configured = simp lookup-insert

  all_storage-v' : all_storage lib.cast v'.spec ≡ stanza
  unfolding all_storage
  all_storage-v' = ap lib.cast.to_string_map configured ∙ laws.same_map stanza

  lookup-stanza : lookup t stanza ≡ some (lib.cast.of_map (settings storage))
  lookup-stanza = simp (lookup-insert, eq_refl)

  get_storage-v' : get_storage lib.cast v'.spec t ≡ settings storage
  unfolding get_storage
  get_storage-v' =
      ap (λ m. lib.cast.to_string_map (lookup t m)) all_storage-v'
      ∙ ap lib.cast.to_string_map lookup-stanza
      ∙ laws.same_map (settings storage)

  stanza_again :
      insert t
        (lib.cast.of_map (settings (get_storage lib.cast v'.spec t)))
        (all_storage lib.cast v'.spec)
      ≡ stanza
  stanza_again =
      rw (get_storage-v', settings_twice storage, all_storage-v')
        (insert-there t _ stanza lookup-stanza)

  -- To write the settings again changes nothing.
  with_tls_files-again : with_tls_files lib t v' ≡ v'
  with_tls_files-again =
      let config_again : insert "storage"
            (lib.cast.of_map (
              insert t (lib.cast.of_map (settings (get_storage lib.cast v'.spec t)))
                (all_storage lib.cast v'.spec)))
            v'.spec.config
          ≡ v'.spec.config =
        rw stanza_again (insert-there "storage" _ v'.spec.config configured) in
      unfold with_tls_files in
      (ap (λ c. record v' { spec = record v'.spec { config = c } }) config_again)

  has_ha_storage-v' : has_ha_storage lib.cast v'.spec t ≡ has_ha_storage lib.cast v.spec t
  unfolding has_ha_storage
  has_ha_storage-v' =
      let same : lookup "ha_enabled" (get_storage lib.cast v'.spec t)
          ≡ lookup "ha_enabled" storage =
        ap (lookup "ha_enabled") get_storage-v' ∙ simp lookup-insert in
      ground (arith, same)

  with_etcd-again :
      (ltb_ℤ (pos 1) v.spec.size && not (has_ha_storage lib.cast v.spec t)) ≡ false
      → (t == "etcd") ≡ true
      → stateful_set_for_vault lib v' t ≡ stateful_set_for_vault lib v t
  unfolding stateful_set_for_vault
  with_etcd-again sized is_etcd =
      let size_same : ltb_ℤ (pos 1) v'.spec.size ≡ ltb_ℤ (pos 1) v.spec.size =
        unfold with_tls_files in refl in
      rw (size_same, has_ha_storage-v', sized, is_etcd)
        (ap (λ u. (with_etcd lib u (etcd_name lib u t), u)) with_tls_files-again)

  module _
      (sized : (ltb_ℤ (pos 1) v.spec.size && not (has_ha_storage lib.cast v.spec t)) ≡ false) where
    left_changed : (t == "etcd") ≡ true → (stateful_set_for_vault lib v t).1 ≡ v'
    unfolding stateful_set_for_vault
    left_changed is_etcd = rw (sized, is_etcd) refl

    left_alone : (t == "etcd") ≡ false → (stateful_set_for_vault lib v t).1 ≡ v
    unfolding stateful_set_for_vault
    left_alone other = rw (sized, other) refl

  refused :
      (obj : Object)
      → (ltb_ℤ (pos 1) v.spec.size && not (has_ha_storage lib.cast v.spec t)) ≡ true
      → (stateful_set_for_vault lib v t).0 ≢ ok obj
  unfolding stateful_set_for_vault
  refused obj e h = cc

  -- Where it has made a stateful set, statefulSetForVault makes the same again of the custom resource
  -- that it leaves, and leaves that as it is.
  pub stateful_set_for_vault-again :
      (obj : Object)
      → (stateful_set_for_vault lib v t).0 ≡ ok obj
      → stateful_set_for_vault lib (stateful_set_for_vault lib v t).1 t
        ≡ stateful_set_for_vault lib v t
  stateful_set_for_vault-again obj h =
      elim (Bool-cases (ltb_ℤ (pos 1) v.spec.size && not (has_ha_storage lib.cast v.spec t))) [
        | inl e ↦ absurd (refused obj e h)
        | inr e ↦ elim (Bool-cases (t == "etcd")) [
          | inl k ↦
              ap (λ u. stateful_set_for_vault lib u t) (left_changed e k) ∙ with_etcd-again e k
          | inr k ↦ ap (λ u. stateful_set_for_vault lib u t) (left_alone e k)
        ]
      ]

-- The stateful set does not depend on the status.
pub stateful_set_for_vault-nodes :
    {Any : Type 0} (lib : Library Any) (v : VaultCr Any) (t : String) (nodes : List String)
    → (stateful_set_for_vault lib (record v { nodes = nodes }) t).0
      ≡ (stateful_set_for_vault lib v t).0
unfolding stateful_set_for_vault vault_volumes vault_mounts
stateful_set_for_vault-nodes lib v t nodes =
    elim (Bool-cases (ltb_ℤ (pos 1) v.spec.size && not (has_ha_storage lib.cast v.spec t))) [
      | inl e ↦ rw e refl
      | inr e ↦ elim (Bool-cases (t == "etcd")) [ inl k ↦ rw (e, k) refl | inr k ↦ rw (e, k) refl ]
    ]
