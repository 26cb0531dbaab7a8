-- ===== src/Operator/Fabricate/Etcd.antt =====
-- etcdForVault and statefulSetForVault of operator/pkg/stub/handler.go, and how etcd storage changes
-- the latter.
pub mod Belongs
pub mod Again
use bank_vaults.Prelude.{
  String, not, ◌&&◌, pos, ltb_ℤ, Option, none, some, [], ◌∷◌, ◌++◌, Result, ok, err, panic, lookup,
  insert, concat, ◌==◌, if◌then◌else◌,
}
use bank_vaults.Operator.Objects.{secret_source, Object, etcd_cluster}
use bank_vaults.Operator.Spec.{VaultCr, all_storage, get_storage, has_ha_storage}
use bank_vaults.Operator.Fabricate.{
  Library, labels_for_vault, as_owner, vault_volumes, vault_mounts, assembled,
}

module _ {Any : Type 0} (lib : Library Any) where
  -- storage["address"].(string) and the host's name in it
  host : Option String → Result String String
  host none = panic "interface conversion: interface {} is not string"
  host (some address) = lib.hostname address

  unfoldable pub etcd_name : VaultCr Any → String → Result String String
  unfolding host
  etcd_name v storage_type =
      host (lib.cast.as_string (lookup "address" (get_storage lib.cast v.spec storage_type)))

  cluster_of : VaultCr Any → Result String String → Result String Object
  unfolding labels_for_vault as_owner
  cluster_of v (ok name) =
      let tls = concat (name ∷ "-tls" ∷ []) in
      ok (
        etcd_cluster
          (record {
            name = name;
            namespace = v.namespace;
            labels = labels_for_vault v.name;
            owner_references = as_owner lib v ∷ [];
          })
          (record {
            size = 3;
            version = "3.1.15";
            operator_secret = tls;
            server_secret = tls;
            peer_secret = tls;
          }))
  cluster_of v (err e) = err e
  cluster_of v (panic s) = panic s

  unfoldable pub etcd_for_vault : VaultCr Any → String → Result String Object
  unfolding cluster_of etcd_name
  etcd_for_vault v storage_type = cluster_of v (etcd_name v storage_type)

  -- The assignments to `etcdStorage`, which is the map in the CR's own configuration: `ToStringMap`
  -- answers the map it is given.
  pub with_tls_files : String → VaultCr Any → VaultCr Any
  with_tls_files storage_type v =
      let storage = insert "tls_key_file" (lib.cast.of_string "/etcd/tls/etcd-client.key") (
        insert "tls_cert_file" (lib.cast.of_string "/etcd/tls/etcd-client.crt") (
          insert "tls_ca_file" (lib.cast.of_string "/etcd/tls/etcd-client-ca.crt")
            (get_storage lib.cast v.spec storage_type))) in
      let stanza = insert storage_type (lib.cast.of_map storage) (all_storage lib.cast v.spec) in
      record v {
        spec = record v.spec { config = insert "storage" (lib.cast.of_map stanza) v.spec.config };
      }

  -- What the name of the etcd cluster adds to the pods.
  unfoldable pub with_etcd : VaultCr Any → Result String String → Result String Object
  unfolding assembled
  with_etcd v (ok name) =
      assembled lib v
        (vault_volumes lib v
          ++ (record { name = "etcd-tls"; source = secret_source (concat (name ∷ "-tls" ∷ [])) }
              ∷ []))
        (vault_mounts lib v
          ++ (record { name = "etcd-tls"; mount_path = "/etcd/tls"; sub_path = "" } ∷ []))
        (lib.marshal_owner (as_owner lib v))
  with_etcd v (err e) = err e
  with_etcd v (panic s) = panic s

  -- The stateful set, and the CR that the call leaves.
  unfoldable pub stateful_set_for_vault : VaultCr Any → String → Result String Object × VaultCr Any
  unfolding assembled with_etcd with_tls_files etcd_name
  stateful_set_for_vault v storage_type =
      if ltb_ℤ (pos 1) v.spec.size && not (has_ha_storage lib.cast v.spec storage_type)
      then (err "More than 1 replicas are not supported without HA storage backend", v)
      else if storage_type == "etcd"
      then (let v' = with_tls_files storage_type v in
          (with_etcd v' (etcd_name v' storage_type), v'))
      else (
        assembled lib v (vault_volumes lib v) (vault_mounts lib v)
            (lib.marshal_owner (as_owner lib v)),
        v,
      )
