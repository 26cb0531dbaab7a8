-- ===== src/Cli/Stores/Contract.antt =====
-- kvStoreForConfig (cmd/bank-vaults/util.go) and the contract of a key store: the store of every
-- mode keeps it, over the remote services of Remote.
use bank_vaults.Prelude.{
  String, Bool-cases, ◌||◌, ◌>>=◌, ok, map_err-eq-ok, bind-eq-ok, ◌==◌, ◌≡◌, ◌≢◌, inl, inr, eq_iff,
  arith,
}
use bank_vaults.Kv.{Service}
use bank_vaults.Kv.Spec.{Faithful, FaithfulBy}
use bank_vaults.Kv.K8s.Contract.{key_in, k8s_new-Faithful}
use bank_vaults.Kv.S3.Contract.{s3_new-Faithful}
use bank_vaults.Kv.Gcs.Contract.{gcs_new-Faithful}
use bank_vaults.Kv.Oss.Contract.{oss_new-Faithful}
use bank_vaults.Kv.Azure.Contract.{azure_new-Faithful}
use bank_vaults.Kv.Kms.Contract.{opened}
use bank_vaults.Kv.Kms.Aws.Contract.{context, aws_new-Faithful}
use bank_vaults.Kv.Kms.Google.Contract.{plaintext, google_new-Faithful}
use bank_vaults.Kv.Kms.Alibaba.Contract.{alibaba_new-Faithful}
use bank_vaults.Cli.Flags.{Viper}
use bank_vaults.Cli.Stores.{
  Sdk, google_store, aws_store, azure_store, alibaba_clients, alibaba_store, k8s_store,
  kv_store_for_config,
}
use bank_vaults.Cli.Stores.Remote.{
  Remote, SdkLaws, key_path_of, vault_url, same_by_mode, gcs_below, s3_below, oss_below,
  held_by_mode,
}

module _ {W Reader Writer S3Body OssBucket OssBody : Type 0} (cfg : Viper)
    (remote : Remote W Reader S3Body OssBody) (sdk : Sdk W Reader Writer S3Body OssBucket OssBody)
    (laws : SdkLaws cfg remote sdk) (w : W) (s : Service W) where
  google_store-Faithful :
      (google_store sdk cfg w).0 ≡ ok s
      → Faithful s (λ w k.
        opened
          (plaintext sdk.base64 (remote.google_opens (key_path_of cfg)))
          (gcs_below cfg remote w k))
  unfolding google_store
  google_store-Faithful h =
      let (g, made, rest, same) = bind-eq-ok _ _ w h in
      google_new-Faithful sdk.base64 sdk.google_client sdk.cloudkms g _ _ _ _
        (remote.google_opens (key_path_of cfg)) (gcs_below cfg remote) laws.base64 laws.google
        (gcs_new-Faithful sdk.gcs_client _ _ _ remote.gcs_contents laws.gcs w g
          (map_err-eq-ok _ _ w made))
        _ s (map_err-eq-ok _ _ _ rest)

  aws_store-Faithful :
      (aws_store sdk cfg w).0 ≡ ok s
      → Faithful s (λ w k.
        opened
          (remote.aws_opens (cfg.get_string "aws-kms-region") context)
          (s3_below cfg remote w k))
  unfolding aws_store
  aws_store-Faithful h =
      let (s3, made, rest, same) = bind-eq-ok _ _ w h in
      aws_new-Faithful sdk.aws_kms s3 _ _ (remote.aws_opens (cfg.get_string "aws-kms-region"))
        (s3_below cfg remote) laws.aws
        (s3_new-Faithful sdk.s3_client _ _ _ _ remote.s3_contents laws.s3 w s3
          (map_err-eq-ok _ _ w made))
        _ s (map_err-eq-ok _ _ _ rest)

  azure_store-Faithful :
      (azure_store sdk cfg w).0 ≡ ok s
      → FaithfulBy remote.azure_name s (remote.azure_secret (vault_url cfg))
  unfolding azure_store
  azure_store-Faithful h =
      azure_new-Faithful sdk.azure_client _ remote.azure_name (remote.azure_secret (vault_url cfg))
        laws.azure w s (map_err-eq-ok _ _ w h)

  alibaba_clients-Faithful :
      (id secret : String)
      → (alibaba_clients sdk cfg id secret (cfg.get_string "alibaba-oss-bucket") w).0 ≡ ok s
      → Faithful s (λ w k.
        opened
          (remote.alibaba_opens
            (cfg.get_string "alibaba-kms-region")
            (cfg.get_string "alibaba-kms-key-id"))
          (oss_below cfg remote w k))
  unfolding alibaba_clients
  alibaba_clients-Faithful id secret h =
      let (oss, made, rest, same) = bind-eq-ok _ _ w h in
      alibaba_new-Faithful sdk.alibaba_kms _ id secret _ oss
        (remote.alibaba_opens (cfg.get_string "alibaba-kms-region")
          (cfg.get_string "alibaba-kms-key-id"))
        (oss_below cfg remote) (laws.alibaba id secret)
        (oss_new-Faithful sdk.oss_client _ id secret _ _ _ remote.oss_contents (laws.oss id secret)
          w oss (map_err-eq-ok _ _ w made))
        _ s (map_err-eq-ok _ _ _ rest)

  alibaba_store-Faithful :
      (alibaba_store sdk cfg w).0 ≡ ok s
      → Faithful s (λ w k.
        opened
          (remote.alibaba_opens
            (cfg.get_string "alibaba-kms-region")
            (cfg.get_string "alibaba-kms-key-id"))
          (oss_below cfg remote w k))
  unfolding alibaba_store ◌>>=◌
  alibaba_store-Faithful h =
      elim (Bool-cases (
        (cfg.get_string "alibaba-access-key-id" == "")
        || (cfg.get_string "alibaba-access-key-secret" == ""))) [
          | inl empty ↦ absurd (cc)
          | inr given ↦ elim (Bool-cases (cfg.get_string "alibaba-oss-bucket" == "")) [
            | inl empty ↦ absurd (cc)
            | inr named ↦ alibaba_clients-Faithful _ _ (rw (given, named) at h)
          ]
        ]

  k8s_store-Faithful :
      (k8s_store sdk cfg w).0 ≡ ok s
      → Faithful s (λ w k. key_in k (
          remote.k8s_held
            (cfg.get_string "k8s-secret-namespace")
            (cfg.get_string "k8s-secret-name")
            w))
  unfolding k8s_store
  k8s_store-Faithful h = k8s_new-Faithful sdk.k8s _ _ _ laws.k8s w s (map_err-eq-ok _ _ w h)

  -- Where the remote services behave as documented, the store that the command makes in any mode
  -- but `dev` keeps the contract of a key store for what the service of its mode holds: the
  -- secrets of the vault or of the Kubernetes Secret, and for the modes with a key management
  -- service the plaintexts of the objects of its bucket, under its prefix. It tells all keys apart,
  -- but for the Azure Key Vault, which takes some names for the same one.
  pub kv_store_for_config-Faithful :
      cfg.get_string "mode" ≢ "dev"
      → (kv_store_for_config sdk cfg w).0 ≡ ok s
      → FaithfulBy (same_by_mode cfg remote) s (held_by_mode cfg remote sdk.base64)
  unfolding kv_store_for_config ◌>>=◌
  kv_store_for_config-Faithful not_dev h =
      let mode = cfg.get_string "mode" in
      elim (Bool-cases (mode == "google-cloud-kms-gcs")) [
        | inl e ↦ rw ((eq_iff _ _).0 e) (google_store-Faithful (rw e at h))
        | inr e1 ↦ elim (Bool-cases (mode == "aws-kms-s3")) [
          | inl e ↦ rw ((eq_iff _ _).0 e) (aws_store-Faithful (rw (e1, e) at h))
          | inr e2 ↦ elim (Bool-cases (mode == "azure-key-vault")) [
            | inl e ↦ rw (e1, e2, e) (azure_store-Faithful (rw (e1, e2, e) at h))
            | inr e3 ↦ elim (Bool-cases (mode == "alibaba-kms-oss")) [
              | inl e ↦ rw (e1, e2, e3, e) (alibaba_store-Faithful (rw (e1, e2, e3, e) at h))
              | inr e4 ↦ elim (Bool-cases (mode == "k8s")) [
                | inl e ↦ rw (e1, e2, e3, e4) (k8s_store-Faithful (rw (e1, e2, e3, e4, e) at h))
                | inr e5 ↦ elim (Bool-cases (mode == "dev")) [
                  | inl e ↦ absurd (not_dev ((eq_iff mode "dev").0 e))
                  | inr e6 ↦ absurd (ground arith)
                ]
              ]
            ]
          ]
        ]
      ]
