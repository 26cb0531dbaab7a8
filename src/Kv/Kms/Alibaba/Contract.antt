-- ===== src/Kv/Kms/Alibaba/Contract.antt =====
-- pkg/kv/alibabakms/kms.go and the contract of a key store: what is asked of the remote service,
-- and the proof.
use bank_vaults.Prelude.{String, Exec, made_of, Option, some, ok, wrapped-eq-ok, ◌>>=◌, ◌≡◌}
use bank_vaults.Kv.{Service}
use bank_vaults.Kv.Spec.{Faithful, Faithful-same}
use bank_vaults.Kv.Kms.Contract.{KmsLaws, opened, wrapped-ne-not_found, encrypted-Faithful}
use bank_vaults.Kv.Kms.Alibaba.{AlibabaApi, encrypt, decrypt, service, new}

-- What Alibaba KMS documents: `opens c` is the plaintext of the ciphertext `c`. The store below is
-- not touched.
pub record AlibabaLaws {W : Type 0} (api : AlibabaApi W) (kms_id : String)
    (opens : String → Option String) (below : W → String → Option String) : Type 0 where
  pub encrypts : (p c : String) (w : W) → (api.encrypt kms_id p w).0 ≡ ok c → opens c ≡ some p
  pub decrypts : (c p : String) (w : W) → (api.decrypt c w).0 ≡ ok p → opens c ≡ some p
  pub encrypt_keeps : (p j : String) (w : W) → below (api.encrypt kms_id p w).1 j ≡ below w j
  pub decrypt_keeps : (c j : String) (w : W) → below (api.decrypt c w).1 j ≡ below w j

module _ {W : Type 0} (api : AlibabaApi W) (store : Service W) (kms_id : String)
    (opens : String → Option String) (below : W → String → Option String)
    (laws : AlibabaLaws api kms_id opens below) (faithful : Faithful store below) where
  kms_laws : KmsLaws (encrypt api kms_id) (decrypt api kms_id) opens below
  unfolding encrypt decrypt ◌>>=◌
  kms_laws = record {
    encrypts = λ p c w h. laws.encrypts p c w (wrapped-eq-ok _ _ h);
    decrypts = λ c p w h. laws.decrypts c p w (wrapped-eq-ok _ _ h);
    never_missing = λ c m w. wrapped-ne-not_found _ m;
    encrypt_keeps = λ p j w. laws.encrypt_keeps p j w;
    decrypt_keeps = λ c j w. laws.decrypt_keeps c j w;
  }

  -- Where the store below keeps the contract and Alibaba KMS opens what it encrypted, the service
  -- keeps the contract for the plaintexts of what the store below holds.
  pub alibaba_service-Faithful :
      Faithful (service api kms_id store) (λ w k. opened opens (below w k))
  unfolding service
  alibaba_service-Faithful =
      encrypted-Faithful store (encrypt api kms_id) (decrypt api kms_id) opens below kms_laws
        faithful

module _ {W : Type 0} (new_client : String → String → String → Exec W String (AlibabaApi W))
    (region id secret kms_id : String) (store : Service W) (opens : String → Option String)
    (below : W → String → Option String)
    (laws : (api : AlibabaApi W) (w : W)
      → (new_client region id secret w).0 ≡ ok api
      → AlibabaLaws api kms_id opens below)
    (faithful : Faithful store below) where
  -- What New returns keeps the contract.
  pub alibaba_new-Faithful :
      (w : W) (s : Service W)
      → (new new_client region id secret kms_id store w).0 ≡ ok s
      → Faithful s (λ w k. opened opens (below w k))
  unfolding new
  alibaba_new-Faithful w s h =
      let (api, from, same) = made_of _ _ _ w h in
      Faithful-same same
        (alibaba_service-Faithful api store kms_id opens below (laws api w from) faithful)
