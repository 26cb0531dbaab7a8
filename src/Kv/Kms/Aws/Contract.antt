-- ===== src/Kv/Kms/Aws/Contract.antt =====
-- pkg/kv/awskms/awskms.go and the contract of a key store: what is asked of the remote service,
-- and the proof.
use bank_vaults.Prelude.{
  String, Bool-cases, sym, [], ◌∷◌, ok, wrapped-eq-ok, ◌>>=◌, ◌≡◌, Option, some, Dict, ok_inj, ◌==◌,
  inl, inr,
}
use bank_vaults.Kv.{Service}
use bank_vaults.Kv.Spec.{Faithful}
use bank_vaults.Kv.Kms.Contract.{KmsLaws, opened, wrapped-ne-not_found, encrypted-Faithful}
use bank_vaults.Kv.Kms.Aws.{
  AwsApi, EncryptInput, DecryptInput, encrypt, decrypt, new_with_session, new,
}

-- What AWS KMS documents: `opens context c` is the plaintext of the ciphertext `c`, which only the
-- encryption context that it was made with opens. The store below is not touched.
pub record AwsLaws {W : Type 0} (api : AwsApi W) (opens : Dict String → String → Option String)
    (below : W → String → Option String) : Type 0 where
  pub encrypts :
      (r : EncryptInput) (c : String) (w : W)
      → (api.encrypt r w).0 ≡ ok c
      → opens r.encryption_context c ≡ some r.plaintext
  pub decrypts :
      (r : DecryptInput) (p : String) (w : W)
      → (api.decrypt r w).0 ≡ ok p
      → opens r.encryption_context r.ciphertext_blob ≡ some p
  pub encrypt_keeps :
      (r : EncryptInput) (j : String) (w : W) → below (api.encrypt r w).1 j ≡ below w j
  pub decrypt_keeps :
      (r : DecryptInput) (j : String) (w : W) → below (api.decrypt r w).1 j ≡ below w j

abbrev pub context : Dict String
context = ("Tool", "bank-vaults") ∷ []

module _ {W : Type 0} (api : AwsApi W) (store : Service W) (kms_id : String)
    (opens : Dict String → String → Option String) (below : W → String → Option String)
    (laws : AwsLaws api opens below) (faithful : Faithful store below) where
  kms_laws : KmsLaws (encrypt api kms_id) (decrypt api) (opens context) below
  unfolding encrypt decrypt ◌>>=◌
  kms_laws = record {
    encrypts = λ p c w h. laws.encrypts _ c w (wrapped-eq-ok _ _ h);
    decrypts = λ c p w h. laws.decrypts _ p w (wrapped-eq-ok _ _ h);
    never_missing = λ c m w. wrapped-ne-not_found _ m;
    encrypt_keeps = λ p j w. laws.encrypt_keeps _ j w;
    decrypt_keeps = λ c j w. laws.decrypt_keeps _ j w;
  }

  -- Where the store below keeps the contract and AWS KMS opens a ciphertext in the context that it
  -- was made in, every service that NewWithSession makes keeps the contract for the plaintexts of
  -- what the store below holds.
  aws_service-Faithful :
      (s : Service W)
      → new_with_session api store kms_id ≡ ok s
      → Faithful s (λ w k. opened (opens context) (below w k))
  unfolding new_with_session
  aws_service-Faithful s h = elim (Bool-cases (kms_id == "")) [
    | inl e ↦ absurd (cc)
    | inr e ↦ rw (sym (ok_inj (rw e at h))) (
        encrypted-Faithful store (encrypt api kms_id) (decrypt api) (opens context) below kms_laws
          faithful)
  ]

module _ {W : Type 0} (make_client : String → AwsApi W) (store : Service W) (region kms_id : String)
    (opens : Dict String → String → Option String) (below : W → String → Option String)
    (laws : AwsLaws (make_client region) opens below) (faithful : Faithful store below) where
  -- What New returns keeps the contract.
  pub aws_new-Faithful :
      (w : W) (s : Service W)
      → (new make_client store region kms_id w).0 ≡ ok s
      → Faithful s (λ w k. opened (opens context) (below w k))
  unfolding new ◌>>=◌
  aws_new-Faithful w s h =
      aws_service-Faithful (make_client region) store kms_id opens below laws faithful s h
