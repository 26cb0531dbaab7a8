-- ===== src/Kv/Kms/Google/Contract.antt =====
-- pkg/kv/gckms/cloudkms.go and the contract of a key store: what is asked of the remote service,
-- and the proof.
use bank_vaults.Prelude.{
  String, [], ◌∷◌, concat, Exec, made_of, bind-eq-ok, ◌∙◌, ap, Result, ok, err, panic, pure,
  wrapped-eq-ok, ◌>>=◌, continue-eq-ok, ◌≡◌, ◌≢◌, refl, Option, some, none, arith,
}
use bank_vaults.Kv.{Service, not_found}
use bank_vaults.Kv.Spec.{Faithful, Faithful-same}
use bank_vaults.Kv.Kms.{encrypted}
use bank_vaults.Kv.Kms.Contract.{KmsLaws, opened, encrypted-Faithful}
use bank_vaults.Kv.Kms.Google.{GoogleApi, Base64, encrypt, decrypt, service, new}

-- encoding/base64 decodes what it encoded.
pub record Base64Laws (base64 : Base64) : Type 0 where
  pub decodes : (s : String) → base64.decode_string (base64.encode_to_string s) ≡ ok s

-- What Google Cloud KMS documents: `opens c` is the text that was encrypted into the ciphertext
-- `c`; a ciphertext is base64 as the encoder writes it. The store below is not touched.
pub record GoogleLaws {W : Type 0} (base64 : Base64) (svc : GoogleApi W) (key_path : String)
    (opens : String → Option String) (below : W → String → Option String) : Type 0 where
  pub encrypts : (p c : String) (w : W) → (svc.encrypt key_path p w).0 ≡ ok c → opens c ≡ some p
  pub canonical :
      (p c s : String) (w : W)
      → (svc.encrypt key_path p w).0 ≡ ok c
      → base64.decode_string c ≡ ok s
      → base64.encode_to_string s ≡ c
  pub decrypts : (c p : String) (w : W) → (svc.decrypt key_path c w).0 ≡ ok p → opens c ≡ some p
  pub encrypt_keeps : (p j : String) (w : W) → below (svc.encrypt key_path p w).1 j ≡ below w j
  pub decrypt_keeps : (c j : String) (w : W) → below (svc.decrypt key_path c w).1 j ≡ below w j

abbrev returned : Result String String → Option String
returned (ok s) = some s
returned (err e) = none
returned (panic s) = none

abbrev decoded : Base64 → Option String → Option String
decoded base64 none = none
decoded base64 (some c) = returned (base64.decode_string c)

-- The bytes that the stored bytes `s` are the encryption of.
abbrev pub plaintext : Base64 → (String → Option String) → String → Option String
plaintext base64 opens s = decoded base64 (opens (base64.encode_to_string s))

module _ {W : Type 0} (base64 : Base64) (svc : GoogleApi W) (store : Service W) (key_path : String)
    (opens : String → Option String) (below : W → String → Option String)
    (base64_laws : Base64Laws base64) (laws : GoogleLaws base64 svc key_path opens below)
    (faithful : Faithful store below) where
  encrypts :
      (p c : String) (w : W)
      → (encrypt base64 svc key_path p w).0 ≡ ok c
      → plaintext base64 opens c ≡ some p
  unfolding encrypt ◌>>=◌
  encrypts p c w h =
      let (t, made, decodes) = continue-eq-ok _ _ _ h in
      let sent = wrapped-eq-ok _ _ made in
      let written = laws.canonical _ t c w sent (wrapped-eq-ok _ _ decodes) in
      ap (λ e. decoded base64 (opens e)) written
      ∙ ap (decoded base64) (laws.encrypts _ t w sent)
      ∙ ap returned (base64_laws.decodes p)

  decrypts :
      (c p : String) (w : W)
      → (decrypt base64 svc key_path c w).0 ≡ ok p
      → plaintext base64 opens c ≡ some p
  unfolding decrypt ◌>>=◌
  decrypts c p w h =
      let (t, opened_as, decodes) = continue-eq-ok _ _ _ h in
      ap (decoded base64) (laws.decrypts _ t w (wrapped-eq-ok _ _ opened_as))
      ∙ ap returned (wrapped-eq-ok _ _ decodes)

  never_missing : (c m : String) (w : W) → (decrypt base64 svc key_path c w).0 ≢ err (not_found m)
  unfolding decrypt ◌>>=◌
  never_missing c m w h = grind arith

  kms_laws :
      KmsLaws
        (encrypt base64 svc key_path)
        (decrypt base64 svc key_path)
        (plaintext base64 opens)
        below
  unfolding encrypt decrypt ◌>>=◌
  kms_laws = record {
    encrypts = encrypts;
    decrypts = decrypts;
    never_missing = never_missing;
    encrypt_keeps = λ p j w. grind (arith, laws.encrypt_keeps);
    decrypt_keeps = λ c j w. grind (arith, laws.decrypt_keeps);
  }

  -- Where the store below keeps the contract and Google Cloud KMS opens what it encrypted, the
  -- service keeps the contract for the plaintexts of what the store below holds.
  google_service-Faithful :
      Faithful
        (service base64 svc key_path store)
        (λ w k. opened (plaintext base64 opens) (below w k))
  unfolding service encrypted pure
  google_service-Faithful =
      let inner = encrypted-Faithful store _ _ (plaintext base64 opens) below kms_laws faithful in
      record {
        got = inner.got;
        missing = inner.missing;
        get_keeps = inner.get_keeps;
        stored = inner.stored;
        set_keeps = inner.set_keeps;
        test_keeps = λ key j w. refl;
      }

-- The name of a key.
abbrev pub key_path : String → String → String → String → String
key_path project location keyring crypto_key = concat (
    "projects/" ∷ project ∷ "/locations/" ∷ location ∷ "/keyRings/" ∷ keyring ∷ "/cryptoKeys/"
    ∷ crypto_key ∷ [])

module _ {W : Type 0} (base64 : Base64) (default_client : Exec W String String)
    (cloudkms_new : String → Exec W String (GoogleApi W)) (store : Service W)
    (project location keyring crypto_key : String) (opens : String → Option String)
    (below : W → String → Option String) (base64_laws : Base64Laws base64)
    (laws : (client : String) (svc : GoogleApi W) (w : W)
      → (cloudkms_new client w).0 ≡ ok svc
      → GoogleLaws base64 svc (key_path project location keyring crypto_key) opens below)
    (faithful : Faithful store below) where
  -- What New returns keeps the contract.
  pub google_new-Faithful :
      (w : W) (s : Service W)
      → (new base64 default_client cloudkms_new store project location keyring crypto_key w).0
        ≡ ok s
      → Faithful s (λ w k. opened (plaintext base64 opens) (below w k))
  unfolding new
  google_new-Faithful w s h =
      let (client, logged_in, rest, ends) = bind-eq-ok _ _ w h in
      let (svc, from, same) = made_of _ _ _ _ rest in
      Faithful-same same (
        google_service-Faithful base64 svc store _ opens below base64_laws (laws client svc _ from)
          faithful)
