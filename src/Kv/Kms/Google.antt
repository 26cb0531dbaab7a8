-- ===== src/Kv/Kms/Google.antt =====
-- pkg/kv/gckms/cloudkms.go: encryption by Google Cloud KMS, whose texts are in base64. The client
-- library and encoding/base64 are parameters.
pub mod Contract
use bank_vaults.Prelude.{String, [], ◌∷◌, Exec, Result, lift, pure, map_err, ◌>>=◌, ◌>>◌, concat}
use bank_vaults.Kv.{Service, Error, plain}
use bank_vaults.Kv.Kms

-- The Encrypt and Decrypt calls take a key's path and a text.
pub record GoogleApi (W : Type 0) : Type 0 where
  pub encrypt : String → String → Exec W String String
  pub decrypt : String → String → Exec W String String

-- base64.StdEncoding
pub record Base64 : Type 0 where
  pub encode_to_string : String → String
  pub decode_string : String → Result String String

module _ {W : Type 0} (base64 : Base64) (svc : GoogleApi W) (key_path : String) where
  unfoldable pub encrypt : String → Exec W Error String
  encrypt s = do
    ciphertext ←
        map_err (λ e. plain (concat ("error encrypting data: " ∷ e ∷ [])))
          (svc.encrypt key_path (base64.encode_to_string s))
    map_err plain (lift (base64.decode_string ciphertext))

  unfoldable pub decrypt : String → Exec W Error String
  decrypt s = do
    plaintext ←
        map_err (λ e. plain (concat ("error decrypting data: " ∷ e ∷ [])))
          (svc.decrypt key_path (base64.encode_to_string s))
    map_err plain (lift (base64.decode_string plaintext))

  -- Get and Set are those of awskms.go; Test does nothing.
  unfoldable pub service : Service W → Service W
  unfolding Kms.get Kms.set
  service store = record {
    set = Kms.set store encrypt decrypt;
    get = Kms.get store encrypt decrypt;
    test = λ key. pure tt;
  }

module _ {W : Type 0} (base64 : Base64) (default_client : Exec W String String)
    (cloudkms_new : String → Exec W String (GoogleApi W)) where
  unfoldable pub new : Service W → String → String → String → String → Exec W Error (Service W)
  unfolding service
  new store project location keyring crypto_key = do
    client ←
        map_err (λ e. plain (concat ("error creating google client: " ∷ e ∷ []))) default_client
    kms_service ←
        map_err (λ e. plain (concat ("error creating google kms service client: " ∷ e ∷ [])))
          (cloudkms_new client)
    pure (
        service base64 kms_service
          (concat (
            "projects/" ∷ project ∷ "/locations/" ∷ location ∷ "/keyRings/" ∷ keyring
            ∷ "/cryptoKeys/" ∷ crypto_key ∷ []))
          store)
