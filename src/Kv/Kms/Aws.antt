-- ===== src/Kv/Kms/Aws.antt =====
-- pkg/kv/awskms/awskms.go: encryption by AWS KMS. The SDK is a parameter.
pub mod Contract
use bank_vaults.Prelude.{
  String, [], ◌∷◌, Exec, Result, ok, err, lift, map_err, concat, Dict, ◌==◌, if◌then◌else◌,
}
use bank_vaults.Kv.{Service, Error, plain}
use bank_vaults.Kv.Kms.{encrypted}

-- kms.EncryptInput and kms.DecryptInput of the AWS SDK
pub record EncryptInput : Type 0 where
  pub key_id : String
  pub plaintext : String
  pub encryption_context : Dict String

pub record DecryptInput : Type 0 where
  pub ciphertext_blob : String
  pub encryption_context : Dict String

pub record AwsApi (W : Type 0) : Type 0 where
  pub encrypt : EncryptInput → Exec W String String
  pub decrypt : DecryptInput → Exec W String String

module _ {W : Type 0} (api : AwsApi W) where
  pub decrypt : String → Exec W Error String
  decrypt cipher_text = map_err plain (
      api.decrypt (record {
        ciphertext_blob = cipher_text;
        encryption_context = ("Tool", "bank-vaults") ∷ [];
      }))

  pub encrypt : String → String → Exec W Error String
  encrypt kms_id plain_text = map_err plain (
      api.encrypt (record {
        key_id = kms_id;
        plaintext = plain_text;
        encryption_context = ("Tool", "bank-vaults") ∷ [];
      }))

  -- NewWithSession, over the service of a session
  unfoldable pub new_with_session : Service W → String → Result Error (Service W)
  unfolding encrypt decrypt encrypted
  new_with_session store kms_id =
      if kms_id == ""
      then err (plain (concat ("invalid kmsID specified: '" ∷ kms_id ∷ "'" ∷ [])))
      else ok (encrypted store (encrypt kms_id) decrypt)

module _ {W : Type 0} (make_client : String → AwsApi W) where
  -- `session.Must` panics where no session can be made; the client stands for a session that was.
  unfoldable pub new : Service W → String → String → Exec W Error (Service W)
  unfolding new_with_session
  new store region kms_id = lift (new_with_session (make_client region) store kms_id)
