-- ===== src/Kv/Kms/Alibaba.antt =====
-- pkg/kv/alibabakms/kms.go: encryption by Alibaba KMS. The SDK is a parameter.
pub mod Contract
use bank_vaults.Prelude.{String, Exec, pure, map_err, ◌>>=◌}
use bank_vaults.Kv.{Service, Error, plain}
use bank_vaults.Kv.Kms.{encrypted}

-- Decrypt takes a ciphertext; Encrypt takes a key's id and a plaintext.
pub record AlibabaApi (W : Type 0) : Type 0 where
  pub encrypt : String → String → Exec W String String
  pub decrypt : String → Exec W String String

module _ {W : Type 0} (api : AlibabaApi W) (kms_id : String) where
  pub decrypt : String → Exec W Error String
  decrypt cipher_text = map_err plain (api.decrypt cipher_text)

  pub encrypt : String → Exec W Error String
  encrypt plain_text = map_err plain (api.encrypt kms_id plain_text)

  pub service : Service W → Service W
  unfolding encrypt decrypt encrypted
  service store = encrypted store encrypt decrypt

module _ {W : Type 0} (new_client : String → String → String → Exec W String (AlibabaApi W)) where
  unfoldable pub new : String → String → String → String → Service W → Exec W Error (Service W)
  unfolding service
  new region_id access_key_id access_key_secret kms_id store = do
    client ← map_err plain (new_client region_id access_key_id access_key_secret)
    pure (service client kms_id store)
