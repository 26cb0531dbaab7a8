-- ===== src/Kv/Kms.antt =====
-- A key store whose values are encrypted by a key management service before another store keeps
-- them: Get, Set and Test of pkg/kv/awskms/awskms.go, which pkg/kv/alibabakms/kms.go repeats.
pub mod Contract
pub mod Aws
pub mod Alibaba
pub mod Google
use bank_vaults.Prelude.{
  String, [], ◌∷◌, Exec, pure, fail, map_err, ◌>>=◌, ◌>>◌, concat, ◌==◌, if◌then◌else◌,
}
use bank_vaults.Kv.{Service, Error, plain, message}

-- Get, Set and Test of awskms.go, over its own `encrypt` and `decrypt`; kms.go has the same three.
module _ {W : Type 0} (store : Service W) (encrypt decrypt : String → Exec W Error String) where
  pub get : String → Exec W Error String
  get key = do cipher_text ← store.get key; decrypt cipher_text

  pub set : String → String → Exec W Error (Unit {0})
  set key val = do cipher_text ← encrypt val; store.set key cipher_text

  pub test : String → Exec W Error (Unit {0})
  test key = do
    map_err (λ e. plain (concat ("test of backend store failed: " ∷ message e ∷ [])))
        (store.test key)
    cipher_text ← encrypt "test"
    plain_text ← decrypt cipher_text
    if plain_text == "test"
        then pure tt
        else fail (
            plain (
              concat (
                "encrypted and decryped text doesn't match: exp: 'test', act: '" ∷ plain_text ∷ "'"
                ∷ [])))

  pub encrypted : Service W
  encrypted = record { set = set; get = get; test = test }
