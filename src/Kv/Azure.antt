-- ===== src/Kv/Azure.antt =====
-- pkg/kv/azurekv/keyvault.go: the secrets of an Azure Key Vault. The SDK is a parameter.
pub mod Contract
pub mod Iam
use bank_vaults.Prelude.{
  String, Option, none, some, [], ◌∷◌, Exec, Result, ok, err, panic, pure, map_err, ◌>>=◌, concat,
  if◌then◌else◌, ℕ, leb, ◌&&◌,
}
use bank_vaults.Kv.{Service, Error, not_found, plain}

-- An error of the SDK: an `autorest.DetailedError` with its status code and text, or any other.
pub data AzureError : Type 0 where
  detailed : ℕ → String → AzureError
  other : String → AzureError

abbrev pub text : AzureError → String
text (detailed status m) = m
text (other m) = m

-- GetSecret, with the bundle's value or nil, and SetSecret, by the vault's URL and the key.
pub record Api (W : Type 0) : Type 0 where
  pub get_secret : String → String → Exec W AzureError (Option String)
  pub set_secret : String → String → String → Exec W AzureError (Unit {0})

-- The type assertion on the error panics where it is no DetailedError.
get_failed : String → AzureError → Result Error String
get_failed key (detailed status m) =
    if leb status 404 && leb 404 status
    then err (not_found (concat ("error getting secret for key '" ∷ key ∷ "': " ∷ m ∷ [])))
    else err (plain m)
get_failed key (other m) = panic "interface conversion: error is not autorest.DetailedError"

-- The dereference panics where the bundle has no value.
get_answer : String → Result AzureError (Option String) → Result Error String
unfolding get_failed
get_answer key (ok (some value)) = ok value
get_answer key (ok none) = panic "invalid memory address or nil pointer dereference"
get_answer key (err e) = get_failed key e
get_answer key (panic s) = panic s

module _ {W : Type 0} (api : Api W) (vault_base_url : String) where
  pub get : String → Exec W Error String
  unfolding get_answer
  get key w = let (r, w') = api.get_secret vault_base_url key w in (get_answer key r, w')

  pub set : String → String → Exec W Error (Unit {0})
  set key val = map_err (λ e. plain (text e)) (api.set_secret vault_base_url key val)

  pub service : Service W
  service = record { set = set; get = get; test = λ key. pure tt }

module _ {W : Type 0} (authorized : Exec W String (Api W)) where
  unfoldable pub new : String → Exec W Error (Service W)
  unfolding service
  new name = do
    client ← map_err plain authorized
    pure (service client (concat ("https://" ∷ name ∷ ".vault.azure.net" ∷ [])))
