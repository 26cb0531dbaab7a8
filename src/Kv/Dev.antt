-- ===== src/Kv/Dev.antt =====
-- pkg/kv/dev/dev.go: the store for `vault server -dev`; it holds the root token only.
use bank_vaults.Prelude.{
  String, Exec, pure, fail, map_err, ◌>>=◌, concat, ◌==◌, if◌then◌else◌, [], ◌∷◌,
}
use bank_vaults.Kv.{Service, Error, not_found, plain}

-- What `New` reads: $HOME and a file.
pub record Files (W : Type 0) : Type 0 where
  pub getenv : String → String
  pub read_file : String → Exec W String String

-- `key` fills the first verb; Go prints the second, which has no argument, as `%!s(MISSING)`.
pub missing_key : String → Error
missing_key key =
    not_found (concat ("key '" ∷ key ∷ "' is not present in secret: %!s(MISSING)" ∷ []))

module _ {W : Type 0} where
  pub get : String → String → Exec W Error String
  get root_token key = if key == "vault-root" then pure root_token else fail (missing_key key)

  pub service : String → Service W
  service root_token = record {
    set = λ key val. pure tt;
    get = get root_token;
    test = λ key. pure tt;
  }

  pub new : Files W → Exec W Error (Service W)
  new files = do
    root_token ←
        map_err (λ e. plain (concat ("error creating dev client: " ∷ e ∷ [])))
          (files.read_file (concat (files.getenv "HOME" ∷ "/.vault-token" ∷ [])))
    pure (service root_token)
