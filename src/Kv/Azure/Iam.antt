-- ===== src/Kv/Azure/Iam.antt =====
-- pkg/kv/azurekv/iam.go: the authorizer for an Azure Key Vault, which is made once. The package's
-- variables are a part of the world. Azure/go-autorest, url.Parse and os.Getenv are parameters; an
-- error is its text.
pub mod Cached
use bank_vaults.Prelude.{
  String, Option, none, some, [], ◌∷◌, Exec, Result, ok, err, panic, pure, fail, panics, effect,
  ◌>>=◌, ◌>>◌, concat,
}
use bank_vaults.Kv.Azure.{Api}

-- The package's variables that are read. The OAuth configuration that parseArgs makes is read by
-- getAuthorizer only, which nothing calls.
pub record Variables (Authorizer : Type 0) : Type 0 where
  pub tenant_id : String
  pub client_id : String
  pub client_secret : String
  pub keyvault_authorizer : Option Authorizer

-- Where the variables are in the world, and adal.NewOAuthConfig, the change of its AuthorizeEndpoint,
-- adal.NewServicePrincipalToken, autorest.NewBearerAuthorizer and url.Parse
pub record Adal (W Authorizer Config Url Token : Type 0) : Type 0 where
  pub variables : W → Variables Authorizer
  pub assign : Variables Authorizer → W → W
  pub getenv : String → W → String
  pub active_directory_endpoint : String
  pub new_oauth_config : String → String → Exec W String Config
  pub parse_url : String → Result String Url
  pub with_endpoint : Url → Config → Config
  pub new_service_principal_token : Config → String → String → String → Exec W String Token
  pub new_bearer_authorizer : Token → Authorizer

module _ {W Authorizer Config Url Token : Type 0} (adal : Adal W Authorizer Config Url Token) where
  -- The error of NewOAuthConfig ends the process, in `init`.
  unfoldable pub parse_args : Exec W String Config
  parse_args w =
      let w' =
        adal.assign
          (record (adal.variables w) {
            tenant_id = adal.getenv "AZURE_TENANT_ID" w;
            client_id = adal.getenv "AZURE_CLIENT_ID" w;
            client_secret = adal.getenv "AZURE_CLIENT_SECRET" w;
          })
          w in
      adal.new_oauth_config adal.active_directory_endpoint (adal.variables w').tenant_id w'

  -- From the configuration with its endpoint on.
  authorize : Config → Exec W String Authorizer
  authorize config w =
      let vars = adal.variables w in
      (do
        token ←
            adal.new_service_principal_token config vars.client_id vars.client_secret
              "https://vault.azure.net"
        let a = adal.new_bearer_authorizer token
        effect (λ u. adal.assign (record (adal.variables u) { keyvault_authorizer = some a }) u)
        pure a)
        w

  -- The error of NewOAuthConfig is overwritten by that of url.Parse before it is tested; the pointer
  -- that is dereferenced in between is then nil, and so is the URL's where that cannot be parsed.
  with_config : Result String Config → Result String Url → Exec W String Authorizer
  unfolding authorize
  with_config (ok config) (ok url) = authorize (adal.with_endpoint url config)
  with_config (ok config) (err e) =
      panics "runtime error: invalid memory address or nil pointer dereference"
  with_config (err e) url =
      panics "runtime error: invalid memory address or nil pointer dereference"
  with_config (panic s) url = panics s
  with_config (ok config) (panic s) = panics s

  make_authorizer : Exec W String Authorizer
  unfolding with_config
  make_authorizer w =
      let vars = adal.variables w in
      let (config, w') = adal.new_oauth_config adal.active_directory_endpoint vars.tenant_id w in
      with_config config
        (adal.parse_url
          (concat ("https://login.windows.net/" ∷ vars.tenant_id ∷ "/oauth2/token" ∷ [])))
        w'

  known_or_made : Option Authorizer → Exec W String Authorizer
  unfolding make_authorizer
  known_or_made (some a) = pure a
  known_or_made none = make_authorizer

  unfoldable pub get_keyvault_authorizer : Exec W String Authorizer
  unfolding known_or_made
  get_keyvault_authorizer w = known_or_made (adal.variables w).keyvault_authorizer w

  -- The client of keyvault.go's New, whose Authorizer is set: what Azure.new takes as its client.
  unfoldable pub authorized_client : (Authorizer → Api W) → Exec W String (Api W)
  unfolding get_keyvault_authorizer
  authorized_client client_with = do
    authorizer ← get_keyvault_authorizer
    pure (client_with authorizer)
