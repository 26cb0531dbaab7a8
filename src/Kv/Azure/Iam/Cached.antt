-- ===== src/Kv/Azure/Iam/Cached.antt =====
-- The authorizer of pkg/kv/azurekv/iam.go after it has been made.
use bank_vaults.Prelude.{
  String, Option, none, some, Result, ok, err, panic, pure, ◌>>=◌, bind-eq-ok, ok_inj, ◌≡◌, refl,
  sym, subst, ap, ◌∙◌,
}
use bank_vaults.Kv.Azure.Iam.{
  Variables, Adal, authorize, with_config, make_authorizer, known_or_made, get_keyvault_authorizer,
}

module _ {W Authorizer Config Url Token : Type 0} (adal : Adal W Authorizer Config Url Token)
    (assigned : (vars : Variables Authorizer) (w : W)
      → adal.variables (adal.assign vars w) ≡ vars) where
  -- The variable has the authorizer.
  abbrev Kept : Authorizer → W → Type 0
  Kept a w = (adal.variables w).keyvault_authorizer ≡ some a

  authorize-Kept :
      (config : Config) (w : W) (a : Authorizer)
      → (authorize adal config w).0 ≡ ok a
      → Kept a (authorize adal config w).1
  unfolding authorize ◌>>=◌
  authorize-Kept config w a h =
      let vars = adal.variables w in
      let (token, _, rest, last) =
        bind-eq-ok
          (adal.new_service_principal_token config vars.client_id vars.client_secret
            "https://vault.azure.net")
          _ w h in
      subst (Kept a) (sym last)
        (ap (λ v. v.keyvault_authorizer) (assigned _ _) ∙ ap some (ok_inj rest))

  with_config-Kept :
      (c : Result String Config) (u : Result String Url) (w : W) (a : Authorizer)
      → (with_config adal c u w).0 ≡ ok a
      → Kept a (with_config adal c u w).1
  unfolding with_config ◌>>=◌
  with_config-Kept (ok config) (ok url) w a h = authorize-Kept _ w a h
  with_config-Kept (ok config) (err e) w a h = cc
  with_config-Kept (ok config) (panic s) w a h = cc
  with_config-Kept (err e) u w a h = cc
  with_config-Kept (panic s) u w a h = cc

  known_or_made-Kept :
      (o : Option Authorizer) (w : W) (a : Authorizer)
      → (adal.variables w).keyvault_authorizer ≡ o
      → (known_or_made adal o w).0 ≡ ok a
      → Kept a (known_or_made adal o w).1
  unfolding known_or_made make_authorizer ◌>>=◌
  known_or_made-Kept (some b) w a e h = e ∙ ap some (ok_inj h)
  known_or_made-Kept none w a e h = with_config-Kept _ _ _ a h

  -- Where the package's variables keep what is assigned to them: when GetKeyvaultAuthorizer has
  -- answered an authorizer, it answers the same one again, without a request and without a change.
  pub authorizer_made_once :
      (w : W) (a : Authorizer)
      → (get_keyvault_authorizer adal w).0 ≡ ok a
      → get_keyvault_authorizer adal (get_keyvault_authorizer adal w).1
        ≡ (ok a, (get_keyvault_authorizer adal w).1)
  unfolding get_keyvault_authorizer known_or_made pure
  authorizer_made_once w a h = rw (known_or_made-Kept _ w a refl h) refl
