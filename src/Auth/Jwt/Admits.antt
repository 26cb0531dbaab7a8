-- ===== src/Auth/Jwt/Admits.antt =====
-- The JWT handler over the in-memory token store: who is let through.
use mathlib.Core.Logic.{◌↔◌}
use bank_vaults.Prelude.{
  String, Bool, true, false, Option, none, some, Result, ok, err, panic, ◌>>=◌, ◌≡◌, refl, ap,
}
use bank_vaults.Auth.Tokens.{Token}
use bank_vaults.Auth.Tokens.Memory.{Tokens, in_memory, lookup_token}
use bank_vaults.Auth.Tokens.Memory.Refines.{view}
use bank_vaults.Auth.Jwt.{
  ScopedClaims, proceeds, Parser, is_token_whitelisted, is_some, admit, answer, Saved, user_to_save,
  hmac_key_func, jwt_auth,
}

module _ {Request User : Type 0} (parser : Parser Request)
    (convert : Option (ScopedClaims → User)) where
  -- The claims of a valid token that the store has.
  abbrev pub Admitted : Result String (ScopedClaims × Bool) → Tokens → Saved User → Type 0
  Admitted r w user =
      (claims : ScopedClaims) × (r ≡ ok (claims, true))
      × ((t : Token) × (view w claims.subject claims.id ≡ some t))
      × (user_to_save convert claims ≡ user)

  admitted_valid :
      (claims : ScopedClaims) (valid : Bool) (found : Option Token) (user : Saved User)
      → admit parser in_memory convert claims valid (ok (is_some found)) ≡ ok (proceeds user)
      → (valid ≡ true) × ((t : Token) × (found ≡ some t)) × (user_to_save convert claims ≡ user)
  unfolding admit is_some user_to_save
  admitted_valid claims true (some t) user h = (refl, (t, refl), cc)
  admitted_valid claims true none user h = cc
  admitted_valid claims false found user h = cc

  answer-Admitted :
      (r : Result String (ScopedClaims × Bool)) (w : Tokens) (user : Saved User)
      → (answer parser in_memory convert r w).0 ≡ ok (proceeds user)
      → Admitted r w user
  unfolding answer is_token_whitelisted in_memory lookup_token view ◌>>=◌
  answer-Admitted (ok (claims, valid)) w user h =
      let (is_valid, stored, made) =
        admitted_valid claims valid (view w claims.subject claims.id) user h in
      (claims, ap (λ b. ok (claims, b)) is_valid, stored, made)
  answer-Admitted (err e) w user h = cc
  answer-Admitted (panic s) w user h = cc

  -- Over the in-memory store, the handler hands a request on with a user exactly if the request's
  -- token is valid, the store has a token of the claims' subject and id, and the user is what the
  -- converter makes of the claims.
  pub jwt_auth_iff :
      (signing_key : String) (request : Request) (w : Tokens) (user : Saved User)
      → ((jwt_auth parser in_memory convert signing_key request w).0 ≡ ok (proceeds user))
        ↔ Admitted (parser.parse (hmac_key_func parser signing_key) request) w user
  unfolding jwt_auth answer admit user_to_save is_some is_token_whitelisted in_memory lookup_token
      view ◌>>=◌
  jwt_auth_iff signing_key request w user = (
    answer-Admitted (parser.parse (hmac_key_func parser signing_key) request) w user,
    λ (claims, parsed, (t, stored), made). rw (parsed, stored, made) refl,
  )
