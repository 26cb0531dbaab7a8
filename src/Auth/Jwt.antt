-- ===== src/Auth/Jwt.antt =====
-- auth/auth.go: the HTTP handler that lets a request through whose JWT is valid and whitelisted.
-- The JWT library and the token store are parameters.
pub mod Admits
pub mod Methods
use bank_vaults.Prelude.{
  String, Bool, true, false, not, ◌||◌, Option, none, some, Exec, Result, ok, err, panic, pure,
  ◌>>=◌, ◌>>◌, ℕ, if◌then◌else◌, concat, [], ◌∷◌,
}
use bank_vaults.Auth.Tokens.{Token, TokenStore}

-- The fields of the claims that the handler reads are the subject and the id.
pub record ScopedClaims : Type 0 where
  pub subject : String
  pub id : String
  pub scope : String
  pub token_type : String
  pub text : String

-- What is saved into the request's context: the claims, or what the converter makes of them.
pub data Saved (User : Type 0) : Type 0 where
  claims_of : ScopedClaims → Saved User
  converted : User → Saved User

-- How a request ends: aborted with a status, a message and an error, or handed on with the user in
-- its context.
pub data Outcome (User : Type 0) : Type 0 where
  aborted : ℕ → String → Option String → Outcome User
  proceeds : Saved User → Outcome User

module _ {User : Type 0} where
  -- saveUserIntoContext, with a converter that may be nil
  unfoldable pub user_to_save : Option (ScopedClaims → User) → ScopedClaims → Saved User
  user_to_save none claims = claims_of claims
  user_to_save (some convert) claims = converted (convert claims)

-- jwt.SigningMethod: an HMAC, or another with the name of its algorithm
pub data Method : Type 0 where
  hmac : Method
  other : String → Method

-- jwt.ParseFromRequest, which asks its function for the key of the token's method: the claims and the
-- token's `Valid`; and base32.StdEncoding.EncodeToString
pub record Parser (Request : Type 0) : Type 0 where
  pub parse : (Method → Result String String) → Request → Result String (ScopedClaims × Bool)
  pub base32 : String → String

-- `token != nil`
is_some : Option Token → Bool
is_some none = false
is_some (some t) = true

module _ {Request : Type 0} (parser : Parser Request) where
  unfoldable pub hmac_key_func : String → Method → Result String String
  hmac_key_func signing_key hmac = ok (parser.base32 signing_key)
  hmac_key_func signing_key (other alg) = err (concat ("Unexpected signing method: " ∷ alg ∷ []))

module _ {W Request User : Type 0} (parser : Parser Request) (token_store : TokenStore W)
    (convert : Option (ScopedClaims → User)) where
  unfoldable pub is_token_whitelisted : ScopedClaims → Exec W String Bool
  unfolding is_some
  is_token_whitelisted claims = do
    token ← token_store.lookup claims.subject claims.id
    pure (is_some token)

  admit : ScopedClaims → Bool → Result String Bool → Result String (Outcome User)
  unfolding user_to_save
  admit claims valid (err e) = ok (aborted 500 "Failed to validate user token" (some e))
  admit claims valid (ok is_whitelisted) =
      if not valid || not is_whitelisted
      then ok (aborted 401 "Invalid token" none)
      else ok (proceeds (user_to_save convert claims))
  admit claims valid (panic s) = panic s

  unfoldable pub answer : Result String (ScopedClaims × Bool) → Exec W String (Outcome User)
  unfolding is_token_whitelisted admit
  answer (err e) w = (ok (aborted 401 "Invalid token" (some e)), w)
  answer (ok (claims, valid)) w =
      let (r, w') = is_token_whitelisted claims w in (admit claims valid r, w')
  answer (panic s) w = (panic s, w)

  unfoldable pub jwt_auth : String → Request → Exec W String (Outcome User)
  unfolding answer hmac_key_func
  jwt_auth signing_key request = answer (parser.parse (hmac_key_func parser signing_key) request)
