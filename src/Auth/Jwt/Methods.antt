-- ===== src/Auth/Jwt/Methods.antt =====
-- The signing methods that the JWT handler of auth/auth.go accepts.
use bank_vaults.Prelude.{String, Option, some, Result, ok, err, ◌≡◌, refl, concat, [], ◌∷◌}
use bank_vaults.Auth.Tokens.{TokenStore}
use bank_vaults.Auth.Jwt.{
  Method, other, ScopedClaims, aborted, Parser, hmac_key_func, answer, jwt_auth,
}

-- The parser refuses a request for whose method the function answers no key.
unfoldable pub Asks : {Request : Type 0} → Parser Request → (Request → Method) → Type 0
Asks {Request} parser method_of =
    (key : Method → Result String String) (request : Request) (e : String)
    → key (method_of request) ≡ err e
    → (e' : String) × (parser.parse key request ≡ err e')

-- If the parser refuses a request that it gets no key for, then a request whose token is signed with
-- another method than an HMAC, or with none, is aborted with status 401, whatever the signing key and
-- whatever the token store has, and the store is not asked.
pub jwt_refuses_other_methods :
    {W Request User : Type 0} (parser : Parser Request) (store : TokenStore W)
    (convert : Option (ScopedClaims → User)) (method_of : Request → Method)
    (signing_key alg : String) (request : Request) (w : W)
    → Asks parser method_of
    → method_of request ≡ other alg
    → (e : String) × (jwt_auth parser store convert signing_key request w
        ≡ (ok (aborted 401 "Invalid token" (some e)), w))
unfolding jwt_auth answer hmac_key_func Asks
jwt_refuses_other_methods parser store convert method_of signing_key alg request w refuses signed =
    let (e, refused) =
      refuses (hmac_key_func parser signing_key) request
        (concat ("Unexpected signing method: " ∷ alg ∷ [])) (rw signed refl) in
    (e, rw refused refl)
