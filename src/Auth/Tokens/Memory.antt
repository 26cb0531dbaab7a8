-- ===== src/Auth/Tokens/Memory.antt =====
-- The in-memory token store of auth/tokenstore.go: maps of users to maps of tokens, which Go shares
-- by reference. Every method holds the lock from its first to its last line, so that calls from
-- several goroutines act one after the other.
pub mod Refines
use bank_vaults.Prelude.{
  String, Option, none, some, List, [], map, Exec, ok, Dict, lookup, insert, delete,
}
use bank_vaults.Auth.Tokens.{Token, TokenStore}

abbrev pub Tokens : Type 0
Tokens = Dict (Dict Token)

new : Tokens
new = []

-- userTokens[token.ID] = token, in the map that is there or a new one
unfoldable pub with_token : Token → Option (Dict Token) → Dict Token
with_token token none = insert token.id token []
with_token token (some user_tokens) = insert token.id token user_tokens

unfoldable pub store : String → Token → Exec Tokens String (Unit {0})
unfolding with_token
store user_id token w = (ok tt, insert user_id (with_token token (lookup user_id w)) w)

-- The token of a user's map, if there is one.
unfoldable pub token_in : String → Option (Dict Token) → Option Token
token_in token_id none = none
token_in token_id (some user_tokens) = lookup token_id user_tokens

unfoldable pub lookup_token : String → String → Exec Tokens String (Option Token)
unfolding token_in
lookup_token user_id token_id w = (ok (token_in token_id (lookup user_id w)), w)

-- delete(userTokens, tokenID), which the map of the users sees
revoked : String → String → Option (Dict Token) → Tokens → Tokens
revoked user_id token_id none w = w
revoked user_id token_id (some user_tokens) w = insert user_id (delete token_id user_tokens) w

unfoldable pub revoke : String → String → Exec Tokens String (Unit {0})
unfolding revoked
revoke user_id token_id w = (ok tt, revoked user_id token_id (lookup user_id w) w)

listed : Option (Dict Token) → List (Option Token)
listed none = []
listed (some user_tokens) = map (λ (k, t). some t) user_tokens

unfoldable pub list : String → Exec Tokens String (List (Option Token))
unfolding listed
list user_id w = (ok (listed (lookup user_id w)), w)

unfoldable pub in_memory : TokenStore Tokens
in_memory = record { store = store; lookup = lookup_token; revoke = revoke; list = list }
