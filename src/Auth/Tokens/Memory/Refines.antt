-- ===== src/Auth/Tokens/Memory/Refines.antt =====
-- The in-memory token store of auth/tokenstore.go against an abstract one: a function of users and
-- token ids.
use bank_vaults.Prelude.{
  String, ◌&&◌, Option, none, some, ok, Dict, lookup, insert, delete, lookup-insert, lookup-delete,
  ◌==◌, if◌then◌else◌, ◌≡◌, refl, arith, eq_iff,
}
use bank_vaults.Auth.Tokens.{Token}
use bank_vaults.Auth.Tokens.Memory.{
  Tokens, with_token, store, token_in, lookup_token, revoked, revoke, in_memory,
}

abbrev pub View : Type 0
View = String → String → Option Token

-- What a token store promises, in terms of the token that each user has under each id.
abbrev pub stored : String → Token → View → View
stored u t f v id = if (u == v) && (t.id == id) then some t else f v id

abbrev pub removed : String → String → View → View
removed u i f v id = if (u == v) && (i == id) then none else f v id

unfoldable pub view : Tokens → View
unfolding token_in
view w user_id token_id = token_in token_id (lookup user_id w)

token_in-with_token :
    (t : Token) (id : String) (m : Option (Dict Token))
    → token_in id (some (with_token t m)) ≡ (if t.id == id then some t else token_in id m)
unfolding token_in with_token lookup insert
token_in-with_token t id none = ground arith
token_in-with_token t id (some m) = lookup-insert t.id id t m

store-view :
    (u : String) (t : Token) (w : Tokens) (v id : String)
    → view (store u t w).1 v id ≡ stored u t (view w) v id
unfolding view store
store-view u t w v id = grind (
  arith,
  lookup-insert u v (with_token t (lookup u w)) w,
  token_in-with_token t id (lookup u w),
  eq_iff u v,
)

revoked-view :
    (u i : String) (m : Option (Dict Token)) (w : Tokens) (v id : String)
    → lookup u w ≡ m
    → view (revoked u i m w) v id ≡ removed u i (view w) v id
unfolding view revoked token_in
revoked-view u i none w v id e = grind (arith, eq_iff u v)
revoked-view u i (some m) w v id e =
    grind (arith, eq_iff u v, lookup-insert u v (delete i m) w, lookup-delete i id m)

-- The in-memory token store refines a function from users and token ids to tokens: Store puts the
-- token under its user and id, Revoke removes it, both change nothing else, Lookup answers the
-- function's value and changes nothing, and none of them fails.
pub in_memory_refines :
    (w : Tokens) (u : String)
    → ((t : Token)
        → ((in_memory.store u t w).0 ≡ ok tt)
          × ((v id : String) → view (in_memory.store u t w).1 v id ≡ stored u t (view w) v id))
      × ((i : String)
          → ((in_memory.revoke u i w).0 ≡ ok tt)
            × ((v id : String) → view (in_memory.revoke u i w).1 v id ≡ removed u i (view w) v id))
      × ((i : String) → in_memory.lookup u i w ≡ (ok (view w u i), w))
unfolding in_memory store revoke lookup_token view
in_memory_refines w u = (
  λ t. (refl, store-view u t w),
  λ i. (refl, λ v id. revoked-view u i (lookup u w) w v id refl),
  λ i. refl,
)
