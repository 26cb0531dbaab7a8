-- ===== src/Auth/Tokens/Server.antt =====
-- The token store of auth/tokenstore.go in Vault's KV engine, version 2, with NewData of
-- vault/vault.go. The server's API (Logical of hashicorp/vault/api) and time.Parse are parameters. A
-- value of a secret's free-form data (interface{}) is a `Value`.
pub mod Stored
pub mod Refines
use bank_vaults.Prelude.{
  String, ℤ, pos, Option, none, some, List, [], ◌∷◌, Exec, Result, ok, err, panic, pure, fail,
  panics, lift, ◌>>=◌, concat, ◌==◌, if◌then◌else◌,
}
use bank_vaults.Auth.Tokens.{Token, TokenStore}

mutual
  pub data Value : Type 0 where
    nil : Value
    text : String → Value
    number : ℤ → Value
    object : Fields → Value
    array : Values → Value
    other : Value

  pub data Fields : Type 0 where
    end : Fields
    field : String → Value → Fields → Fields

  pub data Values : Type 0 where
    stop : Values
    item : Value → Values → Values

-- m[k] and m, ok := m[k]
find : String → Fields → Option Value
find k end = none
find k (field j v m) = if j == k then some v else find k m

or_nil : Option Value → Value
or_nil none = nil
or_nil (some v) = v

-- cast.ToStringMap of a value that is not a map is empty
to_string_map : Value → Fields
to_string_map (object m) = m
to_string_map v = end

-- v.(string)
as_string : Value → Result String String
as_string (text s) = ok s
as_string v = panic "interface conversion: interface {} is not string"

-- `if v == nil { return error }`, and the assertion
needed : String → Value → Result String String
unfolding as_string
needed e nil = err e
needed e v = as_string v

-- `data` of vaultapi.Secret; a read answers `none` for a nil secret.
pub record Logical (W : Type 0) : Type 0 where
  pub write : String → Fields → Exec W String (Unit {0})
  pub read : String → Exec W String (Option Fields)
  pub remove : String → Exec W String (Unit {0})
  pub list : String → Exec W String (Option Fields)
  pub parse_time : String → Result String String

unfoldable pub token_data_path : String → String → String
token_data_path user_id token_id =
    concat ("secret/data/accesstokens/" ∷ user_id ∷ "/" ∷ token_id ∷ [])

unfoldable pub token_metadata_path : String → String → String
token_metadata_path user_id token_id =
    concat ("secret/metadata/accesstokens/" ∷ user_id ∷ "/" ∷ token_id ∷ [])

-- encoding/json of a Token, by its tags
created_field : Option String → Fields
created_field none = end
created_field (some at) = field "createdAt" (text at) end

unfoldable pub token_json : Token → Value
unfolding created_field
token_json t =
    object (field "id" (text t.id) (field "name" (text t.name) (created_field t.created_at)))

-- NewData of vault/vault.go. With `cas` 0 the engine writes only where no secret is.
unfoldable pub new_data : ℤ → Fields → Fields
new_data cas content =
    field "options" (object (field "cas" (number cas) end)) (field "data" (object content) end)

module _ {W : Type 0} (logical : Logical W) where
  parse_fields : Fields → Value → Exec W String (Option Token)
  unfolding find or_nil needed
  parse_fields metadata (object token_data) = do
    id ← lift (needed "Can't find \"token.id\" in Secret" (or_nil (find "id" token_data)))
    name ← lift (needed "Can't find \"token.name\" in Secret" (or_nil (find "name" token_data)))
    created_time ← lift (as_string (or_nil (find "created_time" metadata)))
    created_at ← lift (logical.parse_time created_time)
    pure (some (record { id = id; name = name; created_at = some created_at }))
  parse_fields metadata v =
      panics "interface conversion: interface {} is not map[string]interface {}"

  token_field : Fields → Option Value → Exec W String (Option Token)
  unfolding parse_fields
  token_field metadata none = fail "Can't find \"token\" in Secret"
  token_field metadata (some v) = parse_fields metadata v

  pub parse_token : Fields → Exec W String (Option Token)
  unfolding token_field to_string_map find or_nil
  parse_token secret =
      token_field (to_string_map (or_nil (find "metadata" secret)))
        (find "token" (to_string_map (or_nil (find "data" secret))))

  store : String → Token → Exec W String (Unit {0})
  unfolding token_data_path new_data token_json
  store user_id token =
      logical.write (token_data_path user_id token.id)
        (new_data (pos 0) (field "token" (token_json token) end))

  found : Option Fields → Exec W String (Option Token)
  unfolding parse_token
  found none = pure none
  found (some secret) = parse_token secret

  pub lookup_token : String → String → Exec W String (Option Token)
  unfolding found token_data_path
  lookup_token user_id token_id = do
    secret ← logical.read (token_data_path user_id token_id)
    found secret

  revoke : String → String → Exec W String (Unit {0})
  unfolding token_metadata_path
  revoke user_id token_id = logical.remove (token_metadata_path user_id token_id)

  -- The loop over the keys; each must be a text.
  lookup_each : String → Values → Exec W String (List (Option Token))
  unfolding lookup_token as_string
  lookup_each user_id stop = pure []
  lookup_each user_id (item v vs) = do
    token_id ← lift (as_string v)
    token ← lookup_token user_id token_id
    tokens ← lookup_each user_id vs
    pure (token ∷ tokens)

  -- `keys` of the listed secret, which is nil or an array
  keys_of : Option Fields → Exec W String Values
  unfolding find or_nil
  keys_of none = pure stop
  keys_of (some secret) = elim (or_nil (find "keys" secret)) [
    | nil ↦ pure stop
    | array vs ↦ pure vs
    | _ ↦ panics "interface conversion: interface {} is not []interface {}"
  ]

  list : String → Exec W String (List (Option Token))
  unfolding keys_of lookup_each
  list user_id = do
    secret ← logical.list (concat ("secret/metadata/accesstokens/" ∷ user_id ∷ []))
    keys ← keys_of secret
    lookup_each user_id keys

  unfoldable pub in_server : TokenStore W
  unfolding store lookup_token revoke list
  in_server = record { store = store; lookup = lookup_token; revoke = revoke; list = list }
