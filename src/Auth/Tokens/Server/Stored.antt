-- ===== src/Auth/Tokens/Server/Stored.antt =====
-- What the token store of auth/tokenstore.go in Vault gives back of a token that it stored.
use bank_vaults.Prelude.{String, some, ok, ◌>>=◌, ◌≡◌, refl}
use bank_vaults.Auth.Tokens.{Token}
use bank_vaults.Auth.Tokens.Server.{
  Value, text, object, Fields, end, field, Logical, find, or_nil, to_string_map, as_string, needed,
  token_data_path, token_json, created_field, parse_fields, token_field, parse_token, in_server,
  store, found, lookup_token,
}

-- The answer of the KV engine, version 2, to a read of a secret: what was written as `data`, and
-- the time of creation in `metadata`.
abbrev pub answer : Value → String → Fields
answer val at =
    field "data" val (field "metadata" (object (field "created_time" (text at) end)) end)

-- The engine gives back what it accepted, with a time that parses.
pub record KvLaws {W : Type 0} (logical : Logical W) : Type 0 where
  pub reads_back :
      (p : String) (options val : Value) (w : W)
      → (logical.write p (field "options" options (field "data" val end)) w).0 ≡ ok tt
      → (at : String) × (time : String) × ((logical.read p
            (logical.write p (field "options" options (field "data" val end)) w).1).0
          ≡ ok (some (answer val at)))
        × (logical.parse_time at ≡ ok time)

module _ {W : Type 0} (logical : Logical W) (laws : KvLaws logical) where
  -- Where the engine gives back what it accepted, a token that was stored without an error is
  -- looked up with the same id and name, and with a time that the server gave it.
  pub in_server_round_trip :
      (user_id : String) (t : Token) (w : W)
      → ((in_server logical).store user_id t w).0 ≡ ok tt
      → (time : String) × (((in_server logical).lookup user_id t.id
            ((in_server logical).store user_id t w).1).0
          ≡ ok (some (record { id = t.id; name = t.name; created_at = some time })))
  unfolding in_server store lookup_token found token_data_path token_json created_field parse_token
      token_field parse_fields find or_nil to_string_map as_string needed ◌>>=◌
  in_server_round_trip user_id t w h =
      let (at, time, read, parsed) = laws.reads_back _ _ _ w h in (time, rw (read, parsed) refl)
