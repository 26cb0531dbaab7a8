-- ===== src/Auth/Tokens/Server/Refines.antt =====
-- The token store of auth/tokenstore.go in Vault against an abstract one: the tokens at the paths of
-- the engine.
use bank_vaults.Prelude.{
  String, pos, Option, none, some, List, [], ◌∷◌, map, Result, ok, ◌>>=◌, concat, ◌≡◌, ◌≢◌, ◌⊎◌,
  inl, inr, err, panic, ◌==◌, Bool-cases, eq_iff, refl, arith, pure,
}
use bank_vaults.Auth.Tokens.{Token}
use bank_vaults.Auth.Tokens.Server.{
  text, object, array, new_data, Fields, end, field, Values, stop, item, Logical, find, or_nil,
  to_string_map, as_string, needed, token_data_path, token_metadata_path, token_json, created_field,
  parse_fields, token_field, parse_token, in_server, store, found, lookup_token, revoke,
  lookup_each, keys_of, list,
}
use bank_vaults.Auth.Tokens.Server.Stored.{answer}

-- What Store sends.
abbrev pub payload : Token → Fields
payload t = new_data (pos 0) (field "token" (token_json t) end)

-- A token as it is read: the server says when it was created.
abbrev pub dated : Token → String → Token
dated t time = record { id = t.id; name = t.name; created_at = some time }

-- The list of keys in a listed secret, which is nil where there is none.
abbrev pub texts : List String → Values
texts [] = stop
texts (i ∷ is) = item (text i) (texts is)

abbrev pub listed : List String → Option Fields
listed [] = none
listed (i ∷ is) = some (field "keys" (array (texts (i ∷ is))) end)

abbrev pub list_path : String → String
list_path u = concat ("secret/metadata/accesstokens/" ∷ u ∷ [])

-- What the engine documents, where reads do not fail and it holds tokens only: `tokens w p` is the
-- token at the data path `p`, and `ids w p` the names below the metadata path `p`. To remove a
-- secret's metadata removes the secret.
pub record EngineLaws {W : Type 0} (logical : Logical W) (tokens : W → String → Option Token)
    (ids : W → String → List String) : Type 0 where
  pub reads :
      (p : String) (e : Token) (w : W)
      → tokens w p ≡ some e
      → (t : Token) × (at : String) × (time : String) × (e ≡ dated t time)
        × (logical.read p w
            ≡ (ok (some (answer (object (field "token" (token_json t) end)) at)), w))
        × (logical.parse_time at ≡ ok time)
  pub reads_none : (p : String) (w : W) → tokens w p ≡ none → logical.read p w ≡ (ok none, w)
  pub writes :
      (p : String) (t : Token) (w : W)
      → (logical.write p (payload t) w).0 ≡ ok tt
      → (time : String) × (tokens (logical.write p (payload t) w).1 p ≡ some (dated t time))
  pub write_keeps :
      (p q : String) (x : Fields) (w : W) → q ≢ p → tokens (logical.write p x w).1 q ≡ tokens w q
  pub removes :
      (u i : String) (w : W)
      → (logical.remove (token_metadata_path u i) w).0 ≡ ok tt
      → tokens (logical.remove (token_metadata_path u i) w).1 (token_data_path u i) ≡ none
  pub remove_keeps :
      (u i q : String) (w : W)
      → q ≢ token_data_path u i
      → tokens (logical.remove (token_metadata_path u i) w).1 q ≡ tokens w q
  pub lists : (p : String) (w : W) → logical.list p w ≡ (ok (listed (ids w p)), w)

unless_failed : {A : Type 0} → (r : Result String Unit) → (r ≡ ok tt → A) → (r ≢ ok tt) ⊎ A
unless_failed (ok tt) f = inr (f refl)
unless_failed (err e) f = inl (λ h. cc)
unless_failed (panic e) f = inl (λ h. cc)

elsewhere : {A : Type 0} → (q p : String) → (q ≢ p → A) → (q ≡ p) ⊎ A
elsewhere q p f = elim (Bool-cases (q == p)) [
  | inl same ↦ inl (grind (arith, eq_iff q p))
  | inr differs ↦ inr (f (λ h. grind (arith, eq_iff q p)))
]

module _ {W : Type 0} (logical : Logical W) (tokens : W → String → Option Token)
    (ids : W → String → List String) (laws : EngineLaws logical tokens ids) where
  abbrev view : W → String → String → Option Token
  view w u i = tokens w (token_data_path u i)

  parse_token-dated :
      (t : Token) (at time : String) (w : W)
      → logical.parse_time at ≡ ok time
      → parse_token logical (answer (object (field "token" (token_json t) end)) at) w
        ≡ (ok (some (dated t time)), w)
  unfolding token_json created_field parse_token token_field parse_fields find or_nil to_string_map
      as_string needed ◌>>=◌
  parse_token-dated t at time w parsed = rw parsed refl

  lookup_token-view :
      (u i : String) (o : Option Token) (w : W)
      → view w u i ≡ o
      → lookup_token logical u i w ≡ (ok o, w)
  unfolding lookup_token found ◌>>=◌
  lookup_token-view u i none w e = rw (laws.reads_none _ w e) refl
  lookup_token-view u i (some e) w there =
      let (t, at, time, same, read, parsed) = laws.reads _ e w there in
      rw (read, same) (parse_token-dated t at time w parsed)

  lookup_each-view :
      (u : String) (is : List String) (w : W)
      → lookup_each logical u (texts is) w ≡ (ok (map (view w u) is), w)
  unfolding lookup_each as_string ◌>>=◌
  lookup_each-view u [] w = refl
  lookup_each-view u (i ∷ is) w = rw (lookup_token-view u i _ w refl, lookup_each-view u is w) refl

  keys_of-listed : (is : List String) (w : W) → keys_of logical (listed is) w ≡ (ok (texts is), w)
  unfolding keys_of find or_nil pure
  keys_of-listed [] w = refl
  keys_of-listed (i ∷ is) w = refl

  list-view :
      (u : String) (w : W) → list logical u w ≡ (ok (map (view w u) (ids w (list_path u))), w)
  unfolding list ◌>>=◌
  list-view u w =
      rw (laws.lists (list_path u) w, keys_of-listed (ids w (list_path u)) w)
        (lookup_each-view u (ids w (list_path u)) w)

  -- Where the KV engine behaves as documented and its reads do not fail, the token store in Vault
  -- refines a function from paths to tokens: if Store returns without an error, then the token is
  -- at its path, with the time at which the server created it; if Revoke returns without an
  -- error, then none is there; both leave every other path as it is, whatever they return; Lookup
  -- answers what is at the path, and List what is at the paths of the names that the engine lists
  -- for the user, in this order.
  pub in_server_refines :
      (u : String) (w : W)
      → ((t : Token)
          → ((((in_server logical).store u t w).0 ≢ ok tt)
              ⊎ ((time : String) × (tokens
                      ((in_server logical).store u t w).1
                      (token_data_path u t.id)
                    ≡ some (dated t time))))
            × ((q : String)
                → (q ≡ token_data_path u t.id)
                  ⊎ (tokens ((in_server logical).store u t w).1 q ≡ tokens w q)))
        × ((i : String)
            → ((((in_server logical).revoke u i w).0 ≢ ok tt)
                ⊎ (tokens ((in_server logical).revoke u i w).1 (token_data_path u i) ≡ none))
              × ((q : String)
                  → (q ≡ token_data_path u i)
                    ⊎ (tokens ((in_server logical).revoke u i w).1 q ≡ tokens w q)))
        × ((i : String)
            → (in_server logical).lookup u i w ≡ (ok (tokens w (token_data_path u i)), w))
        × ((in_server logical).list u w
            ≡ (ok (map (λ i. tokens w (token_data_path u i)) (ids w (list_path u))), w))
  unfolding in_server store revoke
  in_server_refines u w = (
    λ t. (
      unless_failed _ (laws.writes (token_data_path u t.id) t w),
      λ q. elsewhere q _ (laws.write_keeps (token_data_path u t.id) q (payload t) w),
    ),
    λ i. (unless_failed _ (laws.removes u i w), λ q. elsewhere q _ (laws.remove_keeps u i q w)),
    λ i. lookup_token-view u i _ w refl,
    list-view u w,
  )
