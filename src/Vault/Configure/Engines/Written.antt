-- ===== src/Vault/Configure/Engines/Written.antt =====
-- The configuration that configureSecretEngines of pkg/vault/vault.go writes for an engine.
use bank_vaults.Prelude.{
  String, Dict, List, [], ◌∷◌, ◌++◌, ok, for_each, for_each-logs, flat_map, bind-eq-ok, concat, ◌≡◌,
  ◌∙◌, sym, ap, lift, ◌>>=◌,
}
use bank_vaults.Vault.Configure.Values.{
  Value, mapping, array, to_list, entry_at, shown, string, as_list, as_mapping, as_list-eq-ok,
  as_mapping-eq-ok,
}
use bank_vaults.Vault.Configure.Api.{Admin, Host}
use bank_vaults.Vault.Configure.Engines.{write_entry, write_option, tolerating}

-- The paths that an engine's configuration names, in its order.
abbrev pub entry_paths : String → String → Value → List String
entry_paths path option v = elim v [
  | mapping m ↦ concat (path ∷ "/" ∷ option ∷ "/" ∷ shown string (entry_at "name" m) ∷ []) ∷ []
  | _ ↦ []
]

abbrev pub option_paths : String → String × Value → List String
option_paths path (option, v) = elim v [
  | array vs ↦ flat_map (entry_paths path option) (to_list vs)
  | _ ↦ []
]

module _ {W : Type 0} (admin : Admin W) (host : Host W) (written : W → List String)
    (logs : (path : String) (m : Dict Value) (w : W)
      → written (admin.write path m w).1 ≡ written w ++ (path ∷ [])) where
  write_entry-logs :
      (path option : String) (items : List Value) (v : Value) (w : W)
      → (write_entry admin host path option items v w).0 ≡ ok tt
      → written (write_entry admin host path option items v w).1
        ≡ written w ++ entry_paths path option v
  unfolding write_entry tolerating ◌>>=◌
  write_entry-logs path option items v w h =
      let (m, asserted, _, last) = bind-eq-ok (lift (as_mapping v)) _ w h in
      ap written last
      ∙ logs _ _ w
      ∙ ap (λ u. written w ++ entry_paths path option u) (sym (as_mapping-eq-ok v asserted))

  write_option-logs :
      (path : String) (o : String × Value) (w : W)
      → (write_option admin host path o w).0 ≡ ok tt
      → written (write_option admin host path o w).1 ≡ written w ++ option_paths path o
  unfolding write_option ◌>>=◌
  write_option-logs path (option, v) w h =
      let (items, asserted, rest, last) = bind-eq-ok (lift (as_list v)) _ w h in
      let (vs, same, all) = as_list-eq-ok v asserted in
      ap written last
      ∙ for_each-logs written (entry_paths path option) (write_entry admin host path option items)
          items (write_entry-logs path option items) w rest
      ∙ ap (λ l. written w ++ flat_map (entry_paths path option) l) all
      ∙ ap (λ u. written w ++ option_paths path (option, u)) (sym same)

  -- Let `written` be the paths that the server has been asked to write, whether it did or not. If the
  -- loop over an engine's configuration ends without an error, it has asked to write each path that
  -- the configuration names, once and in its order, also those after a path that the server refused
  -- to overwrite.
  pub engine_writes_all :
      (path : String) (configuration : Dict Value) (w : W)
      → (for_each (write_option admin host path) configuration w).0 ≡ ok tt
      → written (for_each (write_option admin host path) configuration w).1
        ≡ written w ++ flat_map (option_paths path) configuration
  engine_writes_all path configuration w h =
      for_each-logs written (option_paths path) (write_option admin host path) configuration
        (write_option-logs path) w h
