-- ===== src/Vault/Configure/Engines.antt =====
-- configureSecretEngines of pkg/vault/vault.go, and the functions that it calls.
pub mod Keeps
pub mod Written
use bank_vaults.Prelude.{
  String, Bool, true, false, Option, none, some, Dict, lookup, List, [], ◌∷◌, Exec, Result, ok, err,
  panic, pure, lift, map_err, ◌>>=◌, ◌>>◌, for_each, contains, concat, ◌==◌, if◌then◌else◌,
}
use bank_vaults.Vault.Configure.Values.{
  Value, nil, text, array, mapping, as_string, as_list, as_mapping, at, entry_at, shown, default,
  string, to_values,
}
use bank_vaults.Vault.Configure.Api.{Admin, Host, MountOutput}
use bank_vaults.Vault.Configure.Auths.{prefixed, mount_path}

-- The value, if it is not nil.
pub get_or_default : Dict Value → String → Result String String
get_or_default m key = elim (at key m) [ nil ↦ ok "" | v ↦ as_string v ]

unfoldable pub is_overwrite_prohibited_error : String → Bool
is_overwrite_prohibited_error e = contains e "delete them before reconfiguring"

-- `continue` on the errors that forbid to overwrite.
unfoldable pub tolerated : (String → String) → Result String (Unit {0}) → Result String (Unit {0})
unfolding is_overwrite_prohibited_error
tolerated words (ok u) = ok u
tolerated words (err e) = if is_overwrite_prohibited_error e then ok tt else err (words e)
tolerated words (panic s) = panic s

module _ {W : Type 0} (admin : Admin W) (host : Host W) where
  pub get_or_default_string_map_string : Dict Value → String → Dict String
  get_or_default_string_map_string m key = elim (at key m) [
    | nil ↦ []
    | v ↦ host.to_string_map_string v
  ]

  get_or_default_string_map : Dict Value → String → Dict Value
  get_or_default_string_map m key = elim (at key m) [ nil ↦ [] | v ↦ host.to_string_map v ]

  unfoldable pub tolerating :
      (String → String) → Exec W String (Unit {0}) → Exec W String (Unit {0})
  unfolding tolerated
  tolerating words m w = let (r, w') = m w in (tolerated words r, w')

  -- The body of the innermost loop; `items` is the list that is looped over, for the error's text.
  unfoldable pub write_entry : String → String → List Value → Value → Exec W String (Unit {0})
  unfolding tolerating
  write_entry path option items item = do
    entries ← lift (as_mapping item)
    let config_path =
        concat (path ∷ "/" ∷ option ∷ "/" ∷ shown string (entry_at "name" entries) ∷ [])
    tolerating
        (prefixed (
          concat (
            "error putting "
            ∷ shown default (array (to_values items))
            ∷ " -> "
            ∷ config_path
            ∷ " config into vault"
            ∷ [])))
        (admin.write config_path (host.to_string_map (mapping entries)))

  unfoldable pub write_option : String → String × Value → Exec W String (Unit {0})
  unfolding write_entry
  write_option path (option, value) = do
    items ← lift (as_list value)
    for_each (write_entry path option items) items

  -- `if mounts[path+"/"] == nil`
  mount_or_tune : Option MountOutput → String → String → Dict Value → Exec W String (Unit {0})
  unfolding get_or_default get_or_default_string_map_string
  mount_or_tune none kind path engine = do
    description ← lift (get_or_default engine "description")
    plugin_name ← lift (get_or_default engine "plugin_name")
    map_err (prefixed (concat ("error mounting " ∷ path ∷ " into vault" ∷ []))) (
        admin.mount path (record {
          type_of = kind;
          description = description;
          plugin_name = plugin_name;
          options = get_or_default_string_map_string engine "options";
        }))
  mount_or_tune (some m) kind path engine =
      map_err (prefixed (concat ("error tuning " ∷ path ∷ " in vault" ∷ []))) (
        admin.tune_mount path
          (record { options = get_or_default_string_map_string engine "options" }))

  mount_listed : String → String → Dict Value → Exec W String (Unit {0})
  unfolding mount_or_tune
  mount_listed kind path engine = do
    mounts ← map_err (prefixed "error reading mounts from vault") admin.list_mounts
    mount_or_tune (lookup (concat (path ∷ "/" ∷ [])) mounts) kind path engine

  -- The body of the loop over the secret engines.
  configure_engine : Dict Value → Exec W String (Unit {0})
  unfolding mount_path mount_listed write_option get_or_default_string_map
  configure_engine engine = do
    kind ← lift (as_string (at "type" engine))
    path ← lift (mount_path kind (lookup "path" engine))
    mount_listed kind path engine
    for_each (write_option path) (get_or_default_string_map engine "configuration")

  unfoldable pub configure_secret_engines : Exec W String (Unit {0})
  unfolding configure_engine
  configure_secret_engines = do
    engines ← map_err (prefixed "error unmarshalling vault secrets config") host.secrets
    for_each configure_engine engines
