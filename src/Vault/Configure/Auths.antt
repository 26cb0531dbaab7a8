-- ===== src/Vault/Configure/Auths.antt =====
-- The auth methods that Configure of pkg/vault/vault.go enables and configures. The body of a loop is
-- a function of its own.
pub mod Keeps
use bank_vaults.Prelude.{
  String, Bool, false, Option, none, some, Dict, lookup, List, [], ◌∷◌, Exec, Result, ok, pure,
  lift, map_err, ◌>>=◌, ◌>>◌, for_each, concat, ◌==◌, if◌then◌else◌,
}
use bank_vaults.Vault.Configure.Values.{
  Value, text, as_string, as_list, at, shown, default, string, shown_map,
}
use bank_vaults.Vault.Configure.Api.{Admin, Host, AuthMount}

-- An error's text with words in front of it.
pub prefixed : String → String → String
prefixed words e = concat (words ∷ ": " ∷ e ∷ [])

-- `path := typ`, unless the configuration has a path of its own.
unfoldable pub mount_path : String → Option Value → Result String String
mount_path kind none = ok kind
mount_path kind (some path) = as_string path

-- Whether the mount at the path is there and has the type.
unfoldable pub exists_as : String → Option AuthMount → Bool
exists_as kind none = false
exists_as kind (some mount) = mount.type_of == kind

module _ {W : Type 0} (admin : Admin W) (host : Host W) where
  unfoldable kubernetes_auth_config : String → Exec W String (Unit {0})
  kubernetes_auth_config path = do
    ca_cert ← host.read_file "/var/run/secrets/kubernetes.io/serviceaccount/ca.crt"
    reviewer_jwt ← host.read_file "/var/run/secrets/kubernetes.io/serviceaccount/token"
    service_host ← (λ w. (ok (host.getenv "KUBERNETES_SERVICE_HOST" w), w))
    admin.write (concat ("auth/" ∷ path ∷ "/config" ∷ [])) (
        ("kubernetes_host", text (concat ("https://" ∷ service_host ∷ [])))
        ∷ ("kubernetes_ca_cert", text ca_cert)
        ∷ ("token_reviewer_jwt", text reviewer_jwt)
        ∷ [])

  -- The body of the loops of configureKubernetesRoles and configureAwsRoles.
  put_role : String → Value → Exec W String (Unit {0})
  put_role method role_interface =
      let role = host.to_string_map role_interface in
      let name = at "name" role in
      map_err
        (prefixed
          (concat ("error putting " ∷ shown string name ∷ " " ∷ method ∷ " role into vault" ∷ [])))
        (admin.write (concat ("auth/" ∷ method ∷ "/role/" ∷ shown default name ∷ [])) role)

  configure_kubernetes_roles : List Value → Exec W String (Unit {0})
  unfolding put_role
  configure_kubernetes_roles roles = for_each (put_role "kubernetes") roles

  configure_aws_roles : List Value → Exec W String (Unit {0})
  unfolding put_role
  configure_aws_roles roles = for_each (put_role "aws") roles

  configure_github_config : Dict Value → Exec W String (Unit {0})
  configure_github_config config =
      map_err
        (prefixed (concat ("error putting " ∷ shown_map config ∷ " github config into vault" ∷ [])))
        (admin.write "auth/github/config" config)

  put_github_mapping : String → String × String → Exec W String (Unit {0})
  put_github_mapping mapping_type (user_or_team, policy) =
      map_err
        (prefixed (concat ("error putting " ∷ mapping_type ∷ " github mapping into vault" ∷ [])))
        (admin.write (concat ("auth/github/map/" ∷ mapping_type ∷ "/" ∷ user_or_team ∷ []))
          (("value", text policy) ∷ []))

  put_github_mappings : String × Value → Exec W String (Unit {0})
  unfolding put_github_mapping
  put_github_mappings (mapping_type, by_name) =
      for_each (put_github_mapping mapping_type) (host.to_string_map_string by_name)

  configure_github_mappings : Dict Value → Exec W String (Unit {0})
  unfolding put_github_mappings
  configure_github_mappings mappings = for_each put_github_mappings mappings

  configure_aws_config : Dict Value → Exec W String (Unit {0})
  configure_aws_config config =
      map_err
        (prefixed (concat ("error putting " ∷ shown_map config ∷ " aws config into vault" ∷ [])))
        (admin.write "auth/aws/config/client" config)

  configure_ldap_config : Dict Value → Exec W String (Unit {0})
  configure_ldap_config config =
      map_err
        (prefixed (concat ("error putting " ∷ shown_map config ∷ " ldap config into vault" ∷ [])))
        (admin.write "auth/ldap/config" config)

  put_ldap_mapping : String → String × Value → Exec W String (Unit {0})
  put_ldap_mapping mapping_type (user_or_group, policy) =
      map_err
        (prefixed (concat ("error putting " ∷ mapping_type ∷ " ldap mapping into vault" ∷ [])))
        (admin.write (concat ("auth/ldap/" ∷ mapping_type ∷ "/" ∷ user_or_group ∷ []))
          (host.to_string_map policy))

  -- cast.ToStringMap of a map[string]interface{} is that map.
  configure_ldap_mappings : String → Dict Value → Exec W String (Unit {0})
  unfolding put_ldap_mapping
  configure_ldap_mappings mapping_type mappings = for_each (put_ldap_mapping mapping_type) mappings

  -- The cases of the switch on the method's type.
  configure_kubernetes : String → Dict Value → Exec W String (Unit {0})
  unfolding configure_kubernetes_roles kubernetes_auth_config
  configure_kubernetes path method = do
    map_err (prefixed "error configuring kubernetes auth for vault") (kubernetes_auth_config path)
    roles ← lift (as_list (at "roles" method))
    map_err (prefixed "error configuring kubernetes auth roles for vault")
        (configure_kubernetes_roles roles)

  configure_github : Dict Value → Exec W String (Unit {0})
  unfolding configure_github_config configure_github_mappings
  configure_github method = do
    map_err (prefixed "error configuring github auth for vault")
        (configure_github_config (host.to_string_map (at "config" method)))
    map_err (prefixed "error configuring github mappings for vault")
        (configure_github_mappings (host.to_string_map (at "map" method)))

  configure_aws : Dict Value → Exec W String (Unit {0})
  unfolding configure_aws_config configure_aws_roles
  configure_aws method = do
    map_err (prefixed "error configuring aws auth for vault")
        (configure_aws_config (host.to_string_map (at "config" method)))
    roles ← lift (as_list (at "roles" method))
    map_err (prefixed "error configuring aws auth roles for vault") (configure_aws_roles roles)

  configure_ldap : Dict Value → Exec W String (Unit {0})
  unfolding configure_ldap_config configure_ldap_mappings
  configure_ldap method = do
    map_err (prefixed "error configuring ldap auth for vault")
        (configure_ldap_config (host.to_string_map (at "config" method)))
    map_err (prefixed "error configuring ldap groups for vault")
        (configure_ldap_mappings "groups" (host.to_string_map (at "groups" method)))
    map_err (prefixed "error configuring ldap users for vault")
        (configure_ldap_mappings "users" (host.to_string_map (at "users" method)))

  configure_method : String → String → Dict Value → Exec W String (Unit {0})
  unfolding configure_kubernetes configure_github configure_aws configure_ldap
  configure_method kind path method =
      if kind == "kubernetes"
      then configure_kubernetes path method
      else if kind == "github"
      then configure_github method
      else if kind == "aws"
      then configure_aws method
      else if kind == "ldap"
      then configure_ldap method
      else pure tt

  -- `if !exists`
  enable_missing : Dict AuthMount → String → String → Exec W String (Unit {0})
  unfolding exists_as
  enable_missing existing kind path =
      if exists_as kind (lookup (concat (path ∷ "/" ∷ [])) existing)
      then pure tt
      else map_err (prefixed (concat ("error enabling " ∷ kind ∷ " auth method for vault" ∷ [])))
          (admin.enable_auth path (record { type_of = kind }))

  -- The body of the loop over the auth methods.
  unfoldable pub configure_auth : Dict AuthMount → Dict Value → Exec W String (Unit {0})
  unfolding mount_path enable_missing configure_method
  configure_auth existing method = do
    kind ← lift (as_string (at "type" method))
    path ← lift (mount_path kind (lookup "path" method))
    enable_missing existing kind path
    configure_method kind path method
