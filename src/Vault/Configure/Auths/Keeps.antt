-- ===== src/Vault/Configure/Auths/Keeps.antt =====
-- What the auth methods of the configuration keep.
use bank_vaults.Prelude.{
  String, false, Dict, lookup, List, [], ◌∷◌, ok, Keeps, Keeps-for_each, Keeps-if, Keeps-pure,
  Keeps-map_err, keeps_rules, concat, ◌≡◌,
}
use bank_vaults.Vault.Configure.Values.{Value}
use bank_vaults.Vault.Configure.Api.{Admin, Host, AuthMount}
use bank_vaults.Vault.Configure.Auths.{
  exists_as, kubernetes_auth_config, put_role, configure_kubernetes_roles, configure_aws_roles,
  configure_github_config, put_github_mapping, put_github_mappings, configure_github_mappings,
  configure_aws_config, configure_ldap_config, put_ldap_mapping, configure_ldap_mappings,
  configure_kubernetes, configure_github, configure_aws, configure_ldap, configure_method,
  enable_missing, configure_auth,
}

module _ {W : Type 0} (admin : Admin W) (host : Host W) {P : W → Type 0}
    (read_file-Keeps : (name : String) → Keeps P (host.read_file name))
    (write-Keeps : (path : String) (m : Dict Value) → Keeps P (admin.write path m)) where
  getenv-Keeps : (name : String) → Keeps {E = String} P (λ w. (ok (host.getenv name w), w))
  getenv-Keeps name = record { at = λ w h. h }

  kubernetes_auth_config-Keeps : (path : String) → Keeps P (kubernetes_auth_config admin host path)
  unfolding kubernetes_auth_config
  kubernetes_auth_config-Keeps path =
      search (keeps_rules, read_file-Keeps, write-Keeps, getenv-Keeps) depth 9

  put_role-Keeps : (method : String) (v : Value) → Keeps P (put_role admin host method v)
  unfolding put_role
  put_role-Keeps method v = search (keeps_rules, write-Keeps)

  kubernetes_roles-Keeps : (vs : List Value) → Keeps P (configure_kubernetes_roles admin host vs)
  unfolding configure_kubernetes_roles
  kubernetes_roles-Keeps vs = Keeps-for_each _ vs (put_role-Keeps "kubernetes")

  aws_roles-Keeps : (vs : List Value) → Keeps P (configure_aws_roles admin host vs)
  unfolding configure_aws_roles
  aws_roles-Keeps vs = Keeps-for_each _ vs (put_role-Keeps "aws")

  github_mapping-Keeps :
      (t : String) (m : String × String) → Keeps P (put_github_mapping admin host t m)
  unfolding put_github_mapping
  github_mapping-Keeps t m = search (keeps_rules, write-Keeps)

  github_mappings-Keeps : (m : Dict Value) → Keeps P (configure_github_mappings admin host m)
  unfolding configure_github_mappings put_github_mappings
  github_mappings-Keeps m =
      Keeps-for_each _ m
        (λ x. Keeps-for_each _ (host.to_string_map_string x.1) (github_mapping-Keeps x.0))

  ldap_mapping-Keeps : (t : String) (m : String × Value) → Keeps P (put_ldap_mapping admin host t m)
  unfolding put_ldap_mapping
  ldap_mapping-Keeps t m = search (keeps_rules, write-Keeps)

  ldap_mappings-Keeps :
      (t : String) (m : Dict Value) → Keeps P (configure_ldap_mappings admin host t m)
  unfolding configure_ldap_mappings
  ldap_mappings-Keeps t m = Keeps-for_each _ m (ldap_mapping-Keeps t)

  kubernetes-Keeps :
      (path : String) (m : Dict Value) → Keeps P (configure_kubernetes admin host path m)
  unfolding configure_kubernetes
  kubernetes-Keeps path m =
      search (keeps_rules, kubernetes_auth_config-Keeps, kubernetes_roles-Keeps) depth 9

  github-Keeps : (m : Dict Value) → Keeps P (configure_github admin host m)
  unfolding configure_github configure_github_config
  github-Keeps m = search (keeps_rules, write-Keeps, github_mappings-Keeps) depth 9

  aws-Keeps : (m : Dict Value) → Keeps P (configure_aws admin host m)
  unfolding configure_aws configure_aws_config
  aws-Keeps m = search (keeps_rules, write-Keeps, aws_roles-Keeps) depth 9

  ldap-Keeps : (m : Dict Value) → Keeps P (configure_ldap admin host m)
  unfolding configure_ldap configure_ldap_config
  ldap-Keeps m = search (keeps_rules, write-Keeps, ldap_mappings-Keeps) depth 9

  configure_method-Keeps :
      (kind path : String) (m : Dict Value) → Keeps P (configure_method admin host kind path m)
  unfolding configure_method
  configure_method-Keeps kind path m =
      search (keeps_rules, kubernetes-Keeps, github-Keeps, aws-Keeps, ldap-Keeps) depth 12

  module _ (existing : Dict AuthMount)
      (enable-Keeps : (path kind : String)
        → exists_as kind (lookup (concat (path ∷ "/" ∷ [])) existing) ≡ false
        → Keeps P (admin.enable_auth path (record { type_of = kind }))) where
    enable_missing-Keeps :
        (kind path : String) → Keeps P (enable_missing admin host existing kind path)
    unfolding enable_missing
    enable_missing-Keeps kind path =
        Keeps-if _ _ _ (λ _. Keeps-pure tt)
          (λ absent. Keeps-map_err _ _ (enable-Keeps path kind absent))

    pub configure_auth-Keeps : (m : Dict Value) → Keeps P (configure_auth admin host existing m)
    unfolding configure_auth
    configure_auth-Keeps m =
        search (keeps_rules, enable_missing-Keeps, configure_method-Keeps) depth 9
