-- ===== src/Vault/Configure/Engines/Keeps.antt =====
-- What the secret engines of the configuration keep: an engine is mounted only where none is.
use bank_vaults.Prelude.{
  String, Option, none, some, Dict, lookup, List, [], ◌∷◌, Exec, ok, Keeps, Keeps-for_each,
  Keeps-lift, Keeps-bind, kept_by_bind, Keeps-map_err, map_err-eq-ok, lift, keeps_rules, concat,
  ◌≡◌, refl, map_err,
}
use bank_vaults.Vault.Configure.Values.{Value}
use bank_vaults.Vault.Configure.Api.{Admin, Host, MountOutput, MountInput, MountConfigInput}
use bank_vaults.Vault.Configure.Engines.{
  tolerating, write_entry, write_option, mount_or_tune, mount_listed, configure_engine,
  configure_secret_engines,
}

-- What `P` asks of the calls: mounting has to keep it where the server lists no engine only.
pub record Guards {W : Type 0} (admin : Admin W) (host : Host W) (P : W → Type 0) : Type 0 where
  pub secrets : Keeps P host.secrets
  pub write : (path : String) (m : Dict Value) → Keeps P (admin.write path m)
  pub tune : (path : String) (i : MountConfigInput) → Keeps P (admin.tune_mount path i)
  pub list : Keeps P admin.list_mounts
  pub mount :
      (path : String) (i : MountInput) (w : W) (mounts : Dict MountOutput)
      → P w
      → (admin.list_mounts w).0 ≡ ok mounts
      → lookup (concat (path ∷ "/" ∷ [])) mounts ≡ none
      → P (admin.mount path i (admin.list_mounts w).1).1

module _ {W : Type 0} (admin : Admin W) (host : Host W) {P : W → Type 0}
    (guards : Guards admin host P) where
  tolerating-Keeps :
      (f : String → String) (m : Exec W String (Unit {0}))
      → Keeps P m
      → Keeps P (tolerating admin host f m)
  unfolding tolerating
  tolerating-Keeps f m h = record { at = h.at }

  write-Keeps : (path : String) (m : Dict Value) → Keeps P (admin.write path m)
  write-Keeps = guards.write

  write_entry-Keeps :
      (path option : String) (vs : List Value) (v : Value)
      → Keeps P (write_entry admin host path option vs v)
  unfolding write_entry
  write_entry-Keeps path option vs v = search (keeps_rules, tolerating-Keeps, write-Keeps) depth 9

  write_option-Keeps :
      (path : String) (o : String × Value) → Keeps P (write_option admin host path o)
  unfolding write_option
  write_option-Keeps path o =
      Keeps-bind _ _ (Keeps-lift _) (λ vs. Keeps-for_each _ vs (write_entry-Keeps path o.0 vs))

  mount_absent-kept :
      (w : W) (mounts : Dict MountOutput) (kind path : String) (m : Dict Value)
      → P w
      → (admin.list_mounts w).0 ≡ ok mounts
      → lookup (concat (path ∷ "/" ∷ [])) mounts ≡ none
      → P (mount_or_tune admin host none kind path m (admin.list_mounts w).1).1
  unfolding mount_or_tune lift map_err
  mount_absent-kept w mounts kind path m h listed absent =
      let h' : P (admin.list_mounts w).1 = guards.list.at w h in
      kept_by_bind P _ _ _ h'
        (λ d _. kept_by_bind P _ _ _ h' (λ p _. guards.mount path _ w mounts h listed absent))

  mount_or_tune-kept :
      (w : W) (mounts : Dict MountOutput) (o : Option MountOutput) (kind path : String)
      (m : Dict Value)
      → P w
      → (admin.list_mounts w).0 ≡ ok mounts
      → lookup (concat (path ∷ "/" ∷ [])) mounts ≡ o
      → P (mount_or_tune admin host o kind path m (admin.list_mounts w).1).1
  unfolding mount_or_tune
  mount_or_tune-kept w mounts none kind path m h listed e =
      mount_absent-kept w mounts kind path m h listed e
  mount_or_tune-kept w mounts (some x) kind path m h listed e =
      (Keeps-map_err _ _ (guards.tune path _)).at _ (guards.list.at w h)

  mount_listed-Keeps :
      (kind path : String) (m : Dict Value) → Keeps P (mount_listed admin host kind path m)
  unfolding mount_listed mount_or_tune map_err
  mount_listed-Keeps kind path m = record {
    at = λ w h. kept_by_bind P _ _ w (guards.list.at w h) (λ mounts listed.
        mount_or_tune-kept w mounts _ kind path m h (map_err-eq-ok _ admin.list_mounts w listed)
          refl);
  }

  configure_engine-Keeps : (m : Dict Value) → Keeps P (configure_engine admin host m)
  unfolding configure_engine
  configure_engine-Keeps m = Keeps-bind _ _ (Keeps-lift _) (λ kind.
      Keeps-bind _ _ (Keeps-lift _) (λ path.
        Keeps-bind _ _ (mount_listed-Keeps kind path m)
          (λ _. Keeps-for_each _ _ (write_option-Keeps path))))

  pub secret_engines-Keeps : Keeps P (configure_secret_engines admin host)
  unfolding configure_secret_engines
  secret_engines-Keeps =
      Keeps-bind _ _ (Keeps-map_err _ _ guards.secrets)
        (λ ms. Keeps-for_each _ ms configure_engine-Keeps)
