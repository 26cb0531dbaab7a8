-- ===== src/Vault/Configure/Mounts.antt =====
-- What Configure of pkg/vault/vault.go does to the mounts that are there already.
pub mod Enabled
pub mod Engaged
use bank_vaults.Prelude.{
  String, Bool, false, Option, some, none, Dict, lookup, List, [], ◌∷◌, ◌++◌, Exec, ok, Keeps,
  Keeps-same, Keeps-effect, Keeps-bind, Keeps-map_err, Keeps-for_each, kept_by_bind, map_err-eq-ok,
  map_err, keeps_rules, deferred, effect, concat, ◌≡◌, ◌∙◌, All, subst, sym,
}
use bank_vaults.Vault.{Vault}
use bank_vaults.Vault.Keys.{root_token_key}
use bank_vaults.Vault.Configure.Values.{Value}
use bank_vaults.Vault.Configure.Api.{
  Admin, Host, AuthMount, EnableAuthOptions, MountOutput, MountInput, MountConfigInput,
}
use bank_vaults.Vault.Configure.Auths.{exists_as}
use bank_vaults.Vault.Configure.Auths.Keeps.{configure_auth-Keeps}
use bank_vaults.Vault.Configure.Policies.{put_policy, configure_policies}
use bank_vaults.Vault.Configure.Engines.Keeps.{Guards, secret_engines-Keeps}
use bank_vaults.Vault.Configure.{configure_all, configure}

-- `view` of the world is no concern of the calls but `EnableAuthWithOptions` and `Mount`.
pub record Leaves {X : Type 0} {W : Type 0} (admin : Admin W) (host : Host W) (v : Vault W)
    (view : W → X) : Type 0 where
  pub get : (k : String) (w : W) → view (v.key_store.get k w).1 ≡ view w
  pub set_token : (t : String) (w : W) → view (v.cl.set_token t w) ≡ view w
  pub list_auth : (w : W) → view (admin.list_auth w).1 ≡ view w
  pub put_policy : (name rules : String) (w : W) → view (admin.put_policy name rules w).1 ≡ view w
  pub list_mounts : (w : W) → view (admin.list_mounts w).1 ≡ view w
  pub tune :
      (path : String) (i : MountConfigInput) (w : W) → view (admin.tune_mount path i w).1 ≡ view w
  pub write : (path : String) (m : Dict Value) (w : W) → view (admin.write path m w).1 ≡ view w
  pub auth : (w : W) → view (host.auth w).1 ≡ view w
  pub policies : (w : W) → view (host.policies w).1 ≡ view w
  pub secrets : (w : W) → view (host.secrets w).1 ≡ view w
  pub read_file : (name : String) (w : W) → view (host.read_file name w).1 ≡ view w

module _ {X W : Type 0} (admin : Admin W) (host : Host W) (v : Vault W) (view : W → X)
    (leaves : Leaves admin host v view) (Q : X → Type 0) where
  abbrev P : W → Type 0
  P w = Q (view w)

  policies-Keeps : Keeps P (configure_policies admin host)
  unfolding configure_policies
  policies-Keeps = Keeps-bind _ _ (Keeps-map_err _ _ (Keeps-same view Q _ leaves.policies)) (λ ps.
      Keeps-for_each _ ps (λ p. Keeps-map_err _ _ (Keeps-same view Q _ (leaves.put_policy _ _))))

  untouched : (t : String) (w : W) → P w → P (v.cl.set_token t w)
  untouched t w h = subst Q (sym (leaves.set_token t w)) h

  -- What the guards and the first listing of the auth methods allow to keep is kept.
  pub configure_all-kept :
      (w : W)
      → P w
      → Guards admin host P
      → ((existing : Dict AuthMount) (path kind : String)
          → (admin.list_auth w).0 ≡ ok existing
          → exists_as kind (lookup (concat (path ∷ "/" ∷ [])) existing) ≡ false
          → Keeps P (admin.enable_auth path (record { type_of = kind })))
      → P (configure_all admin host w).1
  unfolding configure_all map_err
  configure_all-kept w h guards enable =
      kept_by_bind P _ _ w ((Keeps-same view Q admin.list_auth leaves.list_auth).at w h)
        (λ existing listed.
          (Keeps-bind _ _ (Keeps-map_err _ _ (Keeps-same view Q _ leaves.auth)) (λ methods.
              Keeps-bind _ _
                (Keeps-for_each _ methods (
                  configure_auth-Keeps admin host (λ n. Keeps-same view Q _ (leaves.read_file n))
                    (λ p m. Keeps-same view Q _ (leaves.write p m)) existing
                    (λ path kind.
                      enable existing path kind (map_err-eq-ok _ admin.list_auth w listed))))
                (λ _.
                  Keeps-bind _ _ (Keeps-map_err _ _ policies-Keeps)
                    (λ _. Keeps-map_err _ _ (secret_engines-Keeps admin host guards))))).at
            _ ((Keeps-same view Q admin.list_auth leaves.list_auth).at w h))

  pub configure-kept :
      (w : W)
      → P w
      → Guards admin host P
      → ((t : String) (existing : Dict AuthMount) (path kind : String)
          → (admin.list_auth (v.cl.set_token t (v.key_store.get root_token_key w).1)).0
            ≡ ok existing
          → exists_as kind (lookup (concat (path ∷ "/" ∷ [])) existing) ≡ false
          → Keeps P (admin.enable_auth path (record { type_of = kind })))
      → P (configure admin host v w).1
  unfolding configure deferred map_err effect
  configure-kept w h guards enable =
      let got : P (v.key_store.get root_token_key w).1 =
        (Keeps-same view Q (v.key_store.get root_token_key) (leaves.get _)).at w h in
      kept_by_bind P _ _ w got (λ t _.
        let set : P (v.cl.set_token t (v.key_store.get root_token_key w).1) = untouched t _ got in
        kept_by_bind P _ _ _ set
          (λ _ _. untouched "" _ (configure_all-kept _ set guards (enable t))))
