-- ===== src/Vault/Configure/Mounts/Enabled.antt =====
-- The auth methods that Configure of pkg/vault/vault.go enables.
use bank_vaults.Prelude.{
  String, false, Dict, lookup, List, [], ◌∷◌, ok, Keeps-same, concat, ◌≡◌, ◌∙◌, All, sym, subst,
}
use bank_vaults.Vault.{Vault}
use bank_vaults.Vault.Configure.Api.{Admin, Host, AuthMount, MountInput}
use bank_vaults.Vault.Configure.Auths.{exists_as}
use bank_vaults.Vault.Configure.Mounts.{Leaves, configure-kept}
use bank_vaults.Vault.Configure.{configure}

-- A path and a type that are not mounted together.
pub Missing : Dict AuthMount → String × String → Type 0
Missing existing (path, kind) = exists_as kind (lookup (concat (path ∷ "/" ∷ [])) existing) ≡ false

module _ {W : Type 0} (admin : Admin W) (host : Host W) (v : Vault W)
    (enabled : W → List (String × String)) (leaves : Leaves admin host v enabled)
    (mounting : (path : String) (i : MountInput) (w : W)
      → enabled (admin.mount path i w).1 ≡ enabled w)
    (enabling : (path kind : String) (w : W)
      → enabled (admin.enable_auth path (record { type_of = kind }) w).1 ≡ (path, kind) ∷ enabled w)
    (auths : W → Dict AuthMount)
    (listing : (w : W) (existing : Dict AuthMount)
      → (admin.list_auth w).0 ≡ ok existing
      → existing ≡ auths w)
    (got : (k : String) (w : W) → auths (v.key_store.get k w).1 ≡ auths w)
    (set : (t : String) (w : W) → auths (v.cl.set_token t w) ≡ auths w) where
  -- Let `enabled` be the calls of `EnableAuthWithOptions` that the server has got, which the other
  -- calls leave alone, and let the server list the auth methods that it has. Then `Configure`,
  -- whatever its result, enables a method only at a path where none of its type was mounted when
  -- it began.
  pub configure_enables-Missing :
      (w : W) → enabled w ≡ [] → All (Missing (auths w)) (enabled (configure admin host v w).1)
  unfolding Missing
  configure_enables-Missing w none_yet =
      let Q : List (String × String) → Type 0 = All (Missing (auths w)) in
      configure-kept admin host v enabled leaves Q w (subst Q (sym none_yet) tt)
        (record {
          secrets = Keeps-same enabled Q host.secrets leaves.secrets;
          write = λ p m. Keeps-same enabled Q (admin.write p m) (leaves.write p m);
          tune = λ p i. Keeps-same enabled Q (admin.tune_mount p i) (leaves.tune p i);
          list = Keeps-same enabled Q admin.list_mounts leaves.list_mounts;
          mount = λ p i u ms h _ _. subst Q (sym (mounting p i _ ∙ leaves.list_mounts u)) h;
        })
        (λ t existing path kind listed absent. record {
          at = λ u h. subst Q (sym (enabling path kind u)) (
            subst (λ d. Missing d (path, kind)) (listing _ existing listed ∙ set t _ ∙ got _ w)
                absent,
            h,
          );
        })
